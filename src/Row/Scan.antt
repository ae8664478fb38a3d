-- ===== src/Row/Scan.antt =====
-- Reading a table to its end: `while ( row.read() )`, over Row::read of misfits/row.cc.
use misfits.Prelude.{
  ℕ, zero, suc, ◌+◌, ◌<◌, ◌≤◌, ◌≡◌, refl, ap, Bool, true, false, not, List, [], ◌∷◌, Option, none,
  some, ◌⊎◌, inl, inr, ◌==◌, ltb, length, if◌then◌else◌, arith,
}
use misfits.Prelude.Int.{ℤ, pos, ◌<ℤ?◌}
use misfits.Prelude.Text.{text}
use misfits.Cfitsio.{Cfitsio}
use misfits.Exception.{
  Exception, assert, Result, ok, throw, Action, pure, gets, modify, throw_if, Result-cases, ◌>>=◌,
  ◌>>◌,
}
use mathlib.Core.Option
use misfits.Exception.Keeps.{
  Keeps, Keeps-bind, Keeps-if, Keeps-pure, Keeps-throw_if, Keeps-zoom, Keeps-modify,
}
use misfits.Table.{num_rows, set_table_as_chdu}
use misfits.RowEntry.{Session, ColumnEntry, on_store}
use misfits.Row.{RowState, read, read_entries, auto_advanced, in_session, in_store}
use misfits.Row.Moves.{ReadOutcome, read_outcome}

-- The places from k on, as many as there are to be
abbrev pub places_from : ℕ → ℕ → List ℤ
places_from k zero = []
places_from k (suc left) = pos k ∷ places_from (k + 1) left

module _ {W M : Type 0} where
  -- How the loop ends that starts at place k of n rows, with `left` rows before it
  abbrev pub Scanned : ℕ → ℕ → ℕ → Result (Option (List ℤ)) × RowState W M → Type 0
  Scanned n k left outcome =
      ((s : RowState W M) × (outcome ≡ (ok (some (places_from k left)), s))
        × (s.row.idx ≡ pos (n + 1)))
      ⊎ ((e : Exception) × (s : RowState W M) × (outcome ≡ (throw e, s)))

-- What a client relies on while it reads a table: a property of the program's memory and of CFITSIO that reading keeps,
-- under which CFITSIO reports n rows.
pub record HasRows {W M : Type 0} ⦃c : Cfitsio W⦄ (P : Session W M → Type 0) (table : ℕ)
    (entries : List (ColumnEntry W M)) (n : ℕ) : Type 0 where
  pub chdu : Keeps P (on_store (set_table_as_chdu table))
  pub counted : Keeps P (on_store (num_rows table))
  pub count : (v : Session W M) (m : ℕ) → P v → (num_rows table v.store).0 ≡ ok m → m ≡ n
  pub read_all : (idx : ℤ) → Keeps P (read_entries table idx entries)

module _ {W M : Type 0} ⦃c : Cfitsio W⦄ where
  -- The loop, with the places at which it has read a row. It runs on fuel, and has no value where that runs out.
  unfoldable pub scan : ℕ → Action (RowState W M) (Option (List ℤ))
  scan zero = pure none
  scan (suc fuel) = do
    idx ← gets (λ s. s.row.idx)
    found ← read
    let go_on = do later ← scan fuel; pure (Option.map (λ places. idx ∷ places) later)
    if found then go_on else pure (some [])

module _ {W M : Type 0} ⦃c : Cfitsio W⦄ (P : Session W M → Type 0) (table : ℕ)
    (entries : List (ColumnEntry W M)) (n : ℕ) (has : HasRows P table entries n) where
  -- A row at place k that advances by itself
  abbrev at_row : ℕ → Session W M → RowState W M
  at_row k v = record {
    session = v;
    row = record { table = table; idx = pos k; auto_advance = true; entries = entries };
  }

  in_session-Keeps :
      {A : Type 0} (m : Action (Session W M) A)
      → Keeps P m
      → Keeps (λ s. P s.session) (in_session m)
  in_session-Keeps m k = Keeps-zoom _ _ m (λ v s. refl) k

  step-Keeps : Keeps (λ s. P s.session) (modify auto_advanced)
  step-Keeps = Keeps-modify auto_advanced (λ s h. ground arith)

  -- What `read` does to a row that it has got
  abbrev read_row : ℕ → Action (RowState W M) Bool
  read_row k = do
    in_store (set_table_as_chdu table)
    throw_if (length entries == 0) (assert (text "row object was not assigned any columns to read"))
    nrows ← in_store (num_rows table)
    let read_it = do
      in_session (read_entries table (pos k) entries)
      modify auto_advanced
      pure true
    if pos nrows <ℤ? pos k then pure false else read_it

  read_row-Keeps : (k : ℕ) → Keeps (λ s. P s.session) (read_row k)
  read_row-Keeps k =
      Keeps-bind _ _ (in_session-Keeps (on_store (set_table_as_chdu table)) has.chdu) λ _.
        Keeps-bind _ _ (Keeps-throw_if _ _) λ _.
          Keeps-bind _ _ (in_session-Keeps (on_store (num_rows table)) has.counted) λ nrows.
            Keeps-if _ _ _ (Keeps-pure false) (
              Keeps-bind _ _
                (in_session-Keeps (read_entries table (pos k) entries) (has.read_all (pos k)))
                λ _. Keeps-bind _ _ step-Keeps λ _. Keeps-pure true)

  read_keeps : (k : ℕ) (v : Session W M) → P v → P (read (at_row k v)).1.session
  unfolding read ◌>>=◌
  read_keeps k v = (read_row-Keeps k).at (at_row k v)

  -- `read` gives back true where the row is one of the n, and false where it is not.
  read_found :
      (k : ℕ) (v : Session W M) (b : Bool) → P v → (read (at_row k v)).0 ≡ ok b → b ≡ not (ltb n k)
  unfolding read ◌>>=◌
  read_found k v b h e =
      let u = (on_store (set_table_as_chdu table) v).1 in
      elim (Result-cases (num_rows table u.store).0) [
        | inl (m, e') ↦ let same : m ≡ n = has.count u m (has.chdu.at v h) e' in ground arith
        | inr (x, e') ↦ absurd (ground arith)
      ]

  -- How a call of `read` ends at place k
  abbrev ReadEnds : ℕ → Result Bool × RowState W M → Type 0
  ReadEnds k outcome =
      ((v : Session W M) × P v × (k ≤ n) × (outcome ≡ (ok true, at_row (k + 1) v)))
      ⊎ ((v : Session W M) × P v × (n < k) × (outcome ≡ (ok false, at_row k v)))
      ⊎ ((e : Exception) × (s : RowState W M) × (outcome ≡ (throw e, s)))

  ReadOutcome-ReadEnds :
      (k : ℕ) (v : Session W M) (r : Result Bool) (s : RowState W M)
      → ReadOutcome (at_row k v) (r, s)
      → P s.session
      → ((b : Bool) → r ≡ ok b → b ≡ not (ltb n k))
      → ReadEnds k (r, s)
  ReadOutcome-ReadEnds k v (ok true) s h p b =
      let within : true ≡ not (ltb n k) = b true refl in
      inl (
        s.session,
        p,
        ground arith,
        ap (λ row. (ok true, record { session = s.session; row = row })) h,
      )
  ReadOutcome-ReadEnds k v (ok false) s h p b =
      let past : false ≡ not (ltb n k) = b false refl in
      inr (
        inl (
          s.session,
          p,
          ground arith,
          ap (λ row. (ok false, record { session = s.session; row = row })) h.0,
        ))
  ReadOutcome-ReadEnds k v (throw e) s h p b = inr (inr (e, s, refl))

  read-ReadEnds : (k : ℕ) (v : Session W M) → P v → ReadEnds k (read (at_row k v))
  read-ReadEnds k v h =
      let (r, s) = read (at_row k v) in
      ReadOutcome-ReadEnds k v r s (read_outcome (at_row k v)) (read_keeps k v h)
        (λ b. read_found k v b h)

  -- While reading keeps a property under which CFITSIO reports n rows, `while ( row.read() )` ends, for a row that
  -- advances by itself and is no more than one past the last row. It reads the rows from that place to the last one,
  -- each once and in order, and leaves the row one past the last; or it throws what a call of `read` throws. It makes
  -- one call more than there are rows to read.
  pub scan_lem :
      (left fuel k : ℕ) (v : Session W M)
      → P v
      → k + left ≡ n + 1
      → left < fuel
      → Scanned n k left (scan fuel (at_row k v))
  unfolding scan ◌>>=◌
  scan_lem left zero k v h place enough = absurd (omega arith)
  scan_lem zero (suc fuel) k v h place enough = elim (read-ReadEnds k v h) [
    | inl (v', h', within, e) ↦ absurd (omega arith)
    | inr (inl (v', h', past, e)) ↦ inl (at_row k v', rw e refl, ap pos (omega arith))
    | inr (inr (x, s, e)) ↦ inr (x, s, rw e refl)
  ]
  scan_lem (suc left) (suc fuel) k v h place enough = elim (read-ReadEnds k v h) [
    | inl (v', h', within, e) ↦
        elim (scan_lem left fuel (k + 1) v' h' (omega arith) (omega arith)) [
          | inl (s, later, end) ↦ inl (s, rw (e, later) refl, end)
          | inr (x, s, later) ↦ inr (x, s, rw (e, later) refl)
        ]
    | inr (inl (v', h', past, e)) ↦ absurd (omega arith)
    | inr (inr (x, s, e)) ↦ inr (x, s, rw e refl)
  ]
