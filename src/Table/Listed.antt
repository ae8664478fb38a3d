-- ===== src/Table/Listed.antt =====
-- The loop of Table::refresh (misfits/table.cc) lists a column of the HDU as CFITSIO describes it.
use misfits.Prelude.{
  ℕ, zero, suc, ◌+◌, ◌<◌, ◌≤◌, ◌≡◌, refl, ap, true, false, List, [], ◌∷◌, ◌++◌, Option, none, some,
  length, length-append, get_elem?, arith, ◌⊎◌, inl, inr, Bool-cases, ◌==◌,
}
use mathlib.Core.Path.{subst, sym}
use misfits.Prelude.Int.{ℤ, pos, ◌+ℤ◌}
use misfits.Prelude.Text.{Text}
use misfits.Cfitsio.{Cfitsio}
use misfits.Cfitsio.Columns.{is_plain, HoldsColumn, Shows, KeepsDescriptions}
use misfits.Exception.{Result, ok, throw, throw_if, modify, ◌>>◌}
use misfits.Exception.Keeps.{Keeps-throw_if}
use misfits.Exception.Gives.{
  Gives, bind-Gives, pure-Gives, gets-Gives, modify-Gives, Gives-intro, Keeps-Gives,
}
use misfits.Types.{Spec}
use misfits.Store.{Store, ColumnInfo, set_columns, check}
use misfits.File.{hdu_type}
use misfits.Hdu.{hdu_refresh}
use misfits.ColumnInfo.{init}
use misfits.ColumnInfo.ReadBack.{Found, init-Found}
use misfits.Table.{push_columns, refresh, num_columns, set_table_as_chdu}
use misfits.Table.Layout.Frame.{init-SameColumns}
use misfits.Table.Watched.{init-Keeps, set_table_as_chdu-Keeps, hdu_type-Keeps, hdu_refresh-Keeps}
use misfits.Table.Reading.{Sees, Sees-Watches, check-Sees}

-- There is a description, and it is that of a column with the given name, type, axes and number.
abbrev pub Lists : Text → Spec → List ℤ → ℕ → Option ColumnInfo → Type 0
Lists ttype spec axes colnum none = true ≡ false
Lists ttype spec axes colnum (some ci) =
    (ci.ttype ≡ ttype) × (ci.column_type ≡ spec) × (ci.extent ≡ axes) × (ci.colnum ≡ colnum)

Found-Lists :
    (ttype : Text) (spec : Spec) (axes : List ℤ) (offset : ℤ) (colnum : ℕ) (r : Result ColumnInfo)
    {ci : ColumnInfo}
    → r ≡ ok ci
    → Found ttype spec axes offset colnum r
    → Lists ttype spec axes colnum (some ci)
Found-Lists ttype spec axes offset colnum (ok d) e h = ground arith
Found-Lists ttype spec axes offset colnum (throw x) e h = cc

get_elem?-snoc :
    (cs : List ColumnInfo) (ci : ColumnInfo) → get_elem? (cs ++ (ci ∷ [])) (length cs) ≡ some ci
get_elem?-snoc [] ci = refl
get_elem?-snoc (d ∷ cs) ci = get_elem?-snoc cs ci

module _ (ttype : Text) (spec : Spec) (axes : List ℤ) (colnum : ℕ) where
  Lists-snoc :
      (cs : List ColumnInfo) (i : ℕ) (ci : ColumnInfo)
      → Lists ttype spec axes colnum (get_elem? cs i)
      → Lists ttype spec axes colnum (get_elem? (cs ++ (ci ∷ [])) i)
  Lists-snoc [] i ci h = cc
  Lists-snoc (d ∷ cs) zero ci h = h
  Lists-snoc (d ∷ cs) (suc i) ci h = Lists-snoc cs i ci h

-- Either the list of columns has not come to the one with the index i, or it has it.
abbrev Awaits : Text → Spec → List ℤ → ℕ → List ColumnInfo → Type 0
Awaits ttype spec axes i cs = (length cs ≤ i) ⊎ Lists ttype spec axes (suc i) (get_elem? cs i)

Awaits-snoc :
    (ttype : Text) (spec : Spec) (axes : List ℤ) (i : ℕ) (cs : List ColumnInfo) (ci : ColumnInfo)
    → Awaits ttype spec axes i cs
    → (length cs ≡ i → Lists ttype spec axes (suc i) (some ci))
    → Awaits ttype spec axes i (cs ++ (ci ∷ []))
Awaits-snoc ttype spec axes i cs ci (inr here) next =
    inr (Lists-snoc ttype spec axes (suc i) cs i ci here)
Awaits-snoc ttype spec axes i cs ci (inl before) next = elim (Bool-cases (length cs == i)) [
  | inl test ↦
      let same : length cs ≡ i = ground arith in
      inr (
        subst (λ k. Lists ttype spec axes (suc i) (get_elem? (cs ++ (ci ∷ [])) k)) same
          (rw (get_elem?-snoc cs ci) (next same)))
  | inr test ↦
      let other : length cs < i = ground arith in inl (omega (arith, length-append cs (ci ∷ [])))
]

module _ {W : Type 0} ⦃c : Cfitsio W⦄ (law : KeepsDescriptions c) (t file f hdu_num i : ℕ)
    (ttype : Text) (spec : Spec) (plain : is_plain spec ≡ true) (repeat : ℕ) (axes : List ℤ) where
  -- The table is in the current HDU of its file, which holds the column with the index i.
  abbrev pub SeesColumn : Store W → Type 0
  SeesColumn = Sees (Shows c f hdu_num (suc i) ttype spec (pos repeat) axes) t file f hdu_num

  -- What a round gives for the column with the number colnum: nothing but a description has changed.
  abbrev Described : ℕ → Store W → ColumnInfo → Store W → Type 0
  Described colnum s ci s' =
      SeesColumn s'
      × (s'.columns t ≡ s.columns t)
      × (colnum ≡ suc i → Lists ttype spec axes (suc i) (some ci))

  init_step :
      (offset : ℤ) (colnum : ℕ) (s : Store W)
      → SeesColumn s
      → Gives (Described colnum s) (init file offset colnum s)
  init_step offset colnum s h =
      let reading = law.described f hdu_num (suc i) ttype spec (pos repeat) axes in
      Gives-intro _ (init file offset colnum) s λ ci e. (
        (init-Keeps (Sees-Watches reading) file offset colnum).at s h,
        ap (λ cols. cols t) ((init-SameColumns file offset colnum).at s refl),
        λ number.
            let e' = subst (λ k. (init file offset k s).0 ≡ ok ci) number e in
            let column =
              subst (λ p. HoldsColumn c p (suc i) ttype spec (pos repeat) axes s.world)
                (sym h.pointer) h.holds.1 in
            Found-Lists ttype spec axes offset (suc i) (init file offset (suc i) s).0 e'
              (init-Found file (suc i) offset ttype spec repeat axes s plain column),
      )

  columns-Sees :
      (cs : List ColumnInfo) (s : Store W) → SeesColumn s → SeesColumn (set_columns t cs s)
  columns-Sees cs s h = record {
    holds = h.holds;
    pointer = h.pointer;
    in_file = h.in_file;
    in_hdu = h.in_hdu;
  }

  -- The loop, from a state with as many columns as rounds were made
  push_columns-Lists :
      (left colnum : ℕ) (offset : ℤ) (s : Store W)
      → colnum ≡ length (s.columns t) + 1
      → SeesColumn s
      → Awaits ttype spec axes i (s.columns t)
      → i < length (s.columns t) + left
      → Gives
          (λ _ s'. Lists ttype spec axes (suc i) (get_elem? (s'.columns t) i))
          (push_columns left t colnum offset s)
  unfolding push_columns
  push_columns-Lists zero colnum offset s number h (inl before) more = absurd (omega arith)
  push_columns-Lists zero colnum offset s number h (inr here) more = pure-Gives _ tt s here
  push_columns-Lists (suc left) colnum offset s number h wait more =
      let self : (t == t) ≡ true = ground arith in
      let round = λ (ci : ColumnInfo) (s' : Store W) (q : Described colnum s ci s').
        let cs = s'.columns t ++ (ci ∷ []) in
        let grown : length cs ≡ length (s.columns t) + 1 =
          rw q.1 (length-append (s.columns t) (ci ∷ [])) in
        let wait' : Awaits ttype spec axes i cs =
          rw q.1 (Awaits-snoc ttype spec axes i (s.columns t) ci wait (λ e. q.2 (omega arith))) in
        gets-Gives _ _ _ s' (
          modify-Gives _ _ _ s' (
            push_columns-Lists left (colnum + 1) (offset +ℤ ci.nbytes) (set_columns t cs s')
              (rw self (omega arith)) (columns-Sees cs s' q.0) (rw self wait')
              (rw self (omega arith)))) in
      gets-Gives _ _ _ s (
        rw h.in_file
          (bind-Gives _ _ (init file offset colnum) _ s (init_step offset colnum s h) round))

  count_step :
      (s : Store W)
      → SeesColumn s
      → Gives (λ n s'. SeesColumn s' × (i < n)) (check (c.get_num_cols f) s)
  unfolding check
  count_step s h =
      let reading = law.described f hdu_num (suc i) ttype spec (pos repeat) axes in
      Gives-intro _ (check (c.get_num_cols f)) s λ n e. (
        (check-Sees (c.get_num_cols f) (reading.quiet.counts f)).at s h,
        ground (arith, law.numbers f (suc i) ttype spec (pos repeat) axes s.world h.holds.1),
      )

  num_columns-SeesColumn :
      (s : Store W) → SeesColumn s → Gives (λ n s'. SeesColumn s' × (i < n)) (num_columns t s)
  unfolding num_columns
  num_columns-SeesColumn s h =
      let reading = law.described f hdu_num (suc i) ttype spec (pos repeat) axes in
      bind-Gives _ _ (set_table_as_chdu t) _ s
        (Keeps-Gives _ s (set_table_as_chdu-Keeps (Sees-Watches reading)) h)
        λ _ s' h'.
          gets-Gives _ _ _ s' (gets-Gives _ _ _ s' (rw (h'.in_file, h'.pointer) (count_step s' h')))

  -- The rest of `refresh`, once `num_columns` has been asked
  list_step :
      (ncols : ℕ) (s : Store W)
      → SeesColumn s × (i < ncols)
      → Gives
          (λ _ s'. Lists ttype spec axes (suc i) (get_elem? (s'.columns t) i))
          ((modify (set_columns t []) >> push_columns ncols t 1 (pos 1)) s)
  list_step ncols s (h, more) =
      let self : (t == t) ≡ true = ground arith in
      modify-Gives _ _ _ s (
        push_columns-Lists ncols 1 (pos 1) (set_columns t [] s) (rw self refl) (columns-Sees [] s h)
          (rw self (inl (omega arith))) (rw self (omega arith)))

  -- `refresh` lists the column.
  pub refresh-Lists :
      (s : Store W)
      → SeesColumn s
      → Gives (λ _ s'. Lists ttype spec axes (suc i) (get_elem? (s'.columns t) i)) (refresh t s)
  unfolding refresh
  refresh-Lists s h =
      let reading = law.described f hdu_num (suc i) ttype spec (pos repeat) axes in
      bind-Gives _ _ (set_table_as_chdu t) _ s
        (Keeps-Gives _ s (set_table_as_chdu-Keeps (Sees-Watches reading)) h)
        λ _ s₁ h₁. gets-Gives _ _ _ s₁ (
          bind-Gives _ _ (hdu_type _) _ s₁
            (Keeps-Gives _ s₁ (hdu_type-Keeps (Sees-Watches reading) _) h₁)
            λ kind s₂ h₂.
              bind-Gives _ _ (throw_if _ _) _ s₂ (Keeps-Gives _ s₂ (Keeps-throw_if _ _) h₂)
                λ _ s₃ h₃.
                  bind-Gives _ _ (hdu_refresh t) _ s₃
                    (Keeps-Gives _ s₃ (hdu_refresh-Keeps (Sees-Watches reading)) h₃)
                    λ _ s₄ h₄.
                      bind-Gives _ _ (num_columns t) _ s₄ (num_columns-SeesColumn s₄ h₄) list_step)
