-- ===== src/Table/Copy/Round.antt =====
-- One round of the loop of Table::copy_columns (misfits/table.cc) that copies the cells.
use misfits.Prelude.{
  ℕ, ◌≡◌, refl, zero, suc, arith, false, true, ◌-◌, Option, none, some, get_elem?,
}
use misfits.Prelude.{inl, inr}
use misfits.Prelude.Text.{Text}
use misfits.Cfitsio.{⊤, Cfitsio}
use misfits.Cfitsio.Copying.{Names}
use misfits.Exception.{Exception, or_throw, out_of_range, Result-cases, ok, Action, ◌>>=◌}
use misfits.Cfitsio.Columns.{Leaves}
use misfits.Store.{Store, ColumnInfo, check, call, fptr}
use misfits.Hdu.{set_as_chdu}
use misfits.File.{move_to}
use misfits.Table.{colinfo_named, colinfo, has_column}
use misfits.Table.Layout.{AllLaidOut}
use misfits.Table.Layout.Bytes.{colinfo_laid}

or_throw_still : {S A : Type 0} (o : Option A) (e : Exception) (s : S) → (or_throw o e s).1 ≡ s
unfolding or_throw
or_throw_still none e s = refl
or_throw_still (some a) e s = refl

module _ {W : Type 0} ⦃c : Cfitsio W⦄ where
  colinfo_still : (t n : ℕ) (s : Store W) → (colinfo ⦃c = c⦄ t n s).1 ≡ s
  unfolding colinfo ◌>>=◌
  colinfo_still t zero s = refl
  colinfo_still t (suc n) s = or_throw_still (get_elem? (s.columns t) n) out_of_range s

  colinfo_elem :
      (t n : ℕ) (s : Store W) {ci : ColumnInfo}
      → (colinfo ⦃c = c⦄ t n s).0 ≡ ok ci
      → get_elem? (s.columns t) (n - 1) ≡ some ci
  unfolding colinfo or_throw ◌>>=◌
  colinfo_elem t zero s h = cc
  colinfo_elem t (suc n) s h = ground arith

  -- The description that is found by a name is the one with the number that CFITSIO finds, and nothing else has changed.
  pub colinfo_named_found :
      (t g k : ℕ) (name : Text) (s : Store W) {info : ColumnInfo}
      → AllLaidOut s
      → fptr (s.hdus t).file s ≡ g
      → c.get_hdu_num g s.world ≡ (s.hdus t).hdu_num
      → Names c g name k s.world
      → (colinfo_named t name s).0 ≡ ok info
      → (info.colnum ≡ k)
        × (get_elem? (s.columns t) (k - 1) ≡ some info)
        × ((colinfo_named t name s).1 ≡ record s { world = (c.get_colnum g false name s.world).2 })
  unfolding colinfo_named set_as_chdu move_to check ◌>>=◌
  colinfo_named_found t g k name s {info} laid pointer here named h =
      let s' : Store W = record s { world = (c.get_colnum g false name s.world).2 } in
      let laid' : AllLaidOut s' = record { at_table = laid.at_table } in
      ground (
        arith,
        colinfo_laid t k s' {ci = info} laid',
        colinfo_still t k s',
        colinfo_elem t k s' {ci = info},
      )

  -- A column that CFITSIO finds by its name is there, and nothing else has changed.
  pub has_column_found :
      (t g k : ℕ) (name : Text) (s : Store W)
      → fptr (s.hdus t).file s ≡ g
      → c.get_hdu_num g s.world ≡ (s.hdus t).hdu_num
      → Names c g name k s.world
      → has_column t name s ≡ (ok true, record s { world = (c.get_colnum g false name s.world).2 })
  unfolding has_column set_as_chdu move_to call ◌>>=◌
  has_column_found t g k name s pointer here named = ground arith

-- A round of the loop: the column that is found by its name is copied over.
module _ {W : Type 0} ⦃c : Cfitsio W⦄ where
  abbrev pub copy_one : ℕ → ℕ → ℕ → ColumnInfo → Action (Store W) ⊤
  copy_one from to dest ci = do
    info ← colinfo_named dest ci.ttype
    check (c.copy_col from to ci.colnum info.colnum false)

  pub copy_one_found :
      (f g dest k : ℕ) (ci : ColumnInfo) (s : Store W)
      → AllLaidOut s
      → fptr (s.hdus dest).file s ≡ g
      → c.get_hdu_num g s.world ≡ (s.hdus dest).hdu_num
      → Names c g ci.ttype k s.world
      → let w₁ = (c.get_colnum g false ci.ttype s.world).2 in
        let (status, _, w₂) = c.copy_col f g ci.colnum k false w₁ in
        (copy_one f g dest ci s).0 ≡ ok tt
        → (status ≡ 0) × ((copy_one f g dest ci s).1 ≡ record s { world = w₂ })
  unfolding check ◌>>=◌
  copy_one_found f g dest k ci s laid pointer here named h =
      elim (Result-cases (colinfo_named dest ci.ttype s).0) [
        | inl (info, e) ↦
            ground (
              arith,
              colinfo_named_found dest g k ci.ttype s {info = info} laid pointer here named e,
            )
        | inr (x, e) ↦ absurd (ground arith)
      ]

module _ {W : Type 0} ⦃c : Cfitsio W⦄ (src dest f g : ℕ) where
  -- The pointers of the files are f and g, the destination's HDU is the current one of its file, and P holds of
  -- CFITSIO's state.
  pub record Between (P : W → Type 0) (s : Store W) : Type 0 where
    pub from : fptr (s.hdus src).file s ≡ f
    pub to : fptr (s.hdus dest).file s ≡ g
    pub laid : AllLaidOut s
    pub here : c.get_hdu_num g s.world ≡ (s.hdus dest).hdu_num
    pub holds : P s.world

  pub Between-weaken :
      (P Q : W → Type 0) (s : Store W) → ((w : W) → P w → Q w) → Between P s → Between Q s
  Between-weaken P Q s f h = record {
    from = h.from;
    to = h.to;
    laid = h.laid;
    here = h.here;
    holds = f s.world h.holds;
  }

module _ {W : Type 0} ⦃c : Cfitsio W⦄ (f g : ℕ) where
  -- Neither finding a column nor copying over the column k breaks R.
  pub record Steady (k : ℕ) (R : W → Type 0) : Type 0 where
    pub finds : (name : Text) → Leaves R (c.get_colnum g false name)
    pub copies :
        (n : ℕ) (w : W)
        → let (status, _, w') = c.copy_col f g n k false w in status ≡ 0 → R w → R w'
