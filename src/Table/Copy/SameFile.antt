-- ===== src/Table/Copy/SameFile.antt =====
-- Table::copy_columns (misfits/table.cc) between two tables of one file.
use misfits.Prelude.{ℕ, ◌≡◌, refl, sym, ap, ◌∙◌, List, [], ◌∷◌, zero, suc, false}
use misfits.Cfitsio.{⊤, Call, Cfitsio}
use misfits.Prelude.Text.{Text}
use misfits.Exception.{Result, ok, throw, Action, after, gets, ◌>>=◌, ◌>>◌}
use misfits.Exception.Keeps.{Keeps, keeps_rules}
use misfits.Store.{Store, Hdu, ColumnInfo, check, fptr}
use misfits.Hdu.{set_as_chdu}
use misfits.File.{move_to}
use misfits.Table.{colinfo_named, colinfo, nth_column}
use misfits.Table.Copy.{copy_cells}

-- An action that leaves the HDU objects alone
abbrev SameHdus : {W : Type 0} → (ℕ → Hdu) → Store W → Type 0
SameHdus hdus s = s.hdus ≡ hdus

module _ {W A B : Type 0} where
  after-ext :
      (f g : A → Action (Store W) B) (r : Result A) (s : Store W)
      → ((a : A) → f a s ≡ g a s)
      → after f (r, s) ≡ after g (r, s)
  after-ext f g (ok a) s e = e a
  after-ext f g (throw x) s e = refl

  bind-ext :
      (m : Action (Store W) A) (f g : A → Action (Store W) B) (s : Store W)
      → ((a : A) → f a (m s).1 ≡ g a (m s).1)
      → (m >>= f) s ≡ (m >>= g) s
  unfolding ◌>>=◌
  bind-ext m f g s e = let (r, s') = m s in after-ext f g r s' e

module _ {W : Type 0} {hdus : ℕ → Hdu} where
  check-SameHdus : {A : Type 0} (f : Call W A) → Keeps (SameHdus {W = W} hdus) (check f)
  unfolding check
  check-SameHdus f = record { at = λ s h. h }

module _ {W : Type 0} ⦃c : Cfitsio W⦄ {hdus : ℕ → Hdu} where
  set_as_chdu-SameHdus : (hdu : Hdu) → Keeps (SameHdus {W = W} hdus) (set_as_chdu hdu)
  unfolding set_as_chdu move_to
  set_as_chdu-SameHdus hdu = search (keeps_rules, check-SameHdus) depth 12

  nth_column-SameHdus :
      (cs : List ColumnInfo) (n : ℕ) → Keeps (SameHdus {W = W} hdus) (nth_column cs n)
  nth_column-SameHdus cs zero = search keeps_rules
  nth_column-SameHdus cs (suc n) = search keeps_rules

  colinfo-SameHdus : (t n : ℕ) → Keeps (SameHdus {W = W} hdus) (colinfo ⦃c = c⦄ t n)
  unfolding colinfo
  colinfo-SameHdus t n = search (keeps_rules, nth_column-SameHdus)

  colinfo_named-SameHdus :
      (t : ℕ) (name : Text) → Keeps (SameHdus {W = W} hdus) (colinfo_named t name)
  unfolding colinfo_named
  colinfo_named-SameHdus t name =
      search (keeps_rules, check-SameHdus, set_as_chdu-SameHdus, colinfo-SameHdus) depth 14

module _ {S A B : Type 0} where
  gets_at : (g : S → A) (next : A → Action S B) (s : S) → (gets g >>= next) s ≡ next (g s) s
  unfolding gets ◌>>=◌
  gets_at g next s = refl

module _ {W : Type 0} ⦃c : Cfitsio W⦄ where
  -- A round of the loop, and what follows, with the pointers that it takes from the two files
  abbrev copy_rest : ℕ → ℕ → ℕ → ℕ → ColumnInfo → List ColumnInfo → Action (Store W) ⊤
  copy_rest from to src dest ci cis = do
    info ← colinfo_named dest ci.ttype
    check (c.copy_col from to ci.colnum info.colnum false)
    copy_cells src dest cis

  -- If two tables are of one file, the loop of `copy_columns` that copies the cells does what it would do if the
  -- destination were its own source: the table that is to be copied from plays no part, and a column is copied within
  -- the destination.
  pub copy_cells_same_file :
      (src dest : ℕ) (cis : List ColumnInfo) (s : Store W)
      → (s.hdus src).file ≡ (s.hdus dest).file
      → copy_cells src dest cis s ≡ copy_cells dest dest cis s
  unfolding copy_cells
  copy_cells_same_file src dest [] s e = refl
  copy_cells_same_file src dest (ci ∷ cis) s e =
      let to = fptr (s.hdus dest).file s in
      let s₁ = (colinfo_named dest ci.ttype s).1 in
      let same₁ : s₁.hdus ≡ s.hdus = (colinfo_named-SameHdus dest ci.ttype).at s refl in
      let one : copy_rest to to src dest ci cis s ≡ copy_rest to to dest dest ci cis s =
        bind-ext (colinfo_named dest ci.ttype) _ _ s λ info.
          let m = check (c.copy_col to to ci.colnum info.colnum false) in
          let same₂ : (m s₁).1.hdus ≡ s.hdus = (check-SameHdus _).at s₁ same₁ in
          bind-ext m _ _ s₁ λ _. copy_cells_same_file src dest cis (m s₁).1 (rw same₂ e) in
      gets_at _ _ s
      ∙ gets_at _ _ s
      ∙ ap (λ file. copy_rest (fptr file s) to src dest ci cis s) e
      ∙ one
      ∙ sym (gets_at _ _ s ∙ gets_at _ _ s)
