-- ===== src/Table/Deleted.antt =====
-- Table::delete_column( colnum ) (misfits/table.cc) from end to end: the table lists the columns that are left.
use misfits.Prelude.{ℕ, suc, ◌≡◌, refl, true, List, Option, none, some, get_elem?, arith}
use mathlib.Core.Path.{◌∙◌}
use misfits.Prelude.Int.{ℤ, pos}
use misfits.Prelude.Text.{Text}
use misfits.Cfitsio.{Cfitsio}
use misfits.Cfitsio.Laws.{MovesTo}
use misfits.Cfitsio.Columns.{
  is_plain, HoldsColumn, Shows, KeepsDescriptions, DeletesColumns, before_deletion,
}
use misfits.Exception.{Result, ok, throw, out_of_range, or_throw, ◌>>=◌}
use misfits.Exception.Gives.{Gives, bind-Gives, gets-Gives, Gives-intro, outcome-ok}
use misfits.Types.{Spec}
use misfits.Store.{Store, ColumnInfo, fptr, check}
use misfits.Table.{set_table_as_chdu, delete_column, colinfo}
use misfits.Table.Reading.{Sees}
use misfits.Table.Listed.{Lists, refresh-Lists}
use misfits.Table.Added.{IsCurrent, set_table_as_chdu-IsCurrent}

-- The description that an action gives, if it does not throw
abbrev pub description : Result ColumnInfo → Option ColumnInfo
description (ok ci) = some ci
description (throw e) = none

description-or_throw :
    {S : Type 0} (o : Option ColumnInfo) (s : S) → description (or_throw o out_of_range s).0 ≡ o
unfolding or_throw
description-or_throw none s = refl
description-or_throw (some ci) s = refl

module _ {W : Type 0} ⦃c : Cfitsio W⦄ where
  pub description-colinfo :
      (t i : ℕ) (s : Store W)
      → description (colinfo ⦃c = c⦄ t (suc i) s).0 ≡ get_elem? (s.columns t) i
  unfolding colinfo ◌>>=◌
  description-colinfo t i s = description-or_throw (get_elem? (s.columns t) i) s

  delete-Sees :
      DeletesColumns c
      → (t file f n colnum i : ℕ) (ttype : Text) (spec : Spec) (repeat : ℤ) (axes : List ℤ)
        (s : Store W)
      → IsCurrent t file f n s
      → HoldsColumn c f (before_deletion colnum (suc i)) ttype spec repeat axes s.world
      → Gives
          (λ _ s'. Sees (Shows c f n (suc i) ttype spec repeat axes) t file f n s')
          (check (c.delete_col f colnum) s)
  unfolding check
  delete-Sees law t file f n colnum i ttype spec repeat axes s current holds =
      Gives-intro _ (check (c.delete_col f colnum)) s λ _ e.
        let kept = law f colnum i ttype spec repeat axes s.world (ground arith) holds in
        record {
          holds = (kept.0 ∙ current.holds, kept.1);
          pointer = current.pointer;
          in_file = current.in_file;
          in_hdu = current.in_hdu;
        }

  delete_column-Lists :
      KeepsDescriptions c
      → DeletesColumns c
      → (t file f n colnum i : ℕ) (ttype : Text) (spec : Spec) (repeat : ℕ) (axes : List ℤ)
        (s s₁ : Store W)
      → is_plain spec ≡ true
      → set_table_as_chdu t s ≡ (ok tt, s₁)
      → IsCurrent t file f n s₁
      → HoldsColumn c f (before_deletion colnum (suc i)) ttype spec (pos repeat) axes s₁.world
      → Gives
          (λ _ s'. Lists ttype spec axes (suc i) (get_elem? (s'.columns t) i))
          (delete_column t colnum s)
  unfolding delete_column
  delete_column-Lists keeps law t file f n colnum i ttype spec repeat axes s s₁ plain moved current
        holds =
      let column =
        delete-Sees law t file f n colnum i ttype spec (pos repeat) axes s₁ current holds in
      bind-Gives (λ _ u₁. u₁ ≡ s₁) _ (set_table_as_chdu t) _ s (rw moved refl)
        λ _ u₁ e₁. gets-Gives _ _ _ u₁ (
          gets-Gives _ _ _ u₁ (
            bind-Gives _ _ (check (c.delete_col _ colnum)) _ u₁
              (rw (e₁, current.in_file, current.pointer) column)
              λ _ u₂ h₂. refresh-Lists keeps t file f n i ttype spec plain repeat axes u₂ h₂))

  -- If CFITSIO moves to the HDU that it is told to, deletes columns as documented and keeps their descriptions while
  -- they are read, then after a `delete_column( colnum )` that does not throw, `colinfo` gives for a number the
  -- description of the column that had it before, if that number is below colnum, or of the one that had the number
  -- above it, else; for columns of numbers (but unsigned ones) and bits.
  pub delete_column_lem :
      MovesTo c
      → KeepsDescriptions c
      → DeletesColumns c
      → (t colnum i : ℕ) (ttype : Text) (spec : Spec) (repeat : ℕ) (axes : List ℤ) (s s₁ : Store W)
      → is_plain spec ≡ true
      → set_table_as_chdu t s ≡ (ok tt, s₁)
      → HoldsColumn c
          (fptr (s.hdus t).file s)
          (before_deletion colnum (suc i))
          ttype
          spec
          (pos repeat)
          axes
          s₁.world
      → let (r, s') = delete_column t colnum s in
        r ≡ ok tt → Lists ttype spec axes (suc i) (description (colinfo t (suc i) s').0)
  delete_column_lem moves keeps law t colnum i ttype spec repeat axes s s₁ plain moved holds done =
      let hdu = s.hdus t in
      let f = fptr hdu.file s in
      let s' = (delete_column t colnum s).1 in
      let current = set_table_as_chdu-IsCurrent moves t s s₁ moved in
      let lists =
        delete_column-Lists keeps law t hdu.file f hdu.hdu_num colnum i ttype spec repeat axes s s₁
          plain moved current holds in
      rw (description-colinfo t i s') (outcome-ok _ (delete_column t colnum s).0 s' lists done)
