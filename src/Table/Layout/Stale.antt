-- ===== src/Table/Layout/Stale.antt =====
-- Table::delete_column by name leaves the cached columns as they were (misfits/table.cc).
use misfits.Prelude.{ℕ, zero, suc, ◌≡◌, refl, List}
use misfits.Prelude.Text.{Text}
use misfits.Cfitsio.{Cfitsio}
use misfits.Exception.Keeps.{Keeps}
use misfits.Store.{Store, ColumnInfo}
use misfits.Table.{nth_column, colinfo, colinfo_named, delete_column_named}
use misfits.Table.Layout.Frame.{SameColumns, same_columns, set_as_chdu-SameColumns}

module _ {W : Type 0} ⦃c : Cfitsio W⦄ {columns : ℕ → List ColumnInfo} where
  nth_column-SameColumns :
      (cs : List ColumnInfo) (n : ℕ) → Keeps (SameColumns {W = W} columns) (nth_column cs n)
  nth_column-SameColumns cs zero = search same_columns
  nth_column-SameColumns cs (suc n) = search same_columns

  colinfo-SameColumns : (t n : ℕ) → Keeps (SameColumns {W = W} columns) (colinfo t n)
  unfolding colinfo
  colinfo-SameColumns t n = search (same_columns, nth_column-SameColumns)

  colinfo_named-SameColumns :
      (t : ℕ) (name : Text) → Keeps (SameColumns {W = W} columns) (colinfo_named t name)
  unfolding colinfo_named
  colinfo_named-SameColumns t name =
      search (same_columns, set_as_chdu-SameColumns, colinfo-SameColumns) depth 14

  delete_column_named-SameColumns :
      (t : ℕ) (name : Text) → Keeps (SameColumns {W = W} columns) (delete_column_named t name)
  unfolding delete_column_named
  delete_column_named-SameColumns t name =
      search (same_columns, set_as_chdu-SameColumns, colinfo_named-SameColumns) depth 14

module _ {W : Type 0} ⦃c : Cfitsio W⦄ where
  -- Whatever CFITSIO does, `delete_column( name )` leaves the cached columns of every table as they were: after a
  -- deletion that succeeds the table still lists the column.
  pub delete_column_named_stale :
      (t : ℕ) (name : Text) (s : Store W) → (delete_column_named t name s).1.columns ≡ s.columns
  delete_column_named_stale t name s = (delete_column_named-SameColumns t name).at s refl
