-- ===== src/Table/Layout/Columns.antt =====
-- Every method of Table that changes its columns keeps the columns of all tables laid out, whether it ends or throws
-- (misfits/table.cc).
use misfits.Prelude.{ℕ, zero, suc, List}
use misfits.Prelude.Int.{ℤ}
use misfits.Prelude.Text.{Text}
use misfits.Extent.{Extent}
use misfits.Cfitsio.{Cfitsio}
use misfits.Types.{Native}
use misfits.Store.{Hdu, ColumnInfo}
use misfits.Hdu.{Keyword, has_keyword, set_keyword_string, set_keyword, delete_keyword}
use misfits.ColumnInfo.{insert}
use misfits.Table.{
  num_rows, has_column, colinfo, nth_column, colinfo_named, column_place, add, add_described,
  update_tdim, resize, resize_named, delete_column, delete_column_named,
}
use misfits.Table.Layout.Steps.{KeepsLayout, layout_rules}

module _ {W : Type 0} ⦃c : Cfitsio W⦄ where
  has_keyword-AllLaidOut : (hdu : Hdu) (k : Text) → KeepsLayout {W = W} (has_keyword hdu k)
  unfolding has_keyword
  has_keyword-AllLaidOut hdu k = search layout_rules depth 12

  set_keyword_string-AllLaidOut :
      (hdu : Hdu) (kw : Keyword Text) → KeepsLayout {W = W} (set_keyword_string hdu kw)
  unfolding set_keyword_string
  set_keyword_string-AllLaidOut hdu kw = search layout_rules depth 12

  pub set_keyword-AllLaidOut :
      (T : Native) (hdu : Hdu) (kw : Keyword ℤ) → KeepsLayout {W = W} (set_keyword T hdu kw)
  unfolding set_keyword
  set_keyword-AllLaidOut T hdu kw = search layout_rules depth 12

  delete_keyword-AllLaidOut : (hdu : Hdu) (k : Text) → KeepsLayout {W = W} (delete_keyword hdu k)
  unfolding delete_keyword
  delete_keyword-AllLaidOut hdu k = search layout_rules depth 12

  insert-AllLaidOut : (ci : ColumnInfo) (f : ℕ) → KeepsLayout {W = W} (insert ci f)
  unfolding insert
  insert-AllLaidOut ci f = search layout_rules depth 14

  nth_column-AllLaidOut : (cs : List ColumnInfo) (n : ℕ) → KeepsLayout {W = W} (nth_column cs n)
  nth_column-AllLaidOut cs zero = search layout_rules
  nth_column-AllLaidOut cs (suc n) = search layout_rules

  pub colinfo-AllLaidOut : (t n : ℕ) → KeepsLayout {W = W} (colinfo t n)
  unfolding colinfo
  colinfo-AllLaidOut t n = search (layout_rules, nth_column-AllLaidOut)

  pub colinfo_named-AllLaidOut : (t : ℕ) (name : Text) → KeepsLayout {W = W} (colinfo_named t name)
  unfolding colinfo_named
  colinfo_named-AllLaidOut t name = search (layout_rules, colinfo-AllLaidOut) depth 14

  pub has_column-AllLaidOut : (t : ℕ) (name : Text) → KeepsLayout {W = W} (has_column t name)
  unfolding has_column
  has_column-AllLaidOut t name = search layout_rules depth 14

  pub num_rows-AllLaidOut : (t : ℕ) → KeepsLayout {W = W} (num_rows t)
  unfolding num_rows
  num_rows-AllLaidOut t = search layout_rules depth 14

  column_place-AllLaidOut : (t n : ℕ) → KeepsLayout {W = W} (column_place t n)
  unfolding column_place
  column_place-AllLaidOut t n = search layout_rules depth 12

  pub add-AllLaidOut : (t : ℕ) (ci : ColumnInfo) → KeepsLayout {W = W} (add t ci)
  unfolding add
  add-AllLaidOut t ci = search (layout_rules, column_place-AllLaidOut, insert-AllLaidOut) depth 18

  pub add_described-AllLaidOut :
      (t : ℕ) (ttype : Text) (id : ℤ) (tunit : Text) (e : Extent) (n : ℕ)
      → KeepsLayout {W = W} (add_described t ttype id tunit e n)
  unfolding add_described
  add_described-AllLaidOut t ttype id tunit e n =
      search (layout_rules, column_place-AllLaidOut, insert-AllLaidOut) depth 18

  update_tdim-AllLaidOut :
      (hdu : Hdu) (k : Text) (e : Extent) → KeepsLayout {W = W} (update_tdim hdu k e)
  unfolding update_tdim
  update_tdim-AllLaidOut hdu k e =
      search
        (
          layout_rules, has_keyword-AllLaidOut, set_keyword_string-AllLaidOut,
          delete_keyword-AllLaidOut,
        )
        depth 18

  pub resize-AllLaidOut : (t n : ℕ) (e : Extent) → KeepsLayout {W = W} (resize t n e)
  unfolding resize
  resize-AllLaidOut t n e =
      search (layout_rules, colinfo-AllLaidOut, update_tdim-AllLaidOut) depth 18

  pub resize_named-AllLaidOut :
      (t : ℕ) (name : Text) (e : Extent) → KeepsLayout {W = W} (resize_named t name e)
  unfolding resize_named
  resize_named-AllLaidOut t name e =
      search (layout_rules, colinfo_named-AllLaidOut, resize-AllLaidOut) depth 12

  pub delete_column-AllLaidOut : (t n : ℕ) → KeepsLayout {W = W} (delete_column t n)
  unfolding delete_column
  delete_column-AllLaidOut t n = search layout_rules depth 14

  pub delete_column_named-AllLaidOut :
      (t : ℕ) (name : Text) → KeepsLayout {W = W} (delete_column_named t name)
  unfolding delete_column_named
  delete_column_named-AllLaidOut t name = search (layout_rules, colinfo_named-AllLaidOut) depth 14
