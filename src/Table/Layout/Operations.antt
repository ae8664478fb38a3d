-- ===== src/Table/Layout/Operations.antt =====
-- A client of class Table calls its methods and constructors (misfits/table.hpp) in any order; what holds of
-- the cached columns all the time.
use misfits.Prelude.{ℕ, List, [], ◌∷◌}
use misfits.Prelude.Int.{ℤ}
use misfits.Prelude.Text.{Text}
use misfits.Extent.{Extent}
use misfits.Cfitsio.{⊤, Cfitsio}
use misfits.Exception.{Action, pure, ◌>>◌}
use misfits.Store.{Store, ColumnInfo}
use misfits.Table.{
  refresh, add, add_described, resize, resize_named, delete_column, delete_column_named, table_at,
  table_named, table_in_memory,
}
use misfits.Table.Copy.{TableCopy, copy_columns, copy_all_columns, copy}
use misfits.Table.Layout.{AllLaidOut}
use misfits.Table.Layout.Steps.{KeepsLayout, layout_rules, refresh-AllLaidOut}
use misfits.Table.Layout.Columns.{
  add-AllLaidOut, add_described-AllLaidOut, resize-AllLaidOut, resize_named-AllLaidOut,
  delete_column-AllLaidOut, delete_column_named-AllLaidOut,
}
use misfits.Table.Layout.Copying.{
  copy_columns-AllLaidOut, copy_all_columns-AllLaidOut, copy-AllLaidOut, table_at-AllLaidOut,
  table_named-AllLaidOut, table_in_memory-AllLaidOut,
}

-- A call that may change the columns of a table, or make a table. A table or a file that takes part is
-- given by its address.
pub data TableCall : Type 0 where
  add_column : ColumnInfo → TableCall
  add_new : Text → ℤ → Text → Extent → ℕ → TableCall
  resize_column : ℕ → Extent → TableCall
  resize_column_named : Text → Extent → TableCall
  delete_nth : ℕ → TableCall
  delete_named : Text → TableCall
  copy_to : ℕ → List Text → ℕ → TableCall
  copy_all_to : ℕ → ℕ → TableCall
  copy_table : ℕ → TableCopy → ℕ → TableCall
  make_table : ℕ → ℕ → TableCall
  make_table_named : ℕ → Text → ℤ → TableCall
  make_in_memory : Text → ℤ → TableCall
  refresh_all : TableCall

module _ {W : Type 0} ⦃c : Cfitsio W⦄ where
  unfoldable pub make_call : ℕ → TableCall → Action (Store W) ⊤
  make_call t (add_column ci) = add t ci
  make_call t (add_new ttype id tunit e n) = add_described t ttype id tunit e n
  make_call t (resize_column n e) = resize t n e
  make_call t (resize_column_named name e) = resize_named t name e
  make_call t (delete_nth n) = delete_column t n
  make_call t (delete_named name) = delete_column_named t name
  make_call t (copy_to dest names how) = copy_columns t dest names how
  make_call t (copy_all_to dest how) = copy_all_columns t dest how
  make_call t (copy_table ofile what morekeys) = copy t ofile what morekeys >> pure tt
  make_call t (make_table file hdu_num) = table_at file hdu_num >> pure tt
  make_call t (make_table_named file extname extver) = table_named file extname extver >> pure tt
  make_call t (make_in_memory extname extver) = table_in_memory extname extver >> pure tt
  make_call t refresh_all = refresh t

  make_call-AllLaidOut : (t : ℕ) (call : TableCall) → KeepsLayout {W = W} (make_call t call)
  unfolding make_call
  make_call-AllLaidOut t (add_column ci) = add-AllLaidOut t ci
  make_call-AllLaidOut t (add_new ttype id tunit e n) =
      add_described-AllLaidOut t ttype id tunit e n
  make_call-AllLaidOut t (resize_column n e) = resize-AllLaidOut t n e
  make_call-AllLaidOut t (resize_column_named name e) = resize_named-AllLaidOut t name e
  make_call-AllLaidOut t (delete_nth n) = delete_column-AllLaidOut t n
  make_call-AllLaidOut t (delete_named name) = delete_column_named-AllLaidOut t name
  make_call-AllLaidOut t (copy_to dest names how) = copy_columns-AllLaidOut t dest names how
  make_call-AllLaidOut t (copy_all_to dest how) = copy_all_columns-AllLaidOut t dest how
  make_call-AllLaidOut t (copy_table ofile what morekeys) = search (layout_rules, copy-AllLaidOut)
  make_call-AllLaidOut t (make_table file hdu_num) = search (layout_rules, table_at-AllLaidOut)
  make_call-AllLaidOut t (make_table_named file extname extver) =
      search (layout_rules, table_named-AllLaidOut)
  make_call-AllLaidOut t (make_in_memory extname extver) =
      search (layout_rules, table_in_memory-AllLaidOut)
  make_call-AllLaidOut t refresh_all = refresh-AllLaidOut t

  -- A client that calls methods of any tables in turn, and goes on after one has thrown
  unfoldable pub make_calls : List (ℕ × TableCall) → Store W → Store W
  make_calls [] s = s
  make_calls ((t, call) ∷ calls) s = make_calls calls (make_call t call s).1

  -- From a state whose tables are laid out, and whatever methods and constructors of tables a client calls, in whatever
  -- order, and whichever of the calls throw, the cached columns of every table are numbered from one, and each
  -- starts where the one before it ends.
  pub make_calls-AllLaidOut :
      (calls : List (ℕ × TableCall)) (s : Store W) → AllLaidOut s → AllLaidOut (make_calls calls s)
  unfolding make_calls
  make_calls-AllLaidOut [] s h = h
  make_calls-AllLaidOut ((t, call) ∷ calls) s h =
      make_calls-AllLaidOut calls (make_call t call s).1 ((make_call-AllLaidOut t call).at s h)
