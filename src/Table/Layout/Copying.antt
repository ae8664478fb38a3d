-- ===== src/Table/Layout/Copying.antt =====
-- Copying columns into a table, and making tables, keeps the columns of all tables laid out (misfits/table.cc).
use misfits.Prelude.{ℕ, false, zero, suc, List, [], ◌∷◌}
use misfits.Prelude.Int.{ℤ}
use misfits.Prelude.Text.{Text}
use misfits.Cfitsio.{Cfitsio}
use misfits.Exception.Keeps.{Keeps-bind, Keeps-gets}
use misfits.Exception.{gets}
use misfits.Store.{ColumnInfo, fptr, check}
use misfits.File
use misfits.File.{move_to_name, open_file, open_memory, open_fits}
use misfits.Hdu.{hdu_at, hdu_named, hdu_in_memory}
use misfits.Table.{colinfo_named, table_at, table_named, table_in_memory}
use misfits.Table.Copy.{
  CopyPlan, plan_existing, plan_column, plan_columns, insert_planned, extend_rows, copy_cells,
  copy_columns, all_names, copy_all_columns, copy, TableCopy, hdu, header,
}
use misfits.Table.Layout.Steps.{KeepsLayout, check-AllLaidOut, layout_rules}
use misfits.Table.Layout.Columns.{
  has_column-AllLaidOut, colinfo-AllLaidOut, colinfo_named-AllLaidOut,
  delete_column_named-AllLaidOut, num_rows-AllLaidOut, set_keyword-AllLaidOut,
}

module _ {W : Type 0} ⦃c : Cfitsio W⦄ where
  plan_existing-AllLaidOut :
      (dest how : ℕ) (name : Text) (ci : ColumnInfo) (plan : CopyPlan)
      → KeepsLayout {W = W} (plan_existing dest how name ci plan)
  unfolding plan_existing
  plan_existing-AllLaidOut dest how name ci plan =
      search (layout_rules, delete_column_named-AllLaidOut) depth 18

  plan_column-AllLaidOut :
      (src dest how : ℕ) (name : Text) (plan : CopyPlan)
      → KeepsLayout {W = W} (plan_column src dest how name plan)
  unfolding plan_column
  plan_column-AllLaidOut src dest how name plan =
      search
        (layout_rules, has_column-AllLaidOut, colinfo_named-AllLaidOut, plan_existing-AllLaidOut)
        depth 18

  plan_columns-AllLaidOut :
      (src dest how : ℕ) (names : List Text) (plan : CopyPlan)
      → KeepsLayout {W = W} (plan_columns src dest how names plan)
  unfolding plan_columns
  plan_columns-AllLaidOut src dest how [] plan = search layout_rules
  plan_columns-AllLaidOut src dest how (name ∷ names) plan =
      search (layout_rules, plan_column-AllLaidOut, plan_columns-AllLaidOut src dest how names)
        depth 12

  insert_planned-AllLaidOut :
      (dest : ℕ) (plan : CopyPlan) → KeepsLayout {W = W} (insert_planned dest plan)
  unfolding insert_planned
  insert_planned-AllLaidOut dest plan = search layout_rules depth 18

  pub extend_rows-AllLaidOut : (src dest how : ℕ) → KeepsLayout {W = W} (extend_rows src dest how)
  unfolding extend_rows
  extend_rows-AllLaidOut src dest how = search (layout_rules, num_rows-AllLaidOut) depth 24

  copy_cells-AllLaidOut :
      (src dest : ℕ) (cis : List ColumnInfo) → KeepsLayout {W = W} (copy_cells src dest cis)
  unfolding copy_cells
  copy_cells-AllLaidOut src dest [] = search layout_rules
  copy_cells-AllLaidOut src dest (ci ∷ cis) =
      Keeps-bind (gets (λ s. fptr (s.hdus src).file s)) _ (Keeps-gets _) (λ from.
        Keeps-bind (gets (λ s. fptr (s.hdus dest).file s)) _ (Keeps-gets _) (λ to.
          Keeps-bind (colinfo_named dest ci.ttype) _ (colinfo_named-AllLaidOut dest ci.ttype)
            (λ info.
              Keeps-bind (check (c.copy_col from to ci.colnum info.colnum false)) _
                (check-AllLaidOut _) (λ _. copy_cells-AllLaidOut src dest cis))))

  pub copy_columns-AllLaidOut :
      (src dest : ℕ) (names : List Text) (how : ℕ)
      → KeepsLayout {W = W} (copy_columns src dest names how)
  unfolding copy_columns
  copy_columns-AllLaidOut src dest [] how = search layout_rules
  copy_columns-AllLaidOut src dest (name ∷ names) how =
      search
        (
          layout_rules, plan_columns-AllLaidOut, insert_planned-AllLaidOut, extend_rows-AllLaidOut,
          copy_cells-AllLaidOut,
        )
        depth 20

  all_names-AllLaidOut :
      (fuel src idx : ℕ) (names : List Text) → KeepsLayout {W = W} (all_names fuel src idx names)
  unfolding all_names
  all_names-AllLaidOut zero src idx names = search layout_rules
  all_names-AllLaidOut (suc fuel) src idx names =
      search (layout_rules, colinfo-AllLaidOut, all_names-AllLaidOut fuel src) depth 14

  pub copy_all_columns-AllLaidOut :
      (src dest how : ℕ) → KeepsLayout {W = W} (copy_all_columns src dest how)
  unfolding copy_all_columns
  copy_all_columns-AllLaidOut src dest how =
      search (layout_rules, all_names-AllLaidOut, copy_columns-AllLaidOut) depth 12

  hdu_at-AllLaidOut : (file n : ℕ) → KeepsLayout {W = W} (hdu_at file n)
  unfolding hdu_at
  hdu_at-AllLaidOut file n = search layout_rules depth 12

  pub table_at-AllLaidOut : (file n : ℕ) → KeepsLayout {W = W} (table_at file n)
  unfolding table_at
  table_at-AllLaidOut file n = search (layout_rules, hdu_at-AllLaidOut) depth 12

  hdu_named-AllLaidOut :
      (file : ℕ) (name : Text) (ver : ℤ) → KeepsLayout {W = W} (hdu_named file name ver)
  unfolding hdu_named move_to_name
  hdu_named-AllLaidOut file name ver = search layout_rules depth 18

  pub table_named-AllLaidOut :
      (file : ℕ) (name : Text) (ver : ℤ) → KeepsLayout {W = W} (table_named file name ver)
  unfolding table_named
  table_named-AllLaidOut file name ver = search (layout_rules, hdu_named-AllLaidOut) depth 12

  file_copy-AllLaidOut :
      (f outfile what more : ℕ) → KeepsLayout {W = W} (File.copy f outfile what more)
  unfolding File.copy
  file_copy-AllLaidOut f outfile what more = search layout_rules depth 12

  pub copy-AllLaidOut :
      (t ofile : ℕ) (what : TableCopy) (more : ℕ) → KeepsLayout {W = W} (copy t ofile what more)
  unfolding copy
  copy-AllLaidOut t ofile header more =
      search (layout_rules, file_copy-AllLaidOut, table_at-AllLaidOut) depth 14
  copy-AllLaidOut t ofile hdu more =
      search (layout_rules, file_copy-AllLaidOut, table_at-AllLaidOut) depth 14

  open_memory-AllLaidOut : KeepsLayout {W = W} open_memory
  unfolding open_memory open_file open_fits
  open_memory-AllLaidOut = search layout_rules depth 12

  pub table_in_memory-AllLaidOut :
      (name : Text) (ver : ℤ) → KeepsLayout {W = W} (table_in_memory name ver)
  unfolding table_in_memory hdu_in_memory
  table_in_memory-AllLaidOut name ver =
      search (layout_rules, open_memory-AllLaidOut, set_keyword-AllLaidOut) depth 24
