-- ===== src/Table/Copy.antt =====
-- Copying columns and tables: Table::copy_columns, Table::copy (misfits/table.cc), and File::add and the
-- functions of File that make objects (misfits/fits.cc). The two tables of a copy may be the same object,
-- or two objects on one file.
pub mod Checks
pub mod Names
pub mod Flags
pub mod SameFile
pub mod Pair
pub mod Round
pub mod Planned
pub mod Extended
pub mod Copied
pub mod OverWrite
use Prim.Native.Nat.{bit_and}
use misfits.Prelude.{
  ℕ, zero, suc, ◌+◌, ◌-◌, Bool, true, false, not, ◌&&◌, ◌||◌, List, [], ◌∷◌, ◌++◌, ltb, ◌==◌,
  length, if◌then◌else◌,
}
use misfits.Prelude.Int.{ℤ}
use misfits.Prelude.Text.{Text, text}
use misfits.Cfitsio.{⊤, Cfitsio}
use misfits.Exception.{assert, undefined, Action, pure, raise, gets, ◌>>=◌, ◌>>◌, throw_if}
use misfits.Types.FileCopy
use misfits.Store.{Store, ColumnInfo, check, fptr}
use misfits.File
use misfits.Hdu.{hdu_at, hdu_named, set_as_chdu}
use misfits.ColumnInfo.{tform}
use misfits.Table.{
  set_table_as_chdu, num_columns, num_rows, has_column, colinfo, colinfo_named, delete_column_named,
  refresh, table_at, table_named,
}
use misfits.Table.Copy.Flags

-- The three vectors that `copy_columns` fills, in the order of the names
pub record CopyPlan : Type 0 where
  pub src_ci : List ColumnInfo
  pub dest_ttype : List Text
  pub dest_tform : List Text

abbrev pub no_plan : CopyPlan
no_plan = record { src_ci = []; dest_ttype = []; dest_tform = [] }

-- A column that is there already, and one that is to be created as well
abbrev pub planned : ColumnInfo → CopyPlan → CopyPlan
planned ci plan = record plan { src_ci = plan.src_ci ++ (ci ∷ []) }

abbrev pub planned_new : ColumnInfo → CopyPlan → CopyPlan
planned_new ci plan = record {
  src_ci = plan.src_ci ++ (ci ∷ []);
  dest_ttype = plan.dest_ttype ++ (ci.ttype ∷ []);
  dest_tform = plan.dest_tform ++ (tform ci ∷ []);
}

-- enum TableCopy
pub data TableCopy : Type 0 where
  hdu header : TableCopy

module _ {W : Type 0} ⦃c : Cfitsio W⦄ where
  -- The switch over `how`, for a column that the destination has
  unfoldable pub plan_existing : ℕ → ℕ → Text → ColumnInfo → CopyPlan → Action (Store W) CopyPlan
  plan_existing dest how name ci plan =
      let replace = delete_column_named dest name >> pure (planned_new ci plan) in
      if bit_and how Flags.flag_mask == Flags.no_duplicates
      then raise
          (assert (text "destination table already has a column named '" ++ (name ++ text "'")))
      else if bit_and how Flags.flag_mask == Flags.replace
      then replace
      else if bit_and how Flags.flag_mask == Flags.over_write
      then pure (planned ci plan)
      else raise (assert (text "uknown misFITS::ColumnCopy flag"))

  -- The body of the first loop
  unfoldable pub plan_column : ℕ → ℕ → ℕ → Text → CopyPlan → Action (Store W) CopyPlan
  plan_column src dest how name plan = do
    found ← has_column src name
    throw_if (not found) (assert (text "request to copy a non-existent column: " ++ name))
    ci ← colinfo_named src name
    there ← has_column dest name
    if there then plan_existing dest how name ci plan else pure (planned_new ci plan)

  unfoldable pub plan_columns : ℕ → ℕ → ℕ → List Text → CopyPlan → Action (Store W) CopyPlan
  plan_columns src dest how [] plan = pure plan
  plan_columns src dest how (name ∷ names) plan = do
    plan' ← plan_column src dest how name plan
    plan_columns src dest how names plan'

  -- `insert the new (or replaced) columns`, behind the last one
  unfoldable pub insert_planned : ℕ → CopyPlan → Action (Store W) ⊤
  insert_planned dest plan = do
    file ← gets (λ s. (s.hdus dest).file)
    fitsptr ← gets (fptr file)
    let create = do
      last ← num_columns dest
      check (
          c.insert_cols fitsptr (last + 1) (length plan.dest_ttype) plan.dest_ttype plan.dest_tform)
    if ltb 0 (length plan.dest_ttype) then create else pure tt

  -- The rows that the destination lacks. The arguments of fits_insert_rows are evaluated from the left.
  unfoldable pub extend_rows : ℕ → ℕ → ℕ → Action (Store W) ⊤
  extend_rows src dest how = do
    wanted ← num_rows src
    there ← num_rows dest
    let append = do
      file ← gets (λ s. (s.hdus dest).file)
      fitsptr ← gets (fptr file)
      first ← num_rows dest
      all ← num_rows src
      old ← num_rows dest
      check (c.insert_rows fitsptr first (all - old))
    let if_empty = do old ← num_rows dest; if old == 0 then append else pure tt
    let by_flag =
        if ltb 0 (bit_and how Flags.extend_table)
        then append
        else if ltb 0 (bit_and how Flags.extend_table_if_empty)
        then if_empty
        else pure tt
    if ltb there wanted then by_flag else pure tt

  -- The last loop: one fits_copy_col for each column
  unfoldable pub copy_cells : ℕ → ℕ → List ColumnInfo → Action (Store W) ⊤
  copy_cells src dest [] = pure tt
  copy_cells src dest (ci ∷ cis) = do
    from ← gets (λ s. fptr (s.hdus src).file s)
    to ← gets (λ s. fptr (s.hdus dest).file s)
    info ← colinfo_named dest ci.ttype
    check (c.copy_col from to ci.colnum info.colnum false)
    copy_cells src dest cis

  -- `copy_columns( dest, names, how )`
  unfoldable pub copy_columns : ℕ → ℕ → List Text → ℕ → Action (Store W) ⊤
  copy_columns src dest [] how = pure tt
  copy_columns src dest (name ∷ names) how = do
    set_table_as_chdu src
    set_table_as_chdu dest
    plan ← plan_columns src dest how (name ∷ names) no_plan
    insert_planned dest plan
    extend_rows src dest how
    refresh dest
    copy_cells src dest plan.src_ci

  -- `copy_column( dest, name, how )`
  unfoldable pub copy_column : ℕ → ℕ → Text → ℕ → Action (Store W) ⊤
  copy_column src dest name how = copy_columns src dest (name ∷ []) how

  -- The loop of `copy_columns( dest, how )`, over the columns that are left: it asks for the number of
  -- columns in every round. The fuel is the number of cached columns and one, since `colinfo` throws past them.
  unfoldable pub all_names : ℕ → ℕ → ℕ → List Text → Action (Store W) (List Text)
  all_names zero src idx names = raise undefined
  all_names (suc fuel) src idx names = do
    n ← num_columns src
    let more = do ci ← colinfo src idx; all_names fuel src (idx + 1) (names ++ (ci.ttype ∷ []))
    if ltb n idx then pure names else more

  unfoldable pub copy_all_columns : ℕ → ℕ → ℕ → Action (Store W) ⊤
  copy_all_columns src dest how = do
    cached ← gets (λ s. s.columns src)
    names ← all_names (length cached + 1) src 1 []
    copy_columns src dest names how

  -- `Table::copy`: the new object stands for the HDU that is then current in the other file.
  unfoldable pub copy : ℕ → ℕ → TableCopy → ℕ → Action (Store W) ℕ
  copy t ofile header morekeys = do
    set_table_as_chdu t
    file ← gets (λ s. (s.hdus t).file)
    File.copy file ofile FileCopy.current_header 0
    table_at ofile 0
  copy t ofile hdu morekeys = do
    set_table_as_chdu t
    file ← gets (λ s. (s.hdus t).file)
    File.copy file ofile FileCopy.current_hdu morekeys
    table_at ofile 0

  -- File::add( table )
  unfoldable pub file_add : ℕ → ℕ → Action (Store W) ℕ
  file_add file t = copy t file hdu 0

  -- File::hdu and File::table, by number and by name
  abbrev pub file_hdu : ℕ → ℕ → Action (Store W) ℕ
  file_hdu = hdu_at

  abbrev pub file_hdu_named : ℕ → Text → ℤ → Action (Store W) ℕ
  file_hdu_named = hdu_named

  abbrev pub file_table : ℕ → ℕ → Action (Store W) ℕ
  file_table = table_at

  abbrev pub file_table_named : ℕ → Text → ℤ → Action (Store W) ℕ
  file_table_named = table_named
