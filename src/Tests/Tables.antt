-- ===== src/Tests/Tables.antt =====
-- Tables: the layout of the columns, and their removal and copying.
use misfits.Prelude.{ℕ, ◌≡◌, ◌≢◌, ◌<◌, ◌≤◌, ◌⊎◌, refl, arith, false, List, [], ◌∷◌, length}
use misfits.Prelude.Int.{ℤ, pos, ◌<ℤ?◌, ◌+ℤ◌}
use misfits.Prelude.Text.{Text, text, show_int}
use misfits.Exception.{ok, throw, undefined, out_of_range, ◌>>=◌}
use misfits.Extent.{nelem}
use misfits.Types.{spec_code, spec_from_id, Spec}
use misfits.Store.{Store, ColumnInfo, check, call}
use misfits.File.{move_to, hdu_type}
use misfits.Hdu.{set_as_chdu, hdu_refresh, get_keyword_string, get_keyword}
use misfits.Table.{
  refresh, num_columns, push_columns, colinfo, delete_column_named, has_column, colinfo_named,
}
use misfits.Table.Copy.{CopyPlan, no_plan, plan_columns, plan_column, plan_existing}
use misfits.Table.Copy.Names.{all_names_enough}
use misfits.Table.Copy.{all_names}
use misfits.Table.Copy.Checks.{IsPlan, plan_columns_lem}
use misfits.Table.Copy.Flags
use misfits.Table.Layout.{AllLaidOut}
use misfits.Table.Layout.Operations.{
  TableCall, add_new, copy_to, make_table, delete_nth, delete_named, refresh_all, make_call,
  make_calls, make_calls-AllLaidOut,
}
use misfits.Table.Layout.Bytes.{AllSized, colinfo_colnum, columns_no_overlap}
use misfits.Table.Layout.Stale.{delete_column_named_stale}
use misfits.ColumnInfo.{init, read_extent, cell_bytes, tform}
use misfits.Tests.Sim.{Sim, sim, start}

-- A refresh, a new column, a removal by number, one by name, one that CFITSIO refuses, a copy, and a new table
abbrev some_calls : List (ℕ × TableCall)
some_calls =
    (0, refresh_all)
    ∷ (1, add_new (text "RATE") (pos 41) [] (pos 2 ∷ []) 0)
    ∷ (0, delete_nth 1)
    ∷ (1, delete_named (text "RATE"))
    ∷ (1, delete_named (text "NONE"))
    ∷ (2, copy_to 0 (text "COUNTS" ∷ []) Flags.over_write)
    ∷ (0, make_table 0 3)
    ∷ []

start_laid : AllLaidOut start
start_laid = record { at_table = λ t. tt }

make_calls-AllLaidOut_example : AllLaidOut (make_calls ⦃c = sim⦄ some_calls start)
make_calls-AllLaidOut_example = make_calls-AllLaidOut ⦃c = sim⦄ some_calls start start_laid

abbrev pub time : ColumnInfo
time = record {
  ttype = text "TIME";
  tunit = text "s";
  column_type = Spec.double;
  offset = pos 1;
  nbytes = pos 8;
  extent = pos 1 ∷ [];
  colnum = 1;
}

abbrev pub counts : ColumnInfo
counts = record {
  ttype = text "COUNTS";
  tunit = [];
  column_type = Spec.long;
  offset = pos 9;
  nbytes = pos 12;
  extent = pos 3 ∷ [];
  colnum = 2;
}

abbrev with_columns : Store Sim
with_columns = record start { columns = λ t. time ∷ counts ∷ [] }

-- The columns of CFITSIO's table, as `refresh` describes them
abbrev column_of : Text → ℤ → ℤ → ℤ → ℕ → ColumnInfo
column_of ttype offset nbytes axis colnum = record {
  ttype = ttype;
  tunit = [];
  column_type = Spec.long;
  offset = offset;
  nbytes = nbytes;
  extent = axis ∷ [];
  colnum = colnum;
}

abbrev refreshed : List (ℕ × TableCall)
refreshed = (0, refresh_all) ∷ []

described :
    (make_calls ⦃c = sim⦄ refreshed start).columns 0
    ≡ column_of (text "TIME") (pos 1) (pos 4) (pos 1) 1
      ∷ column_of (text "COUNTS") (pos 5) (pos 12) (pos 3) 2
      ∷ []
unfolding make_calls make_call refresh set_as_chdu move_to hdu_type hdu_refresh get_keyword_string
    get_keyword num_columns push_columns init read_extent spec_from_id cell_bytes nelem check call
    ◌>>=◌
described = refl

refreshed_sized : AllSized ((make_calls ⦃c = sim⦄ refreshed start).columns 0)
refreshed_sized = rw described (refl, (refl, tt))

columns_no_overlap_example : (pos 5 <ℤ? (pos 1 +ℤ pos 4)) ≡ false
columns_no_overlap_example =
    columns_no_overlap ⦃c = sim⦄ refreshed 0 0 1 start
      {a = column_of (text "TIME") (pos 1) (pos 4) (pos 1) 1}
      {b = column_of (text "COUNTS") (pos 5) (pos 12) (pos 3) 2} start_laid refreshed_sized
      (omega arith) (rw described refl) (rw described refl)

colinfo_found :
    (colinfo ⦃c = sim⦄ 0 2 (make_calls ⦃c = sim⦄ refreshed start)).0
    ≡ ok (column_of (text "COUNTS") (pos 5) (pos 12) (pos 3) 2)
unfolding colinfo ◌>>=◌
colinfo_found = rw described refl

colinfo_colnum_example :
    let s' = make_calls ⦃c = sim⦄ refreshed start in
    let r = (colinfo ⦃c = sim⦄ 0 2 s').0 in
    let n : ℕ = 2 in
    ((0 < n) × (n ≤ length (s'.columns 0)) × (ci : ColumnInfo) × (r ≡ ok ci) × (ci.colnum ≡ n))
    ⊎ (((n ≡ 0) ⊎ (length (s'.columns 0) < n)) × (r ≡ throw out_of_range))
colinfo_colnum_example = colinfo_colnum ⦃c = sim⦄ refreshed 0 2 start start_laid

delete_column_named_stale_example :
    (delete_column_named ⦃c = sim⦄ 0 (text "COUNTS") with_columns).1.columns ≡ with_columns.columns
delete_column_named_stale_example =
    delete_column_named_stale ⦃c = sim⦄ 0 (text "COUNTS") with_columns

-- The removal succeeds: CFITSIO's table has one column less.
removed : length (delete_column_named ⦃c = sim⦄ 0 (text "COUNTS") with_columns).1.world.columns ≡ 1
unfolding delete_column_named colinfo_named colinfo set_as_chdu move_to check ◌>>=◌
removed = refl

-- With the first column gone, the table gives the description of that one for the column behind it.
wrong_column :
    let after = (delete_column_named ⦃c = sim⦄ 0 (text "TIME") with_columns).1 in
    (colinfo_named ⦃c = sim⦄ 0 (text "COUNTS") after).0 ≡ ok time
unfolding delete_column_named colinfo_named colinfo set_as_chdu move_to check ◌>>=◌
wrong_column = refl

-- The plan for a column that is to be replaced
abbrev the_plan : CopyPlan
the_plan = record {
  src_ci = counts ∷ [];
  dest_ttype = text "COUNTS" ∷ [];
  dest_tform = text "3J" ∷ [];
}

plan_made :
    (plan_columns ⦃c = sim⦄ 0 1 Flags.replace (text "COUNTS" ∷ []) no_plan with_columns).0
    ≡ ok the_plan
unfolding plan_columns plan_column plan_existing has_column delete_column_named colinfo_named
    colinfo set_as_chdu move_to call check tform nelem spec_code show_int ◌>>=◌
plan_made = refl

plan_columns_lem_example : IsPlan Flags.replace 1 the_plan
plan_columns_lem_example =
    plan_columns_lem ⦃c = sim⦄ 0 1 Flags.replace (text "COUNTS" ∷ []) with_columns plan_made

all_names_enough_example : (all_names ⦃c = sim⦄ 3 0 1 [] with_columns).0 ≢ throw undefined
all_names_enough_example = all_names_enough ⦃c = sim⦄ 0 with_columns

-- The names that the loop lists
names_listed : (all_names ⦃c = sim⦄ 3 0 1 [] with_columns).0 ≡ ok (text "TIME" ∷ text "COUNTS" ∷ [])
unfolding all_names num_columns colinfo set_as_chdu move_to check ◌>>=◌
names_listed = refl
