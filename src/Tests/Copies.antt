-- ===== src/Tests/Copies.antt =====
-- The cells of a table that are copied over those of another, in another file and in the same one.
use misfits.Prelude.{
  ℕ, ◌+◌, ◌*◌, ◌/◌, ◌≡◌, ◌≢◌, refl, arith, true, false, ◌&&◌, List, [], ◌∷◌, ◌==◌, map,
  if◌then◌else◌,
}
use misfits.Prelude.Int.{pos, ◌==ℤ◌, ==ℤ_refl}
use misfits.Prelude.Text.{Text, text, text_eq}
use misfits.Cfitsio.{⊤, Call, Cfitsio}
use misfits.Cfitsio.Copying.{CopiesColumns, Spares, SparesColumns}
use misfits.Exception.{ok, gets, modify, throw_if, ◌>>=◌}
use misfits.Extent.{nelem}
use misfits.Types.{OpenMode, spec_from_id}
use misfits.Store.{Store, check, call}
use misfits.File.{move_to, hdu_type}
use misfits.Hdu.{set_as_chdu, hdu_refresh, get_keyword_string, get_keyword}
use misfits.ColumnInfo.{init, read_extent, cell_bytes}
use misfits.Table.{has_column, colinfo_named, colinfo, num_rows, refresh, num_columns, push_columns}
use misfits.Table.Copy.{
  plan_columns, plan_column, plan_existing, insert_planned, extend_rows, copy_cells, copy_columns,
}
use misfits.Table.Copy.Flags
use misfits.Table.Copy.SameFile.{copy_cells_same_file}
use misfits.Table.Copy.Pair.{Pair, Ready}
use misfits.Table.Copy.Planned.{Cached}
use misfits.Table.Copy.OverWrite.{AllOver, copy_columns_over}
use misfits.Tests.Sim.{Sim, sim, sim_world, start}
use misfits.Tests.Tables.{time, counts}

-- The cells of the column n of a file, which `cells` keeps by the column and the file
abbrev content : ℕ → ℕ → Sim → List ℕ
content f n w = w.cells n (pos f)

-- A number that counts halves loses its fraction in a column of integers.
abbrev whole : ℕ → ℕ
whole halves = halves / 2 * 2

-- The columns of the destination are of integers.
abbrev Made : ℕ → List ℕ → List ℕ → Type 0
Made k values made = made ≡ map whole values

abbrev copy_cells_of : ℕ → ℕ → ℕ → ℕ → Call Sim ⊤
copy_cells_of from to a b w = (
  0,
  tt,
  record w {
    cells = λ k f. if (k == b) && (f ==ℤ pos to) then map whole (content from a w) else w.cells k f;
  },
)

-- A CFITSIO of several files whose tables have the same columns
abbrev copy_sim : Cfitsio Sim
copy_sim = record sim { copy_col = λ from to a b create. copy_cells_of from to a b }

copied_over :
    (from to a b : ℕ) (w : Sim)
    → Made b (content from a w) (content to b (copy_cells_of from to a b w).2)
copied_over from to a b w =
    let self : (b == b) ≡ true = ground arith in rw (self, ==ℤ_refl (pos to)) refl

other_column :
    (from to a b j : ℕ) (w : Sim)
    → b ≢ j
    → content to j (copy_cells_of from to a b w).2 ≡ content to j w
other_column from to a b j w far = let other : (j == b) ≡ false = ground arith in rw other refl

copy_sim-CopiesColumns : CopiesColumns copy_sim content Made 8 9
copy_sim-CopiesColumns = record {
  copies = λ n k w ends. copied_over 8 9 n k w;
  spares =
      λ n k w ends. (λ j. ground arith, λ j far. other_column 8 9 n k j w far, λ name j h. h, refl);
  finds = λ name w. (λ j. refl, λ j. refl, λ other j h. h, refl);
}

-- Table 0 is of the file 0, table 1 of the file 1, and so are the tables 2 and 3, in the HDU behind.
abbrev two_files : Store Sim
two_files = record start {
  world = record sim_world { cells = λ n f. if f ==ℤ pos 8 then 7 ∷ 2 * n ∷ [] else [] };
  files = λ f. record {
    fitsptr = if f == 0 then 9 else 8;
    mode = OpenMode.read_write;
    file = text "events.fits";
  };
  hdus = λ t. record {
    file = if t == 0 then 0 else if t == 2 then 0 else 1;
    extname = [];
    extver = pos 1;
    hdu_num = if t == 0 then 1 else if t == 1 then 1 else 2;
  };
  columns = λ t. time ∷ counts ∷ [];
}

-- The numbers that the destination's columns have
abbrev place : Text → ℕ
place name = if text_eq name (text "TIME") then 1 else 2

-- A routine that may change nothing but the number of rows
all_spared :
    {A : Type 0} (routine : Call Sim A) (rows : Sim → ℕ)
    → ((w : Sim) → (routine w).2 ≡ record w { rows = rows w })
    → Spares copy_sim content 8 9 routine
all_spared routine rows e = record {
  source = λ j v w h. rw (e w) h;
  from = λ name j w h. rw (e w) h;
  to = λ name j w h. rw (e w) h;
  here = λ n w h. rw (e w) h;
  there = λ n w h. rw (e w) h;
}

copy_sim-SparesColumns : SparesColumns copy_sim content 8 9
copy_sim-SparesColumns = record {
  finds = λ h name. all_spared _ (λ w. w.rows) (λ w. refl);
  rows = λ h. all_spared _ (λ w. w.rows) (λ w. refl);
  extends = λ after count. all_spared _ (λ w. w.rows + count) (λ w. refl);
  kind = λ h. all_spared _ (λ w. w.rows) (λ w. refl);
  counts = λ h. all_spared _ (λ w. w.rows) (λ w. refl);
  string_lengths = λ h key. all_spared _ (λ w. w.rows) (λ w. refl);
  strings = λ h key first n. all_spared _ (λ w. w.rows) (λ w. refl);
  keys = λ h datatype key. all_spared _ (λ w. w.rows) (λ w. refl);
  parms = λ h colnum. all_spared _ (λ w. w.rows) (λ w. refl);
  types = λ h colnum. all_spared _ (λ w. w.rows) (λ w. refl);
  dims = λ h colnum n. all_spared _ (λ w. w.rows) (λ w. refl);
}

abbrev two_tables : Pair Sim (List ℕ)
two_tables = record {
  src = 1;
  dest = 0;
  src_file = 1;
  dest_file = 0;
  f = 8;
  g = 9;
  n = 1;
  m = 1;
  names = text "COUNTS" ∷ text "TIME" ∷ [];
  from = place;
  to = place;
  content = content;
  source = λ n. 7 ∷ 2 * n ∷ [];
}

both-Ready : Ready ⦃c = copy_sim⦄ two_tables two_files.world
both-Ready = record {
  kept = λ j. refl;
  from_named = ((refl, refl), ((refl, refl), tt));
  to_named = ((refl, refl), ((refl, refl), tt));
  here = refl;
  there = refl;
}

both-Cached : Cached ⦃c = copy_sim⦄ two_tables two_files.columns two_files
both-Cached = record {
  linked = (
    record { holds = both-Ready; pointer = refl; in_file = refl; in_hdu = refl },
    record { holds = both-Ready; pointer = refl; in_file = refl; in_hdu = refl },
  );
  laid = record { at_table = λ t. (refl, refl, (refl, refl, tt)) };
  same = refl;
}

columns_copied :
    (copy_columns ⦃c = copy_sim⦄ 1 0 two_tables.names Flags.over_write two_files).0 ≡ ok tt
unfolding copy_columns plan_columns plan_column plan_existing insert_planned extend_rows copy_cells
    has_column colinfo_named colinfo num_rows refresh num_columns push_columns init read_extent
    hdu_type hdu_refresh get_keyword_string get_keyword set_as_chdu move_to spec_from_id cell_bytes
    nelem check call throw_if gets modify ◌>>=◌
columns_copied = refl

copy_columns_over_example :
    AllOver two_tables Made two_tables.names
      (copy_columns ⦃c = copy_sim⦄ 1 0 two_tables.names Flags.over_write two_files).1.world
copy_columns_over_example =
    copy_columns_over ⦃c = copy_sim⦄ two_tables copy_sim-CopiesColumns copy_sim-SparesColumns
      (λ e. ground arith) Flags.over_write two_files refl (((λ e. ground arith), tt), (tt, tt))
      (λ ci e. ground arith, (λ ci e. ground arith, tt)) both-Cached columns_copied

copy_cells_same_file_example :
    copy_cells ⦃c = copy_sim⦄ 2 0 (counts ∷ []) two_files
    ≡ copy_cells ⦃c = copy_sim⦄ 0 0 (counts ∷ []) two_files
copy_cells_same_file_example = copy_cells_same_file ⦃c = copy_sim⦄ 2 0 (counts ∷ []) two_files refl
