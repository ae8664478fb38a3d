-- ===== src/Tests/Edits.antt =====
-- A column that is added to a table, and one that is deleted from it.
use misfits.Prelude.{◌≡◌, refl, [], ◌∷◌, ◌==◌, if◌then◌else◌, arith}
use misfits.Prelude.Int.{pos}
use misfits.Prelude.Text.{text}
use misfits.Cfitsio.Columns.{HoldsColumn}
use misfits.Exception.{ok, ◌>>=◌}
use misfits.Types.{Spec, spec_id, spec_from_id}
use misfits.Extent.{squeeze}
use misfits.Store.{Store, ColumnInfo, check, call}
use misfits.File.{move_to, hdu_type}
use misfits.Hdu.{set_as_chdu, hdu_refresh, get_keyword, get_keyword_string, read_string}
use misfits.Table.{add, delete_column, refresh, push_columns, num_columns, column_place, colinfo}
use misfits.Table.Listed.{Lists}
use misfits.Table.Deleted.{description, delete_column_lem}
use misfits.Table.Added.{Stands, add_lem}
use misfits.ColumnInfo.{init, insert, tform, read_extent, cell_bytes}
use misfits.Tests.Sim.{Sim, sim_world, start}
use misfits.Tests.Columns.{
  table_sim, image, table_sim-DescribesColumns, table_sim-MovesTo, table_sim-KeepsDescriptions,
  table_sim-DeletesColumns,
}

-- A table of one column, in the second HDU
abbrev one_column : Sim
one_column = record sim_world {
  columns = (text "TIME", pos 1) ∷ [];
  made = λ n. record { ttype = text "TIME"; code = pos 41; repeat = pos 1; axes = pos 1 ∷ [] };
}

abbrev before : Store Sim
before = record start { world = one_column }

abbrev in_second : Store Sim
in_second = record before { world = record one_column { chdu = 2 } }

-- `add` puts the column behind the last one.
abbrev new_image : ColumnInfo
new_image = record image { colnum = 0 }

image_added : (add ⦃c = table_sim⦄ 1 new_image before).0 ≡ ok tt
unfolding add refresh push_columns num_columns column_place init insert tform squeeze hdu_refresh
    get_keyword_string get_keyword read_string read_extent hdu_type set_as_chdu move_to check call
    cell_bytes spec_from_id ◌>>=◌
image_added = refl

add_lem_example :
    Stands new_image 2 (colinfo ⦃c = table_sim⦄ 1 2 (add ⦃c = table_sim⦄ 1 new_image before).1).0
unfolding column_place num_columns set_as_chdu move_to check ◌>>=◌
add_lem_example =
    add_lem ⦃c = table_sim⦄ table_sim-MovesTo table_sim-DescribesColumns table_sim-KeepsDescriptions
      1 1 new_image (3 ∷ 1 ∷ 4 ∷ []) before in_second in_second refl
      (omega arith, (omega arith, (omega arith, tt))) (omega arith) refl refl refl
      (refl, omega arith, omega arith) image_added

-- A table of two columns
abbrev two_columns : Sim
two_columns = record sim_world {
  made = λ n.
      if n == 1
      then (record { ttype = text "TIME"; code = pos 41; repeat = pos 1; axes = pos 1 ∷ [] })
      else (record {
        ttype = text "FLUX";
        code = pos 42;
        repeat = pos 6;
        axes = pos 2 ∷ pos 3 ∷ [];
      });
}

abbrev with_flux : Store Sim
with_flux = record start { world = two_columns }

time_deleted : (delete_column ⦃c = table_sim⦄ 1 1 with_flux).0 ≡ ok tt
unfolding delete_column refresh push_columns num_columns init hdu_refresh get_keyword_string
    get_keyword read_string read_extent hdu_type set_as_chdu move_to check call cell_bytes
    spec_from_id ◌>>=◌
time_deleted = refl

delete_column_lem_example :
    Lists
      (text "FLUX")
      Spec.float
      (pos 2 ∷ pos 3 ∷ [])
      1
      (description (colinfo ⦃c = table_sim⦄ 1 1 (delete_column ⦃c = table_sim⦄ 1 1 with_flux).1).0)
unfolding set_as_chdu move_to check HoldsColumn spec_id ◌>>=◌
delete_column_lem_example =
    delete_column_lem ⦃c = table_sim⦄ table_sim-MovesTo table_sim-KeepsDescriptions
      table_sim-DeletesColumns 1 1 0 (text "FLUX") Spec.float 6 (pos 2 ∷ pos 3 ∷ []) with_flux
      (record with_flux { world = record two_columns { chdu = 2 } }) refl refl
      ((refl, refl), (refl, refl), (refl, refl, refl), (refl, refl), (refl, refl)) time_deleted
