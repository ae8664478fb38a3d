-- ===== src/Tests/Rows.antt =====
-- Rows, their entries, and blocks of memory.
use misfits.Prelude.{ℕ, ◌≡◌, refl, true, false, Bool, List, [], ◌∷◌, some, arith}
use misfits.Prelude.Int.{ℤ, pos}
use misfits.Prelude.Text.{text}
use misfits.Exception.{ok, throw, undefined, throw_if, ◌>>=◌, ◌>>◌}
use misfits.Types.{Spec, int, storage_code}
use misfits.Cfitsio.Laws.{AreOf}
use misfits.Store.{check, ColumnInfo}
use misfits.File.{move_to}
use misfits.Hdu.{set_as_chdu}
use misfits.Table.{num_rows}
use misfits.Table.Cells.{read_col, write_col}
use misfits.RowEntry.{Place, Session, ColumnEntry, ColumnBase}
use misfits.RowEntry.Columns.{values_entry, column, column_vector, bool_column_vector}
use misfits.RowEntry.Built.{IsUsable, vector_columns-IsUsable}
use misfits.Exception.Gives.{Gives}
use misfits.Extent.{nelem}
use misfits.RowEntry.RoundTrip.{values_entry_roundtrip}
use misfits.MemBlock.{MemBlock, MakeColumn, memblock, add_block, add_entry, add_address}
use misfits.MemBlock.Offsets.{add_block-nested, add_block-add_address}
use misfits.Row
use misfits.Row.{
  Row, RowState, new_row, read, read_at, write, write_at, read_entries, write_entries,
}
use misfits.Row.Cursor.{
  Call, Runs, reads, reads_at, sets_auto_advance, writes_at, done, found, cursor, replies_to,
  replies_to-Runs,
}
use misfits.Row.Scan.{HasRows, scan, Scanned, scan_lem}
use misfits.Row.Moves.{ReadOutcome, read_outcome}
use misfits.Tests.Sim.{Sim, sim, start, sim-ReadsBack}

-- The memory of the program: two variables
record Memory : Type 0 where
  counts : List ℕ
  flags : List Bool

abbrev counts_at : Place Memory (List ℕ)
counts_at = record { load = λ m. m.counts; save = λ v m. record m { counts = v } }

abbrev flags_at : Place Memory (List Bool)
flags_at = record { load = λ m. m.flags; save = λ v m. record m { flags = v } }

abbrev three : ColumnBase
three = record { colnum = 2; nelem = pos 3; natomic = pos 3; id = Spec.long }

abbrev counts_entry : ColumnEntry Sim Memory
counts_entry = values_entry ⦃c = sim⦄ int (record three { natomic = pos 1 }) counts_at

abbrev session : Session Sim Memory
session = record {
  store = start;
  memory = record { counts = 1 ∷ 2 ∷ 3 ∷ 4 ∷ []; flags = true ∷ false ∷ true ∷ [] };
}

abbrev at_row : ℤ → RowState Sim Memory
at_row idx = record {
  session = session;
  row = record { table = 1; idx = idx; auto_advance = true; entries = counts_entry ∷ [] };
}

read_outcome_example : ReadOutcome (at_row (pos 2)) (read ⦃c = sim⦄ (at_row (pos 2)))
read_outcome_example = read_outcome ⦃c = sim⦄ (at_row (pos 2))

-- The table has two rows.
read_second :
    ((read ⦃c = sim⦄ (at_row (pos 2))).0 ≡ ok true)
    × ((read ⦃c = sim⦄ (at_row (pos 2))).1.session.memory.counts ≡ 7 ∷ 2 ∷ 3 ∷ 4 ∷ [])
    × ((read ⦃c = sim⦄ (at_row (pos 3))).0 ≡ ok false)
unfolding read read_entries num_rows set_as_chdu move_to values_entry read_col check ◌>>=◌
read_second = (refl, refl, refl)

abbrev later : Memory
later = record { counts = 0 ∷ 0 ∷ 0 ∷ 9 ∷ []; flags = false ∷ false ∷ false ∷ true ∷ [] }

values_written : ((values_entry ⦃c = sim⦄ int three counts_at).write 1 (pos 2) session).0 ≡ ok tt
unfolding values_entry write_col check ◌>>=◌
values_written = refl

three_numbers : AreOf 31 (1 ∷ 2 ∷ 3 ∷ [])
three_numbers = (omega arith, (omega arith, (omega arith, tt)))

values_entry_roundtrip_example :
    let entry : ColumnEntry Sim Memory = values_entry ⦃c = sim⦄ int three counts_at in
    let s' = (entry.write 1 (pos 2) session).1 in
    let (r, s₂) = entry.read 1 (pos 2) (record s' { memory = later }) in
    (r ≡ ok tt) × (s₂.memory ≡ record later { counts = 1 ∷ 2 ∷ 3 ∷ 9 ∷ [] })
unfolding storage_code
values_entry_roundtrip_example =
    values_entry_roundtrip ⦃c = sim⦄ int three counts_at 1 (pos 2) session later
      (sim-ReadsBack 9 2 Spec.long) refl three_numbers values_written refl refl

-- The first element of a vector that has become empty
first_of_none :
    ((values_entry ⦃c = sim⦄ int three counts_at).write 1
      (pos 2)
      (record session { memory = record session.memory { counts = [] } })).0
    ≡ throw undefined
unfolding values_entry throw_if ◌>>=◌
first_of_none = refl

-- Every address is that of the same variable.
abbrev make_counts : MakeColumn Sim Memory
make_counts ci address = column ⦃c = sim⦄ int ci counts_at

abbrev point : MemBlock Sim Memory
point =
    add_entry (text "TIME") (pos 0) make_counts
      (add_entry (text "COUNTS") (pos 8) make_counts (memblock (pos 16)))

abbrev event : MemBlock Sim Memory
event = add_entry (text "TIME") (pos 4) make_counts (memblock (pos 40))

add_block-nested_example :
    Row.add_block ⦃c = sim⦄ (pos 1000) (add_block (pos 24) point event)
    ≡ (Row.add_block ⦃c = sim⦄ (pos 1000) event >> Row.add_block ⦃c = sim⦄ (pos 1024) point)
add_block-nested_example = add_block-nested ⦃c = sim⦄ (pos 1000) (pos 24) point event

add_block-add_address_example :
    Row.add_block ⦃c = sim⦄
      (pos 1000)
      (add_address (pos 1000) (text "COUNTS") (pos 1012) make_counts event)
    ≡ (Row.add_block ⦃c = sim⦄ (pos 1000) event
        >> Row.add ⦃c = sim⦄ (text "COUNTS") (λ ci. make_counts ci (pos 1012)))
add_block-add_address_example =
    add_block-add_address ⦃c = sim⦄ (pos 1000) (pos 1012) (text "COUNTS") make_counts event

-- CFITSIO reports two rows as long as nobody adds one.
abbrev TwoRows : Session Sim Memory → Type 0
TwoRows v = v.store.world.rows ≡ 2

TwoRows-HasRows : HasRows ⦃c = sim⦄ TwoRows 1 (counts_entry ∷ []) 2
unfolding read_entries num_rows set_as_chdu move_to values_entry read_col check ◌>>=◌
TwoRows-HasRows = record {
  chdu = record { at = λ v h. ground arith };
  counted = record { at = λ v h. ground arith };
  count = λ v m h e. ground arith;
  read_all = λ idx. record { at = λ v h. ground arith };
}

scan_lem_example : Scanned 2 1 2 (scan ⦃c = sim⦄ 3 (at_row (pos 1)))
scan_lem_example =
    scan_lem ⦃c = sim⦄ TwoRows 1 (counts_entry ∷ []) 2 TwoRows-HasRows 2 3 1 session refl refl
      (omega arith)

scanned : (scan ⦃c = sim⦄ 3 (at_row (pos 1))).0 ≡ ok (some (pos 1 ∷ pos 2 ∷ []))
unfolding scan read read_entries num_rows set_as_chdu move_to values_entry read_col check ◌>>=◌
scanned = refl

abbrev calls : List Call
calls = reads ∷ reads_at (pos 7) ∷ sets_auto_advance false ∷ writes_at (pos 1) ∷ reads ∷ []

replies_to-Runs_example :
    let (replies, s') = replies_to ⦃c = sim⦄ calls (at_row (pos 2)) in
    Runs (cursor (at_row (pos 2))) calls replies (cursor s')
replies_to-Runs_example = replies_to-Runs ⦃c = sim⦄ calls (at_row (pos 2))

replied :
    let (replies, s') = replies_to ⦃c = sim⦄ calls (at_row (pos 2)) in
    (replies ≡ found true ∷ found false ∷ done ∷ done ∷ found true ∷ []) × (s'.row.idx ≡ pos 1)
unfolding read read_at write write_at read_entries write_entries num_rows set_as_chdu move_to
    values_entry read_col write_col check ◌>>=◌
replied = (refl, refl)

abbrev counts_info : ColumnInfo
counts_info = record {
  ttype = text "COUNTS";
  tunit = [];
  column_type = Spec.long;
  offset = pos 5;
  nbytes = pos 12;
  extent = pos 3 ∷ [];
  colnum = 2;
}

three_elements : nelem (pos 3 ∷ []) ≡ pos 3
unfolding nelem
three_elements = refl

vector_columns-IsUsable_example :
    Gives (IsUsable {W = Sim}) (column_vector ⦃c = sim⦄ int counts_info counts_at session)
    × Gives (IsUsable {W = Sim}) (bool_column_vector ⦃c = sim⦄ counts_info flags_at session)
vector_columns-IsUsable_example =
    vector_columns-IsUsable ⦃c = sim⦄ int counts_info counts_at flags_at 3 session (λ v m. refl)
      (λ v m. refl) three_elements (omega arith) (omega arith)
