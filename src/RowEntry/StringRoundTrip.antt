-- ===== src/RowEntry/StringRoundTrip.antt =====
-- A row entry that writes strings, and later reads the same row (StringColumnVector in misfits/row_entry.hpp).
use misfits.Prelude.{ℕ, ◌*◌, ◌≤◌, ◌≡◌, arith, List, map, length, take}
use misfits.Prelude.Int.{ℤ, to_size}
use misfits.Prelude.Text.{Text}
use misfits.Cfitsio.{Cfitsio}
use misfits.Cfitsio.Laws.{ReadsBackBytes}
use misfits.Exception.{ok, ◌>>=◌}
use misfits.Store.{ColumnInfo, check, fptr}
use misfits.Table.Cells.{read_bytes, write_bytes}
use misfits.RowEntry.{Place, Session, ColumnEntry, load_at}
use misfits.RowEntry.Strings.{fill_cells}
use misfits.Prelude.CText.{AllNullFree}
use misfits.RowEntry.StringColumns.{fill_cells_roundtrip}
use misfits.RowEntry.Columns.{strings_entry}

module _ {W M : Type 0} ⦃c : Cfitsio W⦄ where
  -- A write of strings that ends has had room for all of them.
  written_fits :
      (info : ColumnInfo) (width : ℕ) (base : Place M (List Text)) (table : ℕ) (row : ℤ)
      (s : Session W M)
      → let entry : ColumnEntry W M = strings_entry info width base in
        (entry.write table row s).0 ≡ ok tt → length (load_at base s) * width ≤ to_size info.nbytes
  unfolding strings_entry ◌>>=◌
  written_fits info width base table row s h = ground arith

  -- If CFITSIO reads back what it has written to bytes of a row, then strings with no null character that an entry for a
  -- vector of strings has written come back from it, each cut at the width of its place, into a vector that holds
  -- as many strings, whatever they are meanwhile.
  pub strings_entry_roundtrip :
      ReadsBackBytes c
      → (info : ColumnInfo) (width : ℕ) (base : Place M (List Text)) (table : ℕ) (row : ℤ)
        (s : Session W M) (later : M)
      → let entry : ColumnEntry W M = strings_entry info width base in
        let (r, s') = entry.write table row s in
        let (r₂, s₂) = entry.read table row (record s' { memory = later }) in
        r ≡ ok tt
        → AllNullFree (load_at base s)
        → length (base.load later) ≡ length (load_at base s)
        → (r₂ ≡ ok tt) × (s₂.memory ≡ base.save (map (take width) (load_at base s)) later)
  unfolding strings_entry read_bytes write_bytes check ◌>>=◌
  strings_entry_roundtrip reads info width base table row s later h clean same =
      let strs = load_at base s in
      let bytes = fill_cells (to_size info.nbytes) width strs in
      let fits = written_fits info width base table row s h in
      ground (
        arith,
        fits,
        fill_cells_roundtrip (to_size info.nbytes) width strs fits clean,
        reads (fptr (s.store.hdus table).file s.store) row info.offset info.nbytes bytes
            s.store.world,
      )
