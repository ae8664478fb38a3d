-- ===== src/Row/Bound.antt =====
-- What the entries of a row have in common (misfits/row_entry.hpp, misfits/row_entry.cc): each turns a variable of the
-- program into values, which it writes to a part of the row, and sets the variable from the values that it reads.
use misfits.Prelude.{
  ℕ, ◌*◌, ◌≤◌, ◌≡◌, Bool, true, false, List, [], ◌∷◌, ◌==◌, map, length, take, arith,
}
use misfits.Prelude.Int.{ℤ, pos, ◌<ℤ?◌, to_size}
use misfits.Prelude.Text.{Text}
use misfits.Cfitsio.{Cfitsio}
use misfits.Cfitsio.Cells.{Access, cells, bytes, put, get, IsTaken}
use misfits.Cfitsio.Laws.{takes, AreOf}
use misfits.Exception.{ok, ◌>>=◌}
use misfits.Types.{Native, storage_code}
use misfits.Store.{ColumnInfo, fptr, check}
use misfits.Table.Cells.{read_col, write_col, read_bytes, write_bytes}
use misfits.RowEntry.{Place, Session, ColumnEntry, column_base}
use misfits.RowEntry.Strings.{fill_cell, string_of_cell, fill_cells, strings_of_cell}
use misfits.RowEntry.Columns.{
  column_init, values_entry, bools_entry, string_entry, strings_entry, first_axis, written_over,
  to_bool, of_bool,
}

of_bools-AreOf : (bs : List Bool) → AreOf 14 (map of_bool bs)
of_bools-AreOf [] = tt
of_bools-AreOf (true ∷ bs) = (omega arith, of_bools-AreOf bs)
of_bools-AreOf (false ∷ bs) = (omega arith, of_bools-AreOf bs)

-- A column and the variable that an entry binds to it: numbers (Column<T>, ColumnVector), Boolean values (Column<bool>,
-- BoolColumnVector), a string (Column<std::string>) or a vector of strings (StringColumnVector)
pub data Bound (M : Type 0) : Type 0 where
  numbers : Native → ColumnInfo → Place M (List ℕ) → Bound M
  bools : ColumnInfo → Place M (List Bool) → Bound M
  string : ColumnInfo → Place M Text → Bound M
  strings : ColumnInfo → Place M (List Text) → Bound M

module _ {M : Type 0} where
  abbrev pub info_of : Bound M → ColumnInfo
  info_of (numbers T info base) = info
  info_of (bools info base) = info
  info_of (string info base) = info
  info_of (strings info base) = info

  abbrev pub part_of : Bound M → Access
  part_of (numbers T info base) =
      cells (storage_code T) (column_init T info).colnum (column_init T info).natomic
  part_of (bools info base) = cells 14 (column_base info).colnum (column_base info).natomic
  part_of (string info base) = bytes info.offset info.nbytes
  part_of (strings info base) = bytes info.offset info.nbytes

  -- What is written for a memory
  abbrev pub image : Bound M → M → List ℕ
  image (numbers T info base) m = take (to_size (column_init T info).natomic) (base.load m)
  image (bools info base) m = map of_bool (take (to_size (column_base info).natomic) (base.load m))
  image (string info base) m = fill_cell (to_size info.nbytes) (base.load m)
  image (strings info base) m =
      fill_cells (to_size info.nbytes) (first_axis info.extent) (base.load m)

  -- The memory after values were read
  abbrev pub restore : Bound M → List ℕ → M → M
  restore (numbers T info base) values m = base.save (written_over values (base.load m)) m
  restore (bools info base) values m = base.save (written_over (map to_bool values) (base.load m)) m
  restore (string info base) values m = base.save (string_of_cell (to_size info.nbytes) values) m
  restore (strings info base) values m =
      base.save (strings_of_cell (length (base.load m)) (first_axis info.extent) values) m

  -- The variable has room for the values of a cell, the buffer of strings has room for the variable, and no vector or buffer
  -- is empty whose first element is asked for.
  abbrev pub HasRoom : Bound M → M → Type 0
  HasRoom (numbers T info base) m =
      ((length (base.load m) == 0) ≡ false)
      × ((pos (length (base.load m)) <ℤ? (column_init T info).natomic) ≡ false)
  HasRoom (bools info base) m =
      ((to_size (column_base info).natomic == 0) ≡ false)
      × ((pos (length (base.load m)) <ℤ? (column_base info).natomic) ≡ false)
  HasRoom (string info base) m = (to_size info.nbytes == 0) ≡ false
  HasRoom (strings info base) m =
      ((to_size info.nbytes == 0) ≡ false)
      × (length (base.load m) * first_axis info.extent ≤ to_size info.nbytes)

  -- The column takes the type of the variable without a conversion, and numbers are bit patterns of their type.
  abbrev pub Suits : Bound M → M → Type 0
  Suits (numbers T info base) m =
      (takes info.column_type (storage_code T) ≡ true)
      × AreOf (storage_code T) (image (numbers T info base) m)
  Suits (bools info base) m = takes info.column_type 14 ≡ true
  Suits _ m = Unit

  pub Suits-IsTaken :
      (b : Bound M) (m : M) → Suits b m → IsTaken (info_of b) (part_of b) (image b m)
  Suits-IsTaken (numbers T info base) m h = h
  Suits-IsTaken (bools info base) m h = (h, of_bools-AreOf _)
  Suits-IsTaken (string info base) m h = tt
  Suits-IsTaken (strings info base) m h = tt

module _ {W M : Type 0} ⦃c : Cfitsio W⦄ where
  -- The entry that the constructors make
  abbrev pub entry_of : Bound M → ColumnEntry W M
  entry_of (numbers T info base) = values_entry T (column_init T info) base
  entry_of (bools info base) = bools_entry (column_base info) base
  entry_of (string info base) = string_entry info base
  entry_of (strings info base) = strings_entry info (first_axis info.extent) base

  -- A write that ends has had room, and has written the image of the memory to its part of the row, and
  -- nothing else has changed.
  pub write_bound :
      (b : Bound M) (t : ℕ) (row : ℤ) (s : Session W M)
      → let f = fptr (s.store.hdus t).file s.store in
        let entry : ColumnEntry W M = entry_of b in
        let (r, s') = entry.write t row s in
        let (status, _, w') = put c (part_of b) f row (image b s.memory) s.store.world in
        r ≡ ok tt
        → HasRoom b s.memory
          × (status ≡ 0)
          × (s' ≡ record s { store = record s.store { world = w' } })
  unfolding values_entry bools_entry string_entry strings_entry write_col write_bytes check ◌>>=◌
  write_bound (numbers T info base) t row s h = ground arith
  write_bound (bools info base) t row s h = ground arith
  write_bound (string info base) t row s h = ground arith
  write_bound (strings info base) t row s h = ground arith

  -- A read of values that are there ends, if there is room, and sets the variable from them.
  pub read_bound :
      (b : Bound M) (t : ℕ) (row : ℤ) (s : Session W M)
      → let f = fptr (s.store.hdus t).file s.store in
        let (status, values, w') = get c (part_of b) f row s.store.world in
        let entry : ColumnEntry W M = entry_of b in
        HasRoom b s.memory
        → status ≡ 0
        → entry.read t row s ≡ (
          ok tt,
          record s { store = record s.store { world = w' }; memory = restore b values s.memory },
        )
  unfolding values_entry bools_entry string_entry strings_entry read_col read_bytes check ◌>>=◌
  read_bound (numbers T info base) t row s room h = ground arith
  read_bound (bools info base) t row s room h = ground arith
  read_bound (string info base) t row s room h = ground arith
  read_bound (strings info base) t row s room h = ground arith
