-- ===== src/MemBlock.antt =====
-- misfits/memblock.hpp and misfits/memblock.cc: the columns of a record of the program, by their offsets
-- from its address. An address is an integer.
pub mod Offsets
use misfits.Prelude.{ℕ, List, [], ◌∷◌, ◌++◌}
use misfits.Prelude.Int.{ℤ, ◌+ℤ◌, ◌-ℤ◌}
use misfits.Prelude.Text.{Text}
use misfits.Exception.{Action}
use misfits.Store.{ColumnInfo}
use misfits.RowEntry.{Session, ColumnEntry}

-- How `column` of an Entry<EntryType> makes a row entry: the constructor of Column<EntryType> at the address
-- of a value of that type
abbrev pub MakeColumn : Type 0 → Type 0 → Type 0
MakeColumn W M = ColumnInfo → ℤ → Action (Session W M) (ColumnEntry W M)

-- MemBlock::Entry
pub record MemEntry (W M : Type 0) : Type 0 where
  pub name : Text
  pub offset : ℤ
  pub make : MakeColumn W M

-- class MemBlock. Nothing reads its `increment`.
pub record MemBlock (W M : Type 0) : Type 0 where
  pub entries : List (MemEntry W M)
  pub increment : ℤ

module _ {W M : Type 0} where
  -- Entry::column
  unfoldable pub entry_column :
      MemEntry W M → ColumnInfo → ℤ → Action (Session W M) (ColumnEntry W M)
  entry_column entry info base = entry.make info (base +ℤ entry.offset)

  -- The loop of MemBlock::add: a clone of each entry, moved
  unfoldable pub moved_entries : ℤ → List (MemEntry W M) → List (MemEntry W M)
  moved_entries offset [] = []
  moved_entries offset (entry ∷ entries) =
      record entry { offset = entry.offset +ℤ offset } ∷ moved_entries offset entries

  -- `add( offset, block )`
  unfoldable pub add_block : ℤ → MemBlock W M → MemBlock W M → MemBlock W M
  add_block offset block self = record self {
    entries = self.entries ++ moved_entries offset block.entries;
  }

  -- `add( name, offset )` of MemBlockOffset
  unfoldable pub add_entry : Text → ℤ → MakeColumn W M → MemBlock W M → MemBlock W M
  add_entry name offset make self = record self {
    entries = self.entries ++ (record { name = name; offset = offset; make = make } ∷ []);
  }

  -- `add( name, addr )` of MemBlockAddr, whose block is at the address `base`
  unfoldable pub add_address : ℤ → Text → ℤ → MakeColumn W M → MemBlock W M → MemBlock W M
  add_address base name addr make self = add_entry name (addr -ℤ base) make self

  -- `memblock<T>()` and `memblock( base )`: no entry, and the size of T
  abbrev pub memblock : ℤ → MemBlock W M
  memblock size = record { entries = []; increment = size }
