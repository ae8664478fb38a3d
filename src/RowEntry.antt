-- ===== src/RowEntry.antt =====
-- Row entries (misfits/row_entry.hpp, misfits/row_entry.cc): what connects a column of a table with a place
-- in the program's memory. `M` is that memory; a pointer is a Place in it.
pub mod Strings
pub mod StringColumns
pub mod Columns
pub mod RoundTrip
pub mod BitSetColumn
pub mod BitSetRoundTrip
pub mod StringRoundTrip
pub mod Built
use misfits.Prelude.{ℕ, ◌+◌, ◌*◌, ◌<◌, Bool, List, ltb, if◌then◌else◌, ◌≡◌}
use misfits.Prelude.Int.{ℤ, pos, ◌+ℤ◌, ◌*ℤ◌, ◌<ℤ?◌, quot}
use misfits.Extent.{nelem}
use misfits.Cfitsio.{⊤}
use misfits.Exception.{Action, zoom}
use misfits.Types.{Spec}
use misfits.Store.{Store, ColumnInfo}

-- A pointer to a V in the program's memory
pub record Place (M V : Type 0) : Type 0 where
  pub load : M → V
  pub save : V → M → M

-- The state that the entries of a row act on
pub record Session (W M : Type 0) : Type 0 where
  pub store : Store W
  pub memory : M

abbrev pub set_store : {W M : Type 0} → Store W → Session W M → Session W M
set_store st s = record s { store = st }

abbrev pub on_store : {W M A : Type 0} → Action (Store W) A → Action (Session W M) A
on_store = zoom (λ s. s.store) set_store

abbrev pub save_at : {W M V : Type 0} → Place M V → V → Session W M → Session W M
save_at p v s = record s { memory = p.save v s.memory }

abbrev pub load_at : {W M V : Type 0} → Place M V → Session W M → V
load_at p s = p.load s.memory

-- The virtual methods of ColumnBase, of an entry whose members are fixed. They take the address of the
-- table and the row.
pub record ColumnEntry (W M : Type 0) : Type 0 where
  pub read : ℕ → ℤ → Action (Session W M) ⊤
  pub write : ℕ → ℤ → Action (Session W M) ⊤

-- The members of ColumnBase. `natomic` is the number of atomic elements that are read or written.
pub record ColumnBase : Type 0 where
  pub colnum : ℕ
  pub nelem : ℤ
  pub natomic : ℤ
  pub id : Spec

unfoldable pub column_base : ColumnInfo → ColumnBase
unfolding nelem
column_base info = record {
  colnum = info.colnum;
  nelem = nelem info.extent;
  natomic = nelem info.extent;
  id = info.column_type;
}

-- ColumnInit<byte_t>::init, for a bit column: `natomic_` becomes the number of bytes.
abbrev pub bytes_of_bits : ℤ → ℤ
bytes_of_bits nelem =
    let whole = quot nelem 8 in if (whole *ℤ pos 8) <ℤ? nelem then whole +ℤ pos 1 else whole
