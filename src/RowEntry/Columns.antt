-- ===== src/RowEntry/Columns.antt =====
-- The classes of row entries but Column<BitSet> (misfits/row_entry.hpp, misfits/row_entry.cc). A constructor
-- is an action, since it sizes the program's variable; it gives back the entry. An array or a vector is
-- the list of its elements. CFITSIO fills as many elements as it is asked for.
use misfits.Prelude.{
  ℕ, ◌-◌, ◌*◌, ◌/◌, Bool, true, false, not, List, [], ◌∷◌, ◌++◌, map, ltb, ◌==◌, if◌then◌else◌,
  length, take, drop, replicate,
}
use misfits.Prelude.Int.{ℤ, pos, ◌<ℤ?◌, to_size}
use misfits.Prelude.Text.{Text, text}
use misfits.Cfitsio.{⊤, Cfitsio}
use misfits.Exception.{assert, undefined, Action, pure, gets, modify, ◌>>=◌, ◌>>◌, throw_if}
use misfits.Types.{Native, unsigned_char, storage_code, is_bit, is_string}
use misfits.Store.{ColumnInfo}
use misfits.Table.Cells.{read_col, write_col, read_bytes, write_bytes}
use misfits.RowEntry.{
  Place, Session, on_store, save_at, load_at, ColumnEntry, ColumnBase, column_base, bytes_of_bits,
}
use misfits.RowEntry.Strings.{fill_cell, string_of_cell, fill_cells, strings_of_cell}

module _ {A : Type 0} where
  -- `resize` of a vector or a string
  abbrev pub resized : ℕ → A → List A → List A
  resized n a xs = take n xs ++ replicate (n - length xs) a

  -- What is written from the first element on, in front of what is left of the old elements
  abbrev pub written_over : List A → List A → List A
  written_over values old = values ++ drop (length values) old

abbrev pub is_byte : Native → Bool
is_byte unsigned_char = true
is_byte _ = false

-- ColumnInit<T>: its `init` does something for byte_t alone.
unfoldable pub column_init : Native → ColumnInfo → ColumnBase
unfolding column_base
column_init T info =
    let base = column_base info in
    let bytes : ColumnBase = record base { natomic = bytes_of_bits base.nelem } in
    if is_byte T then (if is_bit base.id then bytes else base) else base

-- A buffer element, assigned to a bool and from one
abbrev pub to_bool : ℕ → Bool
to_bool b = not (b == 0)

abbrev pub of_bool : Bool → ℕ
of_bool true = 1
of_bool false = 0

-- `static_cast<Buffer::size_type>( info.extent[0] )`
abbrev pub first_axis : List ℤ → ℕ
first_axis [] = 0
first_axis (e ∷ es) = to_size e

module _ {W M : Type 0} ⦃c : Cfitsio W⦄ where
  -- An access to `n` elements of a vector that has fewer is undefined.
  abbrev within : {A : Type 0} → ℤ → List A → Action (Session W M) ⊤
  within n xs = throw_if (pos (length xs) <ℤ? n) undefined

  -- `&v[0]` of a vector or a buffer of `n` elements is undefined where there is none.
  abbrev has_first : ℕ → Action (Session W M) ⊤
  has_first n = throw_if (n == 0) undefined

  -- `read` and `write` of Column<T> and of ColumnVector
  unfoldable pub values_entry : Native → ColumnBase → Place M (List ℕ) → ColumnEntry W M
  values_entry T col base = record {
    read = λ table firstrow. do
      old ← gets (load_at base)
      has_first (length old)
      within col.natomic old
      values ← on_store (read_col table (storage_code T) col.colnum firstrow 1 col.natomic)
      modify (save_at base (written_over values old));
    write = λ table firstrow. do
      values ← gets (load_at base)
      has_first (length values)
      within col.natomic values
      on_store (
          write_col table (storage_code T) col.colnum firstrow 1 col.natomic
            (take (to_size col.natomic) values));
  }

  -- Column<T>, for a T that has no specialization
  unfoldable pub column :
      Native → ColumnInfo → Place M (List ℕ) → Action (Session W M) (ColumnEntry W M)
  column T info base = pure (values_entry T (column_init T info) base)

  -- ColumnVector, the base of Column< std::vector<T> > and of Column< boost::container::vector<T> >
  unfoldable pub column_vector :
      Native → ColumnInfo → Place M (List ℕ) → Action (Session W M) (ColumnEntry W M)
  column_vector T info base = do
    let col = column_init T info
    old ← gets (load_at base)
    modify (save_at base (resized (to_size col.natomic) 0 old))
    pure (values_entry T col base)

  -- `read` and `write` of BoolColumnVector: by way of a buffer of bytes, read and
  -- written with the code of logical columns
  unfoldable pub bools_entry : ColumnBase → Place M (List Bool) → ColumnEntry W M
  bools_entry col base = record {
    read = λ table firstrow. do
      has_first (to_size col.natomic)
      buffer ← on_store (read_col table 14 col.colnum firstrow 1 col.natomic)
      old ← gets (load_at base)
      within col.natomic old
      modify (save_at base (written_over (map to_bool buffer) old));
    write = λ table firstrow. do
      has_first (to_size col.natomic)
      values ← gets (load_at base)
      within col.natomic values
      on_store (
          write_col table 14 col.colnum firstrow 1 col.natomic
            (map of_bool (take (to_size col.natomic) values)));
  }

  -- `read` and `write` of Column<bool>, whose pointer is to an array
  abbrev pub bool_entry : ColumnBase → Place M (List Bool) → ColumnEntry W M
  bool_entry = bools_entry

  -- Column<bool>
  unfoldable pub bool_column :
      ColumnInfo → Place M (List Bool) → Action (Session W M) (ColumnEntry W M)
  bool_column info base = pure (bool_entry (column_base info) base)

  -- BoolColumnVector, the base of Column< std::vector<bool> > and of its boost sibling
  unfoldable pub bool_column_vector :
      ColumnInfo → Place M (List Bool) → Action (Session W M) (ColumnEntry W M)
  bool_column_vector info base = do
    let col = column_base info
    old ← gets (load_at base)
    modify (save_at base (resized (to_size col.natomic) false old))
    pure (bools_entry col base)

  -- Column<std::string>
  unfoldable pub string_entry : ColumnInfo → Place M Text → ColumnEntry W M
  string_entry info base = record {
    read = λ table firstrow. do
      has_first (to_size info.nbytes)
      buffer ← on_store (read_bytes table firstrow info.offset info.nbytes)
      modify (save_at base (string_of_cell (to_size info.nbytes) buffer));
    write = λ table firstrow. do
      has_first (to_size info.nbytes)
      s ← gets (load_at base)
      on_store
          (write_bytes table firstrow info.offset info.nbytes (fill_cell (to_size info.nbytes) s));
  }

  unfoldable pub string_column : ColumnInfo → Place M Text → Action (Session W M) (ColumnEntry W M)
  string_column info base = do
    throw_if (not (is_string info.column_type))
        (assert (text "a std::string destination can only be used with a FITS 'A' column type"))
    old ← gets (load_at base)
    modify (save_at base (resized (to_size info.nbytes) 0 old))
    pure (string_entry info base)

  -- StringColumnVector. More strings than the cell has room for leave the buffer.
  unfoldable pub strings_entry : ColumnInfo → ℕ → Place M (List Text) → ColumnEntry W M
  strings_entry info width base = record {
    read = λ table firstrow. do
      has_first (to_size info.nbytes)
      buffer ← on_store (read_bytes table firstrow info.offset info.nbytes)
      old ← gets (load_at base)
      throw_if (ltb (to_size info.nbytes) (length old * width)) undefined
      modify (save_at base (strings_of_cell (length old) width buffer));
    write = λ table firstrow. do
      has_first (to_size info.nbytes)
      strs ← gets (load_at base)
      throw_if (ltb (to_size info.nbytes) (length strs * width)) undefined
      on_store (
          write_bytes table firstrow info.offset info.nbytes
            (fill_cells (to_size info.nbytes) width strs));
  }

  unfoldable pub string_column_vector :
      ColumnInfo → Place M (List Text) → Action (Session W M) (ColumnEntry W M)
  string_column_vector info base = do
    let width = first_axis info.extent
    throw_if (not (is_string info.column_type)) (
        assert
          (text "a vector<std::string> destination can only be used with a FITS 'A' column type"))
    throw_if (width == 0) undefined
    old ← gets (load_at base)
    modify (save_at base (resized (to_size (column_base info).nelem / width) [] old))
    pure (strings_entry info width base)
