-- ===== src/Row.antt =====
-- class Row (misfits/row.hpp, misfits/row.cc): a cursor over the rows of a table that moves values between
-- its columns and the program's memory.
pub mod Moves
pub mod Cursor
pub mod Scan
pub mod Bound
pub mod Restore
pub mod Written
pub mod ReadBack
pub mod Wrote
pub mod ReadAgain
pub mod RoundTrip
use misfits.Prelude.{
  ℕ, zero, suc, Bool, true, false, List, [], ◌∷◌, ◌++◌, ◌==◌, length, if◌then◌else◌,
}
use misfits.Prelude.Int.{ℤ, pos, ◌+ℤ◌, ◌<ℤ?◌}
use misfits.Prelude.Text.{Text, text}
use misfits.Cfitsio.{⊤, Cfitsio}
use misfits.Exception.{assert, Action, pure, gets, modify, zoom, ◌>>=◌, ◌>>◌, throw_if}
use misfits.Store.{Store, ColumnInfo}
use misfits.Hdu.{set_as_chdu}
use misfits.Table.{num_rows, colinfo, colinfo_named, table_at, table_named, set_table_as_chdu}
use misfits.RowEntry.{Session, ColumnEntry, on_store}
use misfits.MemBlock.{MemBlock, MemEntry, entry_column}

pub record Row (W M : Type 0) : Type 0 where
  pub table : ℕ
  pub idx : ℤ
  pub auto_advance : Bool
  pub entries : List (ColumnEntry W M)

-- The state that the methods of a row act on
pub record RowState (W M : Type 0) : Type 0 where
  pub session : Session W M
  pub row : Row W M

-- `init`, and the constructors from a table
abbrev pub new_row : {W M : Type 0} → ℕ → Row W M
new_row table = record { table = table; idx = pos 1; auto_advance = true; entries = [] }

-- `Table::row()`: the row observes the table.
abbrev pub row_of_table : {W M : Type 0} → ℕ → Row W M
row_of_table table = new_row table

-- `num_columns()`
abbrev pub num_entries : {W M : Type 0} → Row W M → ℕ
num_entries row = length row.entries

module _ {W M : Type 0} where
  abbrev pub set_session : Session W M → RowState W M → RowState W M
  set_session v s = record s { session = v }

  abbrev pub in_session : {A : Type 0} → Action (Session W M) A → Action (RowState W M) A
  in_session = zoom (λ s. s.session) set_session

  abbrev pub in_store : {A : Type 0} → Action (Store W) A → Action (RowState W M) A
  in_store m = in_session (on_store m)

  -- `idx( idx )` and `auto_advance( flag )`
  abbrev pub set_idx : ℤ → RowState W M → RowState W M
  set_idx idx s = record s { row = record s.row { idx = idx } }

  abbrev pub set_auto_advance : Bool → RowState W M → RowState W M
  set_auto_advance flag s = record s { row = record s.row { auto_advance = flag } }

  -- `advance( nrows )`
  abbrev pub advance : ℤ → RowState W M → RowState W M
  advance nrows s = set_idx (s.row.idx +ℤ nrows) s

  abbrev pub push_entry : ColumnEntry W M → RowState W M → RowState W M
  push_entry entry s = record s { row = record s.row { entries = s.row.entries ++ (entry ∷ []) } }

  -- The `for_each` of `read` and of `write`
  unfoldable pub read_entries : ℕ → ℤ → List (ColumnEntry W M) → Action (Session W M) ⊤
  read_entries table idx [] = pure tt
  read_entries table idx (entry ∷ entries) = do entry.read table idx; read_entries table idx entries

  unfoldable pub write_entries : ℕ → ℤ → List (ColumnEntry W M) → Action (Session W M) ⊤
  write_entries table idx [] = pure tt
  write_entries table idx (entry ∷ entries) = do
    entry.write table idx
    write_entries table idx entries

  abbrev pub auto_advanced : RowState W M → RowState W M
  auto_advanced s = if s.row.auto_advance then advance (pos 1) s else s

module _ {W M : Type 0} ⦃c : Cfitsio W⦄ where
  -- `read()`
  unfoldable pub read : Action (RowState W M) Bool
  read = do
    row ← gets (λ s. s.row)
    in_store (set_table_as_chdu row.table)
    throw_if (length row.entries == 0)
        (assert (text "row object was not assigned any columns to read"))
    nrows ← in_store (num_rows row.table)
    let read_row = do
      in_session (read_entries row.table row.idx row.entries)
      modify auto_advanced
      pure true
    if pos nrows <ℤ? row.idx then pure false else read_row

  -- `read( row )`
  unfoldable pub read_at : ℤ → Action (RowState W M) Bool
  read_at idx = do modify (set_idx idx); read

  -- `write()`
  unfoldable pub write : Action (RowState W M) ⊤
  write = do
    row ← gets (λ s. s.row)
    in_store (set_table_as_chdu row.table)
    throw_if (length row.entries == 0)
        (assert (text "row object was not assigned any columns to write"))
    in_session (write_entries row.table row.idx row.entries)
    modify auto_advanced

  -- `write( row )`
  unfoldable pub write_at : ℤ → Action (RowState W M) ⊤
  write_at idx = do modify (set_idx idx); write

  -- `colinfo( colnum )`, `colinfo( name )` and `num_rows()`
  unfoldable pub row_colinfo : ℕ → Action (RowState W M) ColumnInfo
  row_colinfo colnum = do row ← gets (λ s. s.row); in_store (colinfo row.table colnum)

  unfoldable pub row_colinfo_named : Text → Action (RowState W M) ColumnInfo
  row_colinfo_named name = do row ← gets (λ s. s.row); in_store (colinfo_named row.table name)

  unfoldable pub row_num_rows : Action (RowState W M) ℕ
  row_num_rows = do row ← gets (λ s. s.row); in_store (num_rows row.table)

  -- `add( column_name, base )`: `make` is the constructor of Column<T> at `base`.
  unfoldable pub add :
      Text → (ColumnInfo → Action (Session W M) (ColumnEntry W M)) → Action (RowState W M) ⊤
  add column_name make = do
    row ← gets (λ s. s.row)
    ci ← in_store (colinfo_named row.table column_name)
    entry ← in_session (make ci)
    modify (push_entry entry)

  -- The loop of `add( base, block )`
  unfoldable pub add_entries : ℤ → List (MemEntry W M) → Action (RowState W M) ⊤
  add_entries base [] = pure tt
  add_entries base (entry ∷ entries) = do
    add entry.name (λ ci. entry_column entry ci base)
    add_entries base entries

  unfoldable pub add_block : ℤ → MemBlock W M → Action (RowState W M) ⊤
  add_block base block = add_entries base block.entries

  -- The constructors from a file
  unfoldable pub row_at : ℕ → ℕ → Action (Store W) (Row W M)
  row_at file hdu_num = do t ← table_at file hdu_num; pure (new_row t)

  unfoldable pub row_named : ℕ → Text → ℤ → Action (Store W) (Row W M)
  row_named file extname extver = do t ← table_named file extname extver; pure (new_row t)
