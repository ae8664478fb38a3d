-- ===== src/Table/Cells.antt =====
-- Reading and writing cells: Table::read_col, write_col, read_bytes and write_bytes (misfits/table.cc).
-- None of them makes the table's HDU the current one; Row::read and Row::write have done so.
use misfits.Prelude.{ℕ, List}
use misfits.Prelude.Int.{ℤ}
use misfits.Cfitsio.{⊤, Cfitsio}
use misfits.Exception.{Action, gets, ◌>>=◌}
use misfits.Store.{Store, check, fptr}

module _ {W : Type 0} ⦃c : Cfitsio W⦄ where
  abbrev table_fptr : ℕ → Store W → ℕ
  table_fptr t s = fptr (s.hdus t).file s

  -- `read_col<T>` and `write_col<T>`, and their specializations for ColumnType::ID::Logical, by datatype code
  unfoldable pub read_col : ℕ → ℕ → ℕ → ℤ → ℕ → ℤ → Action (Store W) (List ℕ)
  read_col t datatype colnum firstrow firstelem nelem = do
    fitsptr ← gets (table_fptr t)
    check (c.read_col fitsptr datatype colnum firstrow firstelem nelem)

  unfoldable pub write_col : ℕ → ℕ → ℕ → ℤ → ℕ → ℤ → List ℕ → Action (Store W) ⊤
  write_col t datatype colnum firstrow firstelem nelem values = do
    fitsptr ← gets (table_fptr t)
    check (c.write_col fitsptr datatype colnum firstrow firstelem nelem values)

  unfoldable pub read_bytes : ℕ → ℤ → ℤ → ℤ → Action (Store W) (List ℕ)
  read_bytes t firstrow offset nbytes = do
    fitsptr ← gets (table_fptr t)
    check (c.read_tblbytes fitsptr firstrow offset nbytes)

  unfoldable pub write_bytes : ℕ → ℤ → ℤ → ℤ → List ℕ → Action (Store W) ⊤
  write_bytes t firstrow offset nbytes bytes = do
    fitsptr ← gets (table_fptr t)
    check (c.write_tblbytes fitsptr firstrow offset nbytes bytes)
