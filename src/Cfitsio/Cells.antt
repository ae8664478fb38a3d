-- ===== src/Cfitsio/Cells.antt =====
-- What the documentation of CFITSIO says of reading and writing the cells of a row, column by column or as bytes.
use misfits.Prelude.{ℕ, ◌≡◌, ◌≢◌, true, false, List}
use misfits.Prelude.Int.{ℤ, pos, ◌<ℤ?◌}
use misfits.Cfitsio.{⊤, Call, Cfitsio}
use misfits.Cfitsio.Columns.{Leaves}
use misfits.Cfitsio.Laws.{takes, AreOf}
use misfits.Store.{ColumnInfo}

-- How a part of a row is read and written: as elements of a column, or as bytes of the row
pub data Access : Type 0 where
  cells : ℕ → ℕ → ℤ → Access
  bytes : ℤ → ℤ → Access

-- The part belongs to the cell of a column.
abbrev pub IsOf : ColumnInfo → Access → Type 0
IsOf info (cells datatype colnum natomic) = colnum ≡ info.colnum
IsOf info (bytes offset nbytes) = (offset ≡ info.offset) × (nbytes ≡ info.nbytes)

-- The values are of a type that the column takes without a conversion; bytes are taken as they are.
abbrev pub IsTaken : ColumnInfo → Access → List ℕ → Type 0
IsTaken info (cells datatype colnum natomic) values =
    (takes info.column_type datatype ≡ true) × AreOf datatype values
IsTaken info (bytes offset nbytes) values = Unit {0}

module _ {W : Type 0} (c : Cfitsio W) where
  abbrev pub put : Access → ℕ → ℤ → List ℕ → Call W ⊤
  put (cells datatype colnum natomic) f row = c.write_col f datatype colnum row 1 natomic
  put (bytes offset nbytes) f row = c.write_tblbytes f row offset nbytes

  abbrev pub get : Access → ℕ → ℤ → Call W (List ℕ)
  get (cells datatype colnum natomic) f row = c.read_col f datatype colnum row 1 natomic
  get (bytes offset nbytes) f row = c.read_tblbytes f row offset nbytes

  -- Reading the part succeeds and gives the values.
  abbrev pub Holds : ℕ → ℤ → Access → List ℕ → W → Type 0
  Holds f row part values w =
      let (status, values', _) = get part f row w in (status ≡ 0) × (values' ≡ values)

  -- The table has the row.
  abbrev pub HasRow : ℕ → ℤ → W → Type 0
  HasRow f row w =
      let (status, nrows, _) = c.get_num_rowsll f w in (status ≡ 0) × ((pos nrows <ℤ? row) ≡ false)

  -- The current HDU of the file f is a table with the columns that have `IsColumn`, none of them scaled. What is
  -- written to a part of a row of a column that takes it can be read from it, and the row is there from then on; the
  -- cells of the other columns of the row are left. Writing does not change the current HDU, and reading and counting
  -- the rows leave every cell.
  pub record StoresRows (f : ℕ) (IsColumn : ColumnInfo → Type 0) : Type 0 where
    pub puts :
        (row : ℤ) (part : Access) (info : ColumnInfo) (values : List ℕ) (w : W)
        → IsColumn info
        → IsOf info part
        → IsTaken info part values
        → let (status, _, w') = put part f row values w in
          status ≡ 0
          → Holds f row part values w' × HasRow f row w' × (c.get_hdu_num f w' ≡ c.get_hdu_num f w)
    pub puts_apart :
        (row : ℤ) (part other : Access) (info other_info : ColumnInfo) (values kept : List ℕ)
        (w : W)
        → IsColumn info
        → IsColumn other_info
        → IsOf info part
        → IsOf other_info other
        → info.colnum ≢ other_info.colnum
        → let (status, _, w') = put part f row values w in
          status ≡ 0 → Holds f row other kept w → Holds f row other kept w'
    pub gets :
        (row : ℤ) (part other : Access) (kept : List ℕ)
        → Leaves (Holds f row other kept) (get part f row)
    pub counts :
        (row : ℤ) (other : Access) (kept : List ℕ)
        → Leaves (Holds f row other kept) (c.get_num_rowsll f)
