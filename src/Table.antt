-- ===== src/Table.antt =====
-- class Table (misfits/table.hpp, misfits/table.cc): the columns and rows of a table, and the functions of
-- class File that make HDU and Table objects (misfits/fits.cc). A Table is named by its address.
pub mod Copy
pub mod Layout
pub mod Watched
pub mod Reading
pub mod Listed
pub mod Added
pub mod Deleted
pub mod Tdim
pub mod Resized
pub mod Cells
use misfits.Prelude.{
  ℕ, zero, suc, ◌+◌, ◌-◌, Bool, true, false, not, List, [], ◌∷◌, ◌++◌, ltb, ◌==◌, length, get_elem?,
  if◌then◌else◌,
}
use misfits.Prelude.Int.{ℤ, pos, ◌+ℤ◌}
use misfits.Prelude.Text.{Text, text, show_nat}
use misfits.Extent.{Extent, nelem, naxes, squeeze, extent_eq, to_string}
use misfits.Cfitsio.{⊤, Cfitsio, HduType, any, binary_table, ascii_table}
use misfits.Exception.{
  assert, out_of_range, Action, pure, raise, gets, modify, ◌>>=◌, ◌>>◌, throw_if, or_throw,
  lift_result,
}
use misfits.Types.{FlushMode, int}
use misfits.Types.FileCopy
use misfits.Store.{Store, Hdu, ColumnInfo, call, check, fptr, set_hdu, set_columns}
use misfits.File.{hdu_num, hdu_type}
use misfits.File
use misfits.Hdu.{
  set_as_chdu, hdu_refresh, hdu_at, hdu_named, hdu_in_memory, has_keyword, get_keyword_string,
  set_keyword_string, set_keyword, delete_keyword, keyword,
}
use misfits.ColumnInfo.{init, insert, column_described}

abbrev pub is_table : HduType → Bool
is_table binary_table = true
is_table ascii_table = true
is_table _ = false

module _ {W : Type 0} ⦃c : Cfitsio W⦄ where
  abbrev pub set_table_as_chdu : ℕ → Action (Store W) ⊤
  set_table_as_chdu t = do hdu ← gets (λ s. s.hdus t); set_as_chdu hdu

  unfoldable pub num_columns : ℕ → Action (Store W) ℕ
  num_columns t = do
    set_table_as_chdu t
    file ← gets (λ s. (s.hdus t).file)
    fitsptr ← gets (fptr file)
    check (c.get_num_cols fitsptr)

  unfoldable pub num_rows : ℕ → Action (Store W) ℕ
  num_rows t = do
    set_table_as_chdu t
    file ← gets (λ s. (s.hdus t).file)
    fitsptr ← gets (fptr file)
    check (c.get_num_rowsll fitsptr)

  -- The loop of `refresh`, over the columns that are left: each is described and pushed, and the offset
  -- grows by its bytes.
  unfoldable pub push_columns : ℕ → ℕ → ℕ → ℤ → Action (Store W) ⊤
  push_columns zero t colnum offset = pure tt
  push_columns (suc left) t colnum offset = do
    file ← gets (λ s. (s.hdus t).file)
    ci ← init file offset colnum
    columns ← gets (λ s. s.columns t)
    modify (set_columns t (columns ++ (ci ∷ [])))
    push_columns left t (colnum + 1) (offset +ℤ ci.nbytes)

  unfoldable pub refresh : ℕ → Action (Store W) ⊤
  refresh t = do
    set_table_as_chdu t
    file ← gets (λ s. (s.hdus t).file)
    kind ← hdu_type file
    throw_if (not (is_table kind)) (assert (text "Expected CHDU to be a table, but it's not"))
    hdu_refresh t
    ncols ← num_columns t
    modify (set_columns t [])
    push_columns ncols t 1 (pos 1)

  -- The constructors of a table of a file
  unfoldable pub table_at : ℕ → ℕ → Action (Store W) ℕ
  table_at file hdu_num_ = do t ← hdu_at file hdu_num_; refresh t; pure t

  unfoldable pub table_named : ℕ → Text → ℤ → Action (Store W) ℕ
  table_named file extname extver = do t ← hdu_named file extname extver; refresh t; pure t

  -- `Table( extname, extver )`: a new binary table with no column, in a file in memory
  unfoldable pub table_in_memory : Text → ℤ → Action (Store W) ℕ
  table_in_memory extname extver = do
    t ← hdu_in_memory
    hdu ← gets (λ s. s.hdus t)
    fitsptr ← gets (fptr hdu.file)
    check (c.create_tbl fitsptr binary_table 0 0 extname)
    here ← gets (hdu_num hdu.file)
    let moved : Hdu = record hdu { hdu_num = here }
    modify (set_hdu t moved)
    set_keyword int moved (keyword (text "EXTVER") extver [] true)
    refresh t
    pure t

  -- `has_column` takes any status but zero for a no.
  unfoldable pub has_column : ℕ → Text → Action (Store W) Bool
  has_column t templt = do
    set_table_as_chdu t
    file ← gets (λ s. (s.hdus t).file)
    fitsptr ← gets (fptr file)
    (status, _) ← call (c.get_colnum fitsptr false templt)
    pure (status == 0)

  -- `exists_column`, which is deprecated. Its message on the standard error is left out.
  unfoldable pub exists_column : ℕ → Text → Action (Store W) Bool
  exists_column = has_column

  -- `columns.at( colnum - 1 )`: where the number is zero the index wraps to the largest one.
  abbrev pub nth_column : List ColumnInfo → ℕ → Action (Store W) ColumnInfo
  nth_column columns zero = raise out_of_range
  nth_column columns (suc idx) = or_throw (get_elem? columns idx) out_of_range

  unfoldable pub colinfo : ℕ → ℕ → Action (Store W) ColumnInfo
  colinfo t colnum = do columns ← gets (λ s. s.columns t); nth_column columns colnum

  unfoldable pub colinfo_named : ℕ → Text → Action (Store W) ColumnInfo
  colinfo_named t colname = do
    set_table_as_chdu t
    file ← gets (λ s. (s.hdus t).file)
    fitsptr ← gets (fptr file)
    colnum ← check (c.get_colnum fitsptr false colname)
    colinfo t colnum

  -- `if ( colnum == 0 ) colnum = num_columns() + 1;`
  unfoldable pub column_place : ℕ → ℕ → Action (Store W) ℕ
  column_place t colnum = do
    let last = do n ← num_columns t; pure (n + 1)
    if colnum == 0 then last else pure colnum

  -- `add( const ColumnInfo& )`
  unfoldable pub add : ℕ → ColumnInfo → Action (Store W) ⊤
  add t ci = do
    set_table_as_chdu t
    place ← column_place t ci.colnum
    file ← gets (λ s. (s.hdus t).file)
    insert (record ci { colnum = place }) file
    refresh t

  -- `add( ttype, column_type, tunit, extent, colnum )`
  unfoldable pub add_described : ℕ → Text → ℤ → Text → Extent → ℕ → Action (Store W) ⊤
  add_described t ttype column_type tunit extent colnum = do
    set_table_as_chdu t
    place ← column_place t colnum
    ci ← lift_result (column_described c.binary_tformll ttype column_type tunit extent place)
    file ← gets (λ s. (s.hdus t).file)
    insert ci file
    refresh t

  -- What `resize` does about the TDIM keyword
  unfoldable pub update_tdim : Hdu → Text → Extent → Action (Store W) ⊤
  update_tdim hdu tdim_key extent = do
    found ← has_keyword hdu tdim_key
    let drop = if found then delete_keyword hdu tdim_key else pure tt
    let replace = do
      old ← get_keyword_string hdu tdim_key []
      set_keyword_string hdu (keyword tdim_key (to_string extent) old.comment true)
    let write =
        if found
        then replace
        else set_keyword_string hdu (keyword tdim_key (to_string extent) [] true)
    if naxes (squeeze extent) == 1 then drop else write

  unfoldable pub resize : ℕ → ℕ → Extent → Action (Store W) ⊤
  resize t colnum extent = do
    set_table_as_chdu t
    hdu ← gets (λ s. s.hdus t)
    info ← colinfo t colnum
    fitsptr ← gets (fptr hdu.file)
    let change = do
      check (c.modify_vector_len fitsptr colnum (nelem extent))
      update_tdim hdu (text "TDIM" ++ show_nat colnum) extent
      refresh t
    if extent_eq info.extent extent then pure tt else change

  unfoldable pub resize_named : ℕ → Text → Extent → Action (Store W) ⊤
  resize_named t name extent = do info ← colinfo_named t name; resize t info.colnum extent

  unfoldable pub delete_column : ℕ → ℕ → Action (Store W) ⊤
  delete_column t colnum = do
    set_table_as_chdu t
    file ← gets (λ s. (s.hdus t).file)
    fitsptr ← gets (fptr file)
    check (c.delete_col fitsptr colnum)
    refresh t

  -- `delete_column( name )` does not call `refresh`.
  unfoldable pub delete_column_named : ℕ → Text → Action (Store W) ⊤
  delete_column_named t name = do
    set_table_as_chdu t
    info ← colinfo_named t name
    file ← gets (λ s. (s.hdus t).file)
    fitsptr ← gets (fptr file)
    check (c.delete_col fitsptr info.colnum)

  unfoldable pub flush : ℕ → FlushMode → Action (Store W) ⊤
  flush t mode = do file ← gets (λ s. (s.hdus t).file); File.flush file mode
