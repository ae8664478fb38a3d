-- ===== src/ColumnInfo.antt =====
-- class ColumnInfo (misfits/columninfo.hpp, misfits/columninfo.cc): the description of a column. The
-- record stands in Store.antt. misFITS_CHECK_CFITSIO_EXPR calls run in the order of the source.
pub mod Bytes
pub mod Inserted
pub mod ReadBack
pub mod ReadOnly
use misfits.Prelude.{
  ℕ, zero, suc, ◌^◌, ◌-◌, Bool, true, false, ◌&&◌, not, List, [], ◌∷◌, ◌++◌, ltb, ◌==◌,
  if◌then◌else◌, replicate,
}
use misfits.Prelude.Int.{ℤ, pos, negsuc, ◌+ℤ◌, ◌*ℤ◌, ◌<ℤ?◌, ◌==ℤ◌, quot_ℤ, quot, to_size, signed64}
use misfits.Prelude.Text.{Text, text, show_int}
use misfits.Extent.{Extent, nelem, naxes, squeeze, extent_eq}
use misfits.Cfitsio.{⊤, Cfitsio, HduType, binary_table, readonly_file}
use misfits.Exception.{
  assert, cfitsio, undefined, Result, ok, throw, Action, pure, raise, gets, ◌>>=◌, ◌>>◌, throw_if,
  lift_result, bind_result,
}
use misfits.Types.{Spec, is_bit, is_string, spec_id, spec_code, spec_from_id, width}
use misfits.Store.{Store, ColumnInfo, check, fptr}
use misfits.File.{hdu_type, is_read_only}

-- operator == of ColumnInfo
unfoldable pub column_eq : ColumnInfo → ColumnInfo → Bool
unfolding extent_eq spec_id
column_eq self col =
    (spec_id col.column_type ==ℤ spec_id self.column_type) && extent_eq col.extent self.extent

-- operator != of ColumnInfo
unfoldable pub column_ne : ColumnInfo → ColumnInfo → Bool
column_ne self col = not (column_eq self col)

-- The last part of `init`: the bytes of a cell.
unfoldable pub cell_bytes : Spec → Extent → ℤ → ℤ
unfolding nelem
cell_bytes spec extent width =
    let nelem_ = nelem extent in
    let whole = quot nelem_ 8 in
    if is_bit spec
    then (if (whole *ℤ pos 8) <ℤ? nelem_ then whole +ℤ pos 1 else whole)
    else nelem_ *ℤ (if is_string spec then pos 1 else width)

-- `extent.resize( n )` followed by a call that writes `axes` from its first place on
abbrev pub written : ℕ → Extent → Extent
written zero axes = []
written (suc n) [] = pos 0 ∷ written n []
written (suc n) (e ∷ axes) = e ∷ written n axes

abbrev pub is_binary_table : HduType → Bool
is_binary_table binary_table = true
is_binary_table _ = false

-- `tform`: the count of elements, if it is above one, and the letter of the type
unfoldable pub tform : ColumnInfo → Text
unfolding nelem show_int spec_code
tform ci =
    let letter : Text = spec_code ci.column_type ∷ [] in
    if pos 1 <ℤ? nelem ci.extent then show_int (nelem ci.extent) ++ letter else letter

-- The constructor from a description. `offset` is left unset; it is zero here.
unfoldable pub column_described : (Text → ℕ × ℤ) → Text → ℤ → Text → Extent → ℕ → Result ColumnInfo
unfolding spec_from_id width nelem
column_described binary_tformll type column_type unit extent colnum =
    bind_result (spec_from_id column_type) λ spec.
      bind_result (width binary_tformll spec (to_size (nelem extent))) λ bytes. ok (record {
        ttype = type;
        tunit = unit;
        column_type = spec;
        offset = pos 0;
        nbytes = signed64 bytes;
        extent = extent;
        colnum = colnum;
      })

module _ {W : Type 0} ⦃c : Cfitsio W⦄ where
  -- The extent of a column. CFITSIO gives one axis for a string column with no TDIM.
  unfoldable pub read_extent : ℕ → ℕ → Spec → ℤ → ℤ → Action (Store W) Extent
  read_extent file colnum spec repeat width = do
    fitsptr ← gets (fptr file)
    (naxis, _) ← check (c.read_tdimll fitsptr colnum 0)
    let from_header = do
      (_, axes) ← check (c.read_tdimll fitsptr colnum naxis)
      pure (written naxis axes)
    let strings = do throw_if (width ==ℤ pos 0) undefined; pure (width ∷ quot_ℤ repeat width ∷ [])
    if is_string spec && naxis == 1 then strings else from_header

  -- `init`, of a ColumnInfo whose offset and number the constructor has set
  unfoldable pub init : ℕ → ℤ → ℕ → Action (Store W) ColumnInfo
  init file offset colnum = do
    kind ← hdu_type file
    throw_if (not (is_binary_table kind)) (assert (text "only Binary Tables are supported"))
    fitsptr ← gets (fptr file)
    (ttype, tunit) ← check (c.get_bcolparmsll fitsptr colnum)
    (typecode, repeat, width) ← check (c.get_coltypell fitsptr colnum)
    spec ← lift_result (spec_from_id typecode)
    extent ← read_extent file colnum spec repeat width
    pure (record {
      ttype = ttype;
      tunit = tunit;
      column_type = spec;
      offset = offset;
      nbytes = cell_bytes spec extent width;
      extent = extent;
      colnum = colnum;
    })

  -- The constructor from a column's name
  unfoldable pub column_named : ℕ → Text → ℤ → Action (Store W) ColumnInfo
  column_named file ttype offset = do
    fitsptr ← gets (fptr file)
    colnum ← check (c.get_colnum fitsptr false ttype)
    init file offset colnum

  -- `insert`: a TDIM keyword is written only where there is more than one axis above one.
  unfoldable pub insert : ColumnInfo → ℕ → Action (Store W) ⊤
  insert ci file = do
    entry ← gets (λ s. s.files file)
    throw_if (is_read_only entry.mode) (cfitsio readonly_file)
    check (c.insert_col entry.fitsptr ci.colnum ci.ttype (tform ci))
    let dims = check (c.write_tdimll entry.fitsptr ci.colnum (naxes ci.extent) ci.extent)
    if ltb 1 (naxes (squeeze ci.extent)) then dims else pure tt
