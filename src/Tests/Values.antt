-- ===== src/Tests/Values.antt =====
-- Extents, column types, cells of strings and of bits.
use misfits.Prelude.{
  ℕ, ◌*◌, ◌^◌, ◌<◌, ◌≡◌, ◌↔◌, refl, arith, true, false, Every, some, List, [], ◌∷◌, length,
}
use misfits.Prelude.Int.{ℤ, pos, ◌==ℤ◌}
use misfits.Prelude.Text.{Text, text, show_int}
use misfits.Exception.{ok}
use misfits.Extent.{Extent, to_string, axes_text, nelem, extent_eq, squeeze}
use misfits.Extent.Shape.{Reshapes, extent_eq-Reshapes}
use misfits.Extent.Print.{parse_axes, parse_axes-to_string}
use misfits.Extent.Nelem.{nelem_exact_iff}
use misfits.Types.{Native, storage_code, Spec, spec_from_id, width}
use misfits.Types.NativeTypes.{
  native_type, sc_byte, storage_value, is_named, cell_size, cell_type, element_bytes,
  native_type_iff,
}
use misfits.Store.{ColumnInfo}
use misfits.ColumnInfo.{cell_bytes, column_described}
use misfits.ColumnInfo.Bytes.{column_described-cell_bytes}
use misfits.RowEntry.Strings.{fill_cell, string_of_cell, fill_cells, strings_of_cell}
use misfits.RowEntry.StringColumns.{fill_cells_roundtrip, fill_cell_roundtrip_iff}
use misfits.BitSet.{ByteIterator, copy_in, copy_out}
use misfits.BitSet.Reverse.{copy_in-copy_out}

abbrev names : List Text
names = text "AB" ∷ text "CDE" ∷ text "FGHIJ" ∷ []

fill_cells_roundtrip_example :
    (length (fill_cells 12 3 names) ≡ 12)
    × (strings_of_cell 3 3 (fill_cells 12 3 names) ≡ text "AB" ∷ text "CDE" ∷ text "FGH" ∷ [])
fill_cells_roundtrip_example = fill_cells_roundtrip 12 3 names (omega arith) (ground arith)

fill_cell_roundtrip_iff_example :
    (length (fill_cell 4 (text "AB")) ≡ 4)
    × ((string_of_cell 4 (fill_cell 4 (text "AB")) ≡ text "AB") ↔ (length (text "AB") ≡ 4))
fill_cell_roundtrip_iff_example = fill_cell_roundtrip_iff 4 (text "AB") (ground arith)

nelem_exact_iff_example :
    (nelem (pos 65536 ∷ pos 65536 ∷ []) ≡ pos (65536 * (65536 * 1)))
    ↔ (65536 * (65536 * 1) < 2 ^ 31)
nelem_exact_iff_example = nelem_exact_iff (65536 ∷ 65536 ∷ []) (omega arith, (omega arith, tt))

-- Then no element is counted.
nelem_wrapped : nelem (pos 65536 ∷ pos 65536 ∷ []) ≡ pos 0
unfolding nelem
nelem_wrapped = refl

extent_eq-Reshapes_example :
    let a : Extent = pos 3 ∷ pos 1 ∷ pos 4 ∷ [] in
    let b : Extent = pos 3 ∷ pos 4 ∷ [] in
    ((extent_eq a b ≡ true) ↔ Reshapes a b)
    × Reshapes a (squeeze a)
    × Every (λ e. (e ==ℤ pos 1) ≡ false) (squeeze a)
extent_eq-Reshapes_example = extent_eq-Reshapes (pos 3 ∷ pos 1 ∷ pos 4 ∷ []) (pos 3 ∷ pos 4 ∷ [])

parse_axes-to_string_example :
    parse_axes (to_string (pos 12 ∷ pos 0 ∷ pos 7 ∷ [])) ≡ some (12 ∷ 0 ∷ 7 ∷ [])
parse_axes-to_string_example = parse_axes-to_string 12 (0 ∷ 7 ∷ [])

printed : to_string (pos 12 ∷ pos 0 ∷ pos 7 ∷ []) ≡ text "(12,0,7)"
unfolding to_string axes_text show_int
printed = refl

-- Four bytes for an element of any type
abbrev four_bytes : Text → ℕ × ℤ
four_bytes tform = (0, pos 4)

abbrev matrix : ColumnInfo
matrix = record {
  ttype = text "M";
  tunit = [];
  column_type = Spec.long;
  offset = pos 0;
  nbytes = pos 48;
  extent = pos 3 ∷ pos 4 ∷ [];
  colnum = 2;
}

matrix_described :
    column_described four_bytes (text "M") (pos 41) [] (pos 3 ∷ pos 4 ∷ []) 2 ≡ ok matrix
unfolding column_described spec_from_id width nelem
matrix_described = refl

twelve : nelem (pos 3 ∷ pos 4 ∷ []) ≡ pos 12
unfolding nelem
twelve = refl

column_described-cell_bytes_example : pos 48 ≡ cell_bytes Spec.long (pos 3 ∷ pos 4 ∷ []) (pos 4)
column_described-cell_bytes_example =
    column_described-cell_bytes four_bytes (text "M") (pos 41) [] (pos 3 ∷ pos 4 ∷ []) 2 matrix 12 4
      matrix_described twelve refl (λ e. ground arith) (omega arith) (omega arith)

abbrev buffer : ByteIterator
buffer = record { buffer = 0 ∷ 0 ∷ 0 ∷ []; place = 1 }

copy_in-copy_out_example :
    copy_in 2 (record buffer { buffer = (copy_out (0xA1 ∷ 0x03 ∷ []) buffer).buffer })
    ≡ 0xA1 ∷ 0x03 ∷ []
copy_in-copy_out_example =
    copy_in-copy_out (0xA1 ∷ 0x03 ∷ []) buffer (omega arith, (omega arith, tt)) (omega arith)

native_type_iff_example :
    ((native_type sc_byte ≡ some Native.unsigned_char) ↔ (
      (storage_code Native.unsigned_char ≡ storage_value sc_byte)
      × (is_named Native.unsigned_char ≡ true)))
    × (cell_size (cell_type Spec.longlong) ≡ element_bytes Spec.longlong)
native_type_iff_example = native_type_iff sc_byte Native.unsigned_char Spec.longlong
