-- ===== src/RowEntry/Strings.antt =====
-- The bytes of string cells (misfits/row_entry.cc, misfits/row_entry.hpp): how Column<std::string> and
-- StringColumnVector fill their buffer, and how they take strings out of it.
use misfits.Prelude.{
  ℕ, zero, suc, ◌-◌, ◌*◌, List, [], ◌∷◌, ◌++◌, ltb, if◌then◌else◌, length, take, drop, replicate,
}
use misfits.Prelude.Text.{Text}
use misfits.Prelude.CText.{until_null}

-- Column<std::string>::write: spaces, with as much of the string as fits in front
unfoldable pub fill_cell : ℕ → Text → Text
fill_cell natomic s = take natomic s ++ replicate (natomic - length s) b' '

-- Column<std::string>::read
unfoldable pub string_of_cell : ℕ → Text → Text
unfolding until_null
string_of_cell natomic bytes = until_null (take natomic bytes)

-- StringColumnVector::write, for one string: a null behind a string that is shorter than its place.
unfoldable pub string_slot : ℕ → Text → Text
string_slot width s =
    if ltb (length s) width then s ++ (0 ∷ replicate (width - length s - 1) b' ') else take width s

unfoldable pub string_slots : ℕ → List Text → Text
unfolding string_slot
string_slots width [] = []
string_slots width (s ∷ strs) = string_slot width s ++ string_slots width strs

-- The buffer that StringColumnVector::write fills, if the strings fit
unfoldable pub fill_cells : ℕ → ℕ → List Text → Text
unfolding string_slots
fill_cells natomic width strs =
    string_slots width strs ++ replicate (natomic - length strs * width) b' '

-- StringColumnVector::read: `count` strings, each from a slot of its own
unfoldable pub strings_of_cell : ℕ → ℕ → Text → List Text
unfolding until_null
strings_of_cell zero width bytes = []
strings_of_cell (suc count) width bytes =
    until_null (take width bytes) ∷ strings_of_cell count width (drop width bytes)
