-- ===== src/Cfitsio.antt =====
-- The interface of the CFITSIO library, which the program calls and does not contain. A fitsfile* is
-- its address, zero for NULL; `W` is all the state that CFITSIO keeps. A routine takes its input
-- arguments and gives back its status, its output arguments and the new state. Strings and the values
-- of header keywords and table cells are numbers: their bytes, or the bit pattern of one value.
-- The record names the routines and assumes nothing of them; what a theorem relies on is a
-- hypothesis of that theorem, named in Cfitsio/Laws.antt.
pub mod Laws
pub mod Columns
pub mod Cells
pub mod Copying
pub mod Resizing
use misfits.Prelude.{ℕ, Bool, List}
use misfits.Prelude.Int.{ℤ}
use misfits.Prelude.Text.{Text}

abbrev pub ⊤ : Type 0
⊤ = Unit

abbrev pub Call : Type 0 → Type 0 → Type 0
Call W A = W → ℕ × A × W

-- enum HDU_Type (misfits/types.hpp), by the constants of fitsio.h that it names
pub data HduType : Type 0 where
  image ascii_table binary_table any : HduType

-- Status codes and sizes, as fitsio.h documents them.
abbrev pub readonly_file : ℕ
readonly_file = 112

abbrev pub key_no_exist : ℕ
key_no_exist = 202

abbrev pub value_undefined : ℕ
value_undefined = 204

abbrev pub flen_value : ℕ
flen_value = 71

abbrev pub flen_comment : ℕ
flen_comment = 73

pub record Cfitsio (W : Type 0) : Type 0 where
  -- files: a name and an I/O mode give a fitsfile*
  pub open_file : Text → ℕ → Call W ℕ
  pub open_diskfile : Text → ℕ → Call W ℕ
  pub open_data : Text → ℕ → Call W ℕ
  pub open_table : Text → ℕ → Call W ℕ
  pub open_image : Text → ℕ → Call W ℕ
  pub create_file : Text → Call W ℕ
  pub create_diskfile : Text → Call W ℕ
  pub close_file : ℕ → Call W ⊤
  pub flush_file : ℕ → Call W ⊤
  pub flush_buffer : ℕ → Call W ⊤
  pub reopen_file : ℕ → Call W ℕ
  -- header-data units
  pub movrel_hdu : ℕ → ℤ → Call W HduType
  pub movabs_hdu : ℕ → ℕ → Call W HduType
  pub movnam_hdu : ℕ → HduType → Text → ℤ → Call W ⊤
  pub get_num_hdus : ℕ → Call W ℕ
  pub get_hdu_num : ℕ → W → ℕ
  pub get_hdu_type : ℕ → Call W HduType
  pub copy_header : ℕ → ℕ → Call W ⊤
  pub copy_hdu : ℕ → ℕ → ℕ → Call W ⊤
  pub copy_file : ℕ → ℕ → ℕ → ℕ → ℕ → Call W ⊤
  pub delete_hdu : ℕ → Call W HduType
  -- keywords: an integer datatype code goes with a value
  pub get_hdrpos : ℕ → Call W (ℕ × ℕ)
  pub read_card : ℕ → Text → Call W ⊤
  pub read_keyn : ℕ → ℕ → Call W (Text × Text × Text)
  pub get_key_strlen : ℕ → Text → Call W ℕ
  pub read_string_key : ℕ → Text → ℕ → ℕ → Call W (Text × Text)
  pub read_key : ℕ → ℕ → Text → Call W (ℤ × Text)
  pub write_key_longwarn : ℕ → Call W ⊤
  pub update_key_longstr : ℕ → Text → Text → Text → Call W ⊤
  pub update_key_str : ℕ → Text → Text → Text → Call W ⊤
  pub update_key : ℕ → ℕ → Text → ℤ → Text → Call W ⊤
  pub delete_key : ℕ → Text → Call W ⊤
  pub write_history : ℕ → Text → Call W ⊤
  pub write_comment : ℕ → Text → Call W ⊤
  -- tables
  pub create_tbl : ℕ → HduType → ℕ → ℕ → Text → Call W ⊤
  pub get_colnum : ℕ → Bool → Text → Call W ℕ
  pub get_num_cols : ℕ → Call W ℕ
  pub get_num_rowsll : ℕ → Call W ℕ
  pub modify_vector_len : ℕ → ℕ → ℤ → Call W ⊤
  pub insert_col : ℕ → ℕ → Text → Text → Call W ⊤
  pub insert_cols : ℕ → ℕ → ℕ → List Text → List Text → Call W ⊤
  pub delete_col : ℕ → ℕ → Call W ⊤
  pub insert_rows : ℕ → ℕ → ℕ → Call W ⊤
  pub copy_col : ℕ → ℕ → ℕ → ℕ → Bool → Call W ⊤
  pub get_bcolparmsll : ℕ → ℕ → Call W (Text × Text)
  pub get_coltypell : ℕ → ℕ → Call W (ℤ × ℤ × ℤ)
  pub read_tdimll : ℕ → ℕ → ℕ → Call W (ℕ × List ℤ)
  pub write_tdimll : ℕ → ℕ → ℕ → List ℤ → Call W ⊤
  pub binary_tformll : Text → ℕ × ℤ
  -- cells: the datatype code, then column, row, first element and number of elements
  pub read_col : ℕ → ℕ → ℕ → ℤ → ℕ → ℤ → Call W (List ℕ)
  pub write_col : ℕ → ℕ → ℕ → ℤ → ℕ → ℤ → List ℕ → Call W ⊤
  pub read_tblbytes : ℕ → ℤ → ℤ → ℤ → Call W (List ℕ)
  pub write_tblbytes : ℕ → ℤ → ℤ → ℤ → List ℕ → Call W ⊤

-- The stack of error messages, kept apart from W: only the constructor of Exception::CFITSIO reads it. What
-- fits_read_errmsg gives back says whether there was a message.
pub record MessageStack (E : Type 0) : Type 0 where
  pub get_errstatus : ℕ → Text
  pub read_errmsg : E → Bool × Text × E
