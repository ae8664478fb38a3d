-- ===== src/Types.antt =====
-- misfits/types.hpp and misfits/types.cc: the codes of data types and of column types, and the other
-- enumerations.
pub mod FileCopy
pub mod Laws
pub mod NativeTypes
use misfits.Prelude.{ℕ, ◌*◌, ◌+◌, ◌/◌, ◌%◌, ◌^◌, ◌==◌, Bool, [], ◌∷◌, if◌then◌else◌, ltb}
use misfits.Prelude.Int.{ℤ, pos, negsuc, to_size}
use misfits.Prelude.Text.{Text, text}
use misfits.Exception.{assert, cfitsio, Result, ok, throw}

-- The C++ types over which the templates are instantiated.
pub data Native : Type 0 where
  double float int unsigned_int long unsigned_long longlong short unsigned_short : Native
  char unsigned_char bool string : Native

-- StorageCode<T>::type, with the value of the StorageType that it names
unfoldable pub storage_code : Native → ℕ
storage_code double = 82
storage_code float = 42
storage_code int = 31
storage_code unsigned_int = 30
storage_code long = 41
storage_code unsigned_long = 40
storage_code longlong = 81
storage_code short = 21
storage_code unsigned_short = 20
storage_code char = 11
storage_code unsigned_char = 11
storage_code bool = 14
storage_code string = 16

-- The column types that have an implementation, `Impl<ID>`; ColumnType::SpecPtr points to one.
pub data Spec : Type 0 where
  bit byte logical string short long longlong float double ushort ulong : Spec

-- Impl<T>::id. `UShort` and `ULong` follow `DoubleComplex` (163) in the enumeration.
unfoldable pub spec_id : Spec → ℤ
spec_id bit = pos 1
spec_id byte = pos 11
spec_id logical = pos 14
spec_id string = pos 16
spec_id short = pos 21
spec_id long = pos 41
spec_id longlong = pos 81
spec_id float = pos 42
spec_id double = pos 82
spec_id ushort = pos 164
spec_id ulong = pos 165

-- Impl<T>::code
unfoldable pub spec_code : Spec → ℕ
spec_code bit = b'X'
spec_code byte = b'B'
spec_code logical = b'L'
spec_code string = b'A'
spec_code short = b'I'
spec_code long = b'J'
spec_code longlong = b'K'
spec_code float = b'E'
spec_code double = b'D'
spec_code ushort = b'U'
spec_code ulong = b'V'

spec_from_nat : ℕ → Result Spec
spec_from_nat id =
    if id == 1
    then ok bit
    else if id == 11
    then ok byte
    else if id == 14
    then ok logical
    else if id == 16
    then ok string
    else if id == 21
    then ok short
    else if id == 41
    then ok long
    else if id == 81
    then ok longlong
    else if id == 42
    then ok float
    else if id == 82
    then ok double
    else if id == 164
    then ok ushort
    else if id == 165
    then ok ulong
    else throw (assert (text "unknown type id"))

-- `spec_from_id`: a switch over the id
unfoldable pub spec_from_id : ℤ → Result Spec
unfolding spec_from_nat
spec_from_id (pos id) = spec_from_nat id
spec_from_id (negsuc n) = throw (assert (text "unknown type id"))

abbrev pub is_bit : Spec → Bool
is_bit bit = Bool.true
is_bit _ = Bool.false

abbrev pub is_string : Spec → Bool
is_string string = Bool.true
is_string _ = Bool.false

-- The bytes of a bit field: the branch of `Spec::width` for `Bit`.
unfoldable pub bit_width : ℕ → ℕ
bit_width repeat = let width = repeat / 8 in if ltb (width * 8) repeat then width + 1 else width

-- `Spec::width`, in size_t. `binary_tformll`, of CFITSIO, gives the width of one element of any other type.
unfoldable pub width : (Text → ℕ × ℤ) → Spec → ℕ → Result ℕ
unfolding bit_width spec_code
width binary_tformll spec repeat =
    let (status, one) = binary_tformll (spec_code spec ∷ []) in
    if is_bit spec
    then ok (bit_width repeat)
    else if status == 0
    then ok ((to_size one * repeat) % 2 ^ 64)
    else throw (cfitsio status)

pub data OpenMode : Type 0 where
  read_only read_write : OpenMode

-- The value of READONLY and READWRITE of fitsio.h
abbrev pub mode_code : OpenMode → ℕ
mode_code read_only = 0
mode_code read_write = 1

pub data FlushMode : Type 0 where
  file buffer : FlushMode
