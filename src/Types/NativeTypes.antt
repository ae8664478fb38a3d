-- ===== src/Types/NativeTypes.antt =====
-- The C++ types that stand for codes of CFITSIO and for column types (StorageCode, NativeType and
-- ColumnType::ID::NativeType in misfits/types.hpp), with the sizes that they have where `int` has 32 bits and `long`
-- has 64.
use misfits.Prelude.{ℕ, ◌≡◌, ◌↔◌, Bool, true, false, Option, none, some, arith}
use misfits.Types.{Native, Spec, storage_code}

-- enum StorageType
pub data StorageType : Type 0 where
  sc_byte sc_double sc_float sc_int sc_long sc_longlong : StorageType
  sc_short sc_string sc_uint sc_ulong sc_ushort sc_logical sc_undef : StorageType

-- The values of CFITSIO's constants that the enumerators have
unfoldable pub storage_value : StorageType → ℕ
storage_value sc_byte = 11
storage_value sc_double = 82
storage_value sc_float = 42
storage_value sc_int = 31
storage_value sc_long = 41
storage_value sc_longlong = 81
storage_value sc_short = 21
storage_value sc_string = 16
storage_value sc_uint = 30
storage_value sc_ulong = 40
storage_value sc_ushort = 20
storage_value sc_logical = 14
storage_value sc_undef = 0

-- NativeType<S>::storage_type, for the S that have a specialization
unfoldable pub native_type : StorageType → Option Native
native_type sc_double = some Native.double
native_type sc_float = some Native.float
native_type sc_int = some Native.int
native_type sc_long = some Native.long
native_type sc_short = some Native.short
native_type sc_byte = some Native.unsigned_char
native_type sc_uint = some Native.unsigned_int
native_type sc_ulong = some Native.unsigned_long
native_type sc_ushort = some Native.unsigned_short
native_type sc_logical = some Native.bool
native_type sc_longlong = none
native_type sc_string = none
native_type sc_undef = none

-- ColumnType::ID::NativeType<ID>::storage_type. A cell of bits is a BitSet.
pub data CellType : Type 0 where
  values : Native → CellType
  bit_set : CellType

unfoldable pub cell_type : Spec → CellType
cell_type Spec.bit = bit_set
cell_type Spec.byte = values Native.unsigned_char
cell_type Spec.logical = values Native.bool
cell_type Spec.string = values Native.string
cell_type Spec.short = values Native.short
cell_type Spec.long = values Native.int
cell_type Spec.longlong = values Native.long
cell_type Spec.float = values Native.float
cell_type Spec.double = values Native.double
cell_type Spec.ushort = values Native.unsigned_short
cell_type Spec.ulong = values Native.unsigned_int

-- The types that no specialization of NativeType names
abbrev pub is_named : Native → Bool
is_named Native.char = false
is_named Native.longlong = false
is_named Native.string = false
is_named _ = true

-- sizeof
abbrev pub size_of : Native → Option ℕ
size_of Native.double = some 8
size_of Native.float = some 4
size_of Native.int = some 4
size_of Native.unsigned_int = some 4
size_of Native.long = some 8
size_of Native.unsigned_long = some 8
size_of Native.longlong = some 8
size_of Native.short = some 2
size_of Native.unsigned_short = some 2
size_of Native.char = some 1
size_of Native.unsigned_char = some 1
size_of Native.bool = some 1
size_of Native.string = none

abbrev pub cell_size : CellType → Option ℕ
cell_size (values T) = size_of T
cell_size bit_set = none

-- The bytes that the FITS standard gives an element of a column. A bit has none of its own, and a string as many as
-- the column says.
abbrev pub element_bytes : Spec → Option ℕ
element_bytes Spec.bit = none
element_bytes Spec.byte = some 1
element_bytes Spec.logical = some 1
element_bytes Spec.string = none
element_bytes Spec.short = some 2
element_bytes Spec.long = some 4
element_bytes Spec.longlong = some 8
element_bytes Spec.float = some 4
element_bytes Spec.double = some 8
element_bytes Spec.ushort = some 2
element_bytes Spec.ulong = some 4

code_of_native :
    (S : StorageType) (T : Native)
    → native_type S ≡ some T
    → (storage_code T ≡ storage_value S) × (is_named T ≡ true)
unfolding native_type storage_code storage_value
code_of_native S T h = ground arith

native_of_code :
    (S : StorageType) (T : Native)
    → storage_code T ≡ storage_value S
    → is_named T ≡ true
    → native_type S ≡ some T
unfolding native_type storage_code storage_value
native_of_code S T h k = ground arith

-- NativeType undoes StorageCode: it names the type T for the code S exactly when S is the code of T, and T is not `char`,
-- LONGLONG or std::string, which it never names. The type that stands for a column type has as many bytes as an element of
-- the column.
pub native_type_iff :
    (S : StorageType) (T : Native) (s : Spec)
    → ((native_type S ≡ some T) ↔ ((storage_code T ≡ storage_value S) × (is_named T ≡ true)))
      × (cell_size (cell_type s) ≡ element_bytes s)
unfolding cell_type
native_type_iff S T s = ((code_of_native S T, λ h. native_of_code S T h.0 h.1), ground arith)
