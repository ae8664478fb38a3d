-- ===== src/Table/Copy/Flags.antt =====
-- struct ColumnCopy (misfits/table.hpp): the flags of Table::copy_columns.
use misfits.Prelude.{ℕ}

abbrev pub no_duplicates : ℕ
no_duplicates = 0x01

abbrev pub replace : ℕ
replace = 0x02

abbrev pub over_write : ℕ
over_write = 0x03

abbrev pub extend_table : ℕ
extend_table = 0x10

abbrev pub extend_table_if_empty : ℕ
extend_table_if_empty = 0x20

abbrev pub flag_mask : ℕ
flag_mask = 0x0f
