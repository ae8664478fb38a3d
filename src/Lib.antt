-- ===== src/Lib.antt =====
-- The misfits library, a C++ layer over CFITSIO for FITS binary tables: a model of its code, and
-- theorems about it.
--
-- The program's parts and the files that model them:
--   misfits/extent.*       the shape of a cell                          Extent.antt
--   misfits/types.*        column types, storage codes, enumerations    Types.antt
--   misfits/exception.*   what is thrown, and its text                 Exception.antt, Exception/Message.antt
--   misfits/fits.*         class File, opening and moving               File.antt
--   misfits/fits_p.hpp     checked calls, resetHDU                      Store.antt, File.antt
--   misfits/hdu.*          class HDU, keywords                          Hdu.antt
--   misfits/keyword.*      Keyword and KeywordIterator                  Hdu.antt
--   misfits/columninfo.*   class ColumnInfo                             ColumnInfo.antt
--   misfits/table.*        class Table                                  Table.antt, Table/Cells.antt, Table/Copy.antt
--   misfits/bitset.*       bytes with their bits reversed               BitSet.antt
--   misfits/row_entry.*    columns bound to variables                   RowEntry.antt and RowEntry/
--   misfits/memblock.*     columns of a record in memory                MemBlock.antt
--   misfits/row.*          class Row, the cursor over rows              Row.antt
--
-- A File is opened by CFITSIO and shared by the HDU and Table objects made from it. An HDU reads
-- and writes keywords after it has made its header-data unit the current one of the file; a Table
-- is an HDU that caches a description of each of its columns, which `refresh` reads again after a
-- change; a Row takes the descriptions from its Table, and its entries move values between the
-- columns and the variables of the program.
--
-- Objects are shared by pointers, so File, HDU and Table objects live in a store (Store.antt)
-- under their addresses, with the state of CFITSIO beside them. A method is an action: from a
-- state it gives a result, which is a value or an exception, and the state that is left in either
-- case. A method has the name of the C++ method; overloads that take a name end in `_named`,
-- constructors in `_at`, `_named` and `_in_memory`.
--
-- CFITSIO is not in the repository. Cfitsio.antt is its interface, a record of routines, and
-- nothing is assumed of them there; where a theorem relies on a documented behaviour,
-- Cfitsio/Laws.antt, Cfitsio/Columns.antt for the descriptions of columns, Cfitsio/Cells.antt for
-- the cells of a row, Cfitsio/Copying.antt for the copying of columns, or Cfitsio/Resizing.antt
-- for columns that get other axes, states it as a predicate that the theorem takes as a
-- hypothesis. Where CFITSIO converts values to the type of a column, a theorem speaks of columns
-- that take the values as they are, or says that what comes of them is what CFITSIO makes of them.
-- Tests/Sim.antt is a small implementation with those behaviours, on which the definitions are
-- run. CFITSIO's stack of error messages is a state of its own, which only the constructor of
-- Exception::CFITSIO reads. The memory of the program is a type with places that are loaded and
-- stored; Row/Bound.antt has the entries of a row as bindings of a column to a place.
--
-- Numbers: LONGLONG and int are integers without bound, but for the conversions that the code
-- makes: Extent::nelem wraps at 32 bits, sizes at 64. Counts and column numbers that the code
-- keeps in unsigned types are natural numbers. Strings are lists of bytes, cut at a null character
-- where `c_str` is passed, but for the names of keywords, columns and files, which are taken to
-- hold none; values of keywords and cells that are no strings are the numbers of their bit
-- patterns. The sizes of C++ types are those of 64-bit Unix systems (LP64).
--
-- Loops over a container are recursion on the list. Four loops run on fuel: the one of
-- `dump_keywords`, which gets the number of keywords between its two iterators; the one of the
-- constructor of Exception::CFITSIO, which gets the length of its buffer, of which each round
-- takes one character at least; the loop of a client that reads all rows (`scan`), which gets one
-- call more than there are rows left; and the one that lists all columns in `copy_all_columns`,
-- which gets one more than the number of cached columns, behind which `colinfo` throws. Where the
-- code would leave what C++ defines, such as an access behind the end of a vector or to the first
-- element of an empty one, an action throws `undefined`, which stands for no exception of the
-- program.
--
-- boost::dynamic_bitset is not in the repository either: RowEntry/BitSetColumn.antt takes its
-- operations as a record, and a theorem names what it relies on of them.
--
-- Not modelled: the lifetime of shared objects, config.hpp, the tests and the build.
pub mod Prelude
pub mod Extent
pub mod Cfitsio
pub mod Exception
pub mod Types
pub mod Store
pub mod File
pub mod Hdu
pub mod ColumnInfo
pub mod Table
pub mod BitSet
pub mod RowEntry
pub mod MemBlock
pub mod Row
pub mod Tests
