-- ===== src/Tests.antt =====
-- Runs of the definitions, and the theorems at concrete inputs. Sim is a small CFITSIO to run them on.
pub mod Sim
pub mod Tables
mod Copies
mod Errors
mod Columns
mod Edits
mod Resizes
mod Headers
mod Rows
mod WholeRow
mod Strings
mod Bits
mod Values
