-- ===== src/Table/Layout.antt =====
-- The cached columns of a table (Table::refresh in misfits/table.cc) stand in the row one behind the other.
pub mod Frame
pub mod Refresh
pub mod Steps
pub mod Columns
pub mod Copying
pub mod Operations
pub mod Bytes
pub mod Stale
use misfits.Prelude.{
  ℕ, zero, suc, ◌+◌, ◌≡◌, refl, List, [], ◌∷◌, ◌++◌, arith, length, get_elem?, some,
}
use misfits.Prelude.Int.{ℤ, pos, ◌+ℤ◌}
use misfits.Store.{Store, ColumnInfo}

-- Columns that are numbered from `colnum` on, the first at `offset` and each other behind the one before it
abbrev pub IsLaidOut : ℕ → ℤ → List ColumnInfo → Type 0
IsLaidOut colnum offset [] = Unit {0}
IsLaidOut colnum offset (ci ∷ cs) =
    (ci.colnum ≡ colnum) × (ci.offset ≡ offset) × IsLaidOut (colnum + 1) (offset +ℤ ci.nbytes) cs

-- The offset behind the last column
abbrev pub end_offset : ℤ → List ColumnInfo → ℤ
end_offset offset [] = offset
end_offset offset (ci ∷ cs) = end_offset (offset +ℤ ci.nbytes) cs

-- Every table's columns are numbered from one, and the first starts at the first byte of the row.
pub record AllLaidOut {W : Type 0} (s : Store W) : Type 0 where
  pub at_table : (t : ℕ) → IsLaidOut 1 (pos 1) (s.columns t)

pub IsLaidOut-snoc :
    (colnum : ℕ) (offset : ℤ) (cs : List ColumnInfo) (ci : ColumnInfo)
    → IsLaidOut colnum offset cs
    → ci.colnum ≡ colnum + length cs
    → ci.offset ≡ end_offset offset cs
    → IsLaidOut colnum offset (cs ++ (ci ∷ []))
IsLaidOut-snoc colnum offset [] ci h n o = (omega arith, o, tt)
IsLaidOut-snoc colnum offset (d ∷ cs) ci h n o =
    (h.0, h.1, IsLaidOut-snoc (colnum + 1) (offset +ℤ d.nbytes) cs ci h.2 (omega arith) o)

pub end_offset-snoc :
    (offset : ℤ) (cs : List ColumnInfo) (ci : ColumnInfo)
    → end_offset offset (cs ++ (ci ∷ [])) ≡ end_offset offset cs +ℤ ci.nbytes
end_offset-snoc offset [] ci = refl
end_offset-snoc offset (d ∷ cs) ci = end_offset-snoc (offset +ℤ d.nbytes) cs ci

pub get_elem?-IsLaidOut :
    (colnum idx : ℕ) (offset : ℤ) (cs : List ColumnInfo) (ci : ColumnInfo)
    → IsLaidOut colnum offset cs
    → get_elem? cs idx ≡ some ci
    → ci.colnum ≡ colnum + idx
get_elem?-IsLaidOut colnum idx offset [] ci h e = cc
get_elem?-IsLaidOut colnum zero offset (d ∷ cs) ci h e = ground arith
get_elem?-IsLaidOut colnum (suc idx) offset (d ∷ cs) ci h e =
    omega (arith, get_elem?-IsLaidOut (colnum + 1) idx (offset +ℤ d.nbytes) cs ci h.2 e)
