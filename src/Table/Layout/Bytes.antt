-- ===== src/Table/Layout/Bytes.antt =====
-- What the layout of the cached columns gives to those who read them: Table::colinfo and the row entries that
-- address bytes of a row (misfits/table.cc, misfits/row_entry.cc).
use misfits.Prelude.{
  ℕ, zero, suc, ◌+◌, ◌<◌, ◌≡◌, refl, false, List, [], ◌∷◌, arith, get_elem?, some, none, length,
  inl, inr, ◌⊎◌, ◌≤◌,
}
use misfits.Prelude.Int.{ℤ, pos, negsuc, ◌+ℤ◌, ◌<ℤ?◌}
use misfits.Cfitsio.{Cfitsio}
use misfits.Exception.{ok, throw, out_of_range, ◌>>=◌}
use misfits.Store.{Store, ColumnInfo}
use misfits.Table.{colinfo}
use misfits.Table.Layout.Operations.{TableCall, make_calls, make_calls-AllLaidOut}
use misfits.Table.Layout.{IsLaidOut, AllLaidOut, get_elem?-IsLaidOut}

pub colinfo_laid :
    {W : Type 0} ⦃c : Cfitsio W⦄ (t n : ℕ) (s : Store W) {ci : ColumnInfo}
    → AllLaidOut s
    → (colinfo t n s).0 ≡ ok ci
    → ci.colnum ≡ n
unfolding colinfo ◌>>=◌
colinfo_laid t zero s h e = cc
colinfo_laid t (suc n) s {ci} h e =
    ground (arith, get_elem?-IsLaidOut 1 n (pos 1) (s.columns t) ci (h.at_table t))

abbrev pub AllSized : List ColumnInfo → Type 0
AllSized [] = Unit {0}
AllSized (ci ∷ cs) = ((ci.nbytes <ℤ? pos 0) ≡ false) × AllSized cs

-- A sum with a number that is not negative is not less.
not_less : (a b d : ℤ) → (b <ℤ? pos 0) ≡ false → (d <ℤ? (a +ℤ b)) ≡ false → (d <ℤ? a) ≡ false
not_less (pos a) (pos b) (pos d) h k = ground arith
not_less (pos a) (pos b) (negsuc d) h k = cc
not_less (pos a) (negsuc b) d h k = cc
not_less (negsuc a) (pos b) (pos d) h k = refl
not_less (negsuc a) (pos b) (negsuc d) h k = ground arith
not_less (negsuc a) (negsuc b) d h k = cc

not_less_self : (a : ℤ) → (a <ℤ? a) ≡ false
not_less_self (pos a) = ground arith
not_less_self (negsuc a) = ground arith

offset_from :
    (colnum idx : ℕ) (offset : ℤ) (cs : List ColumnInfo) (b : ColumnInfo)
    → IsLaidOut colnum offset cs
    → AllSized cs
    → get_elem? cs idx ≡ some b
    → (b.offset <ℤ? offset) ≡ false
offset_from colnum idx offset [] b h z e = cc
offset_from colnum zero offset (d ∷ cs) b h z e =
    let same : d ≡ b = cc in rw (← same, h.1) (not_less_self offset)
offset_from colnum (suc idx) offset (d ∷ cs) b h z e =
    not_less offset d.nbytes b.offset z.0
      (offset_from (colnum + 1) idx (offset +ℤ d.nbytes) cs b h.2 z.1 e)

no_overlap_from :
    (colnum i j : ℕ) (offset : ℤ) (cs : List ColumnInfo) (a b : ColumnInfo)
    → IsLaidOut colnum offset cs
    → AllSized cs
    → i < j
    → get_elem? cs i ≡ some a
    → get_elem? cs j ≡ some b
    → (b.offset <ℤ? (a.offset +ℤ a.nbytes)) ≡ false
no_overlap_from colnum i j offset [] a b h z lt p q = cc
no_overlap_from colnum zero zero offset (d ∷ cs) a b h z lt p q = absurd (omega arith)
no_overlap_from colnum zero (suc j) offset (d ∷ cs) a b h z lt p q =
    let same : d ≡ a = cc in
    rw (← same, h.1) (offset_from (colnum + 1) j (offset +ℤ d.nbytes) cs b h.2 z.1 q)
no_overlap_from colnum (suc i) zero offset (d ∷ cs) a b h z lt p q = absurd (omega arith)
no_overlap_from colnum (suc i) (suc j) offset (d ∷ cs) a b h z lt p q =
    no_overlap_from (colnum + 1) i j (offset +ℤ d.nbytes) cs a b h.2 z.1 (omega arith) p q

get_elem?-cases :
    (idx : ℕ) (cs : List ColumnInfo)
    → ((idx < length cs) × (ci : ColumnInfo) × (get_elem? cs idx ≡ some ci))
      ⊎ ((length cs ≤ idx) × (get_elem? cs idx ≡ none))
get_elem?-cases idx [] = inr (omega arith, refl)
get_elem?-cases zero (ci ∷ cs) = inl (omega arith, ci, refl)
get_elem?-cases (suc idx) (ci ∷ cs) = elim (get_elem?-cases idx cs) [
  | inl (there, ci', e) ↦ inl (omega arith, ci', e)
  | inr (not_there, e) ↦ inr (omega arith, e)
]

module _ {W : Type 0} ⦃c : Cfitsio W⦄ where
  colinfo_found :
      (t n : ℕ) (s : Store W)
      → AllLaidOut s
      → let r = (colinfo t n s).0 in
        ((0 < n) × (n ≤ length (s.columns t)) × (ci : ColumnInfo) × (r ≡ ok ci) × (ci.colnum ≡ n))
        ⊎ (((n ≡ 0) ⊎ (length (s.columns t) < n)) × (r ≡ throw out_of_range))
  unfolding colinfo ◌>>=◌
  colinfo_found t zero s h = inr (inl refl, refl)
  colinfo_found t (suc n) s h = elim (get_elem?-cases n (s.columns t)) [
    | inl (there, ci, e) ↦
        let found : (colinfo t (suc n) s).0 ≡ ok ci = rw e refl in
        inl (omega arith, omega arith, ci, found, colinfo_laid t (suc n) s h found)
    | inr (not_there, e) ↦ inr (inr (omega arith), rw e refl)
  ]

  -- From a state whose tables are laid out, and after any calls of their methods, `colinfo` finds a description under
  -- the numbers from one up to the count of the cached columns, and it says of itself that it is of that number; under
  -- any other number it throws.
  pub colinfo_colnum :
      (calls : List (ℕ × TableCall)) (t n : ℕ) (s : Store W)
      → AllLaidOut s
      → let s' = make_calls calls s in
        let r = (colinfo t n s').0 in
        ((0 < n) × (n ≤ length (s'.columns t)) × (ci : ColumnInfo) × (r ≡ ok ci) × (ci.colnum ≡ n))
        ⊎ (((n ≡ 0) ⊎ (length (s'.columns t) < n)) × (r ≡ throw out_of_range))
  colinfo_colnum calls t n s h =
      colinfo_found t n (make_calls calls s) (make_calls-AllLaidOut calls s h)

  -- From a state whose tables are laid out, and after any calls of their methods, the later one of two columns of a table
  -- starts at or behind the end of the earlier one, if no column of the table has a negative size: their bytes do not
  -- overlap.
  pub columns_no_overlap :
      (calls : List (ℕ × TableCall)) (t i j : ℕ) (s : Store W) {a b : ColumnInfo}
      → AllLaidOut s
      → AllSized ((make_calls calls s).columns t)
      → i < j
      → get_elem? ((make_calls calls s).columns t) i ≡ some a
      → get_elem? ((make_calls calls s).columns t) j ≡ some b
      → (b.offset <ℤ? (a.offset +ℤ a.nbytes)) ≡ false
  columns_no_overlap calls t i j s {a} {b} h z =
      let s' = make_calls calls s in
      no_overlap_from 1 i j (pos 1) (s'.columns t) a b
        ((make_calls-AllLaidOut calls s h).at_table t) z
