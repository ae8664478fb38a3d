-- ===== src/Extent/Nelem.antt =====
-- The number of elements of an extent (Extent::nelem in misfits/extent.cc).
use misfits.Prelude.{
  ℕ, ◌+◌, ◌*◌, ◌^◌, ◌<◌, ◌≤◌, ◌≡◌, refl, sym, ap, ◌∙◌, ◌↔◌, List, [], ◌∷◌, map, foldl, arith, inl,
  inr, true, Bool-cases,
}
use misfits.Prelude.Int.{
  ℤ, pos, negsuc, neg, ◌*ℤ◌, ◌==ℤ◌, ==ℤ_eq, to_int, to_int_small, to_int_idem,
}
use mathlib.Core.Path.{subst}
use native.Mathlib.Nat.{mul_assoc, one-mul, mul-one, mul-pos, le-mul_of_pos_right}
use native.Mathlib.Numerals.{add-one}
use misfits.Extent.{Extent, nelem, times_int, squeeze, extent_eq, vector_eq_sound}

-- The axes multiplied with no bound on the result.
abbrev pub product : List ℕ → ℕ
product [] = 1
product (n ∷ ns) = n * product ns

abbrev pub AllPositive : List ℕ → Type 0
AllPositive [] = Unit {0}
AllPositive (n ∷ ns) = (1 ≤ n) × AllPositive ns

pub product_pos : (ns : List ℕ) → AllPositive ns → 0 < product ns
product_pos [] p = omega arith
product_pos (n ∷ ns) p = mul-pos p.0 (product_pos ns p.1)

foldl-times_int :
    (acc : ℕ) (ns : List ℕ)
    → AllPositive ns
    → acc * product ns < 2 ^ 31
    → foldl times_int (pos acc) (map pos ns) ≡ pos (acc * product ns)
foldl-times_int acc [] p h = sym (ap pos (mul-one acc))
foldl-times_int acc (n ∷ ns) p h =
    let grows : acc * n ≤ acc * n * product ns =
      le-mul_of_pos_right (acc * n) (product_pos ns p.1) in
    let regroup : acc * n * product ns ≡ acc * product (n ∷ ns) = mul_assoc acc n (product ns) in
    ap (λ z. foldl times_int z (map pos ns)) (to_int_small (acc * n) (omega arith))
    ∙ foldl-times_int (acc * n) ns p.1 (omega arith)
    ∙ ap pos regroup

abbrev IsInt : ℤ → Type 0
IsInt (pos n) = n < 2 ^ 31
IsInt (negsuc n) = n < 2 ^ 31

to_int-IsInt : (z : ℤ) → IsInt (to_int z)
to_int-IsInt (pos n) = ground arith
to_int-IsInt (negsuc n) = ground arith

foldl-IsInt : (acc : ℤ) (e : Extent) → IsInt acc → IsInt (foldl times_int acc e)
foldl-IsInt acc [] h = h
foldl-IsInt acc (x ∷ e) h = foldl-IsInt (times_int acc x) e (to_int-IsInt (acc *ℤ x))

nelem-IsInt : (e : Extent) → IsInt (nelem e)
unfolding nelem
nelem-IsInt e = foldl-IsInt (pos 1) e (omega arith)

-- For positive axes `nelem` is the product of the axes exactly when that product is below 2 ^ 31: the running product
-- is kept in an `int`, although it is returned as a LONGLONG.
pub nelem_exact_iff :
    (ns : List ℕ) → AllPositive ns → (nelem (map pos ns) ≡ pos (product ns)) ↔ (product ns < 2 ^ 31)
unfolding nelem
nelem_exact_iff ns p = (
  λ e. subst IsInt e (foldl-IsInt (pos 1) (map pos ns) (omega arith)),
  λ h. foldl-times_int 1 ns p (omega arith) ∙ ap pos (one-mul (product ns)),
)

to_int-times_one : (acc : ℤ) → to_int acc ≡ acc → times_int acc (pos 1) ≡ acc
to_int-times_one (pos n) h = rw (mul-one n) h
to_int-times_one (negsuc n) h =
    let e : neg ((n + 1) * 1) ≡ negsuc n = rw (mul-one (n + 1), add-one n) in rw e h

foldl-squeeze :
    (acc : ℤ) (e : Extent)
    → to_int acc ≡ acc
    → foldl times_int acc (squeeze e) ≡ foldl times_int acc e
unfolding squeeze
foldl-squeeze acc [] h = refl
foldl-squeeze acc (x ∷ e) h = elim (Bool-cases (x ==ℤ pos 1)) [
  | inl unit ↦ rw (unit, ==ℤ_eq x (pos 1) unit, to_int-times_one acc h) (foldl-squeeze acc e h)
  | inr other ↦ rw other (foldl-squeeze (times_int acc x) e (to_int_idem (acc *ℤ x)))
]

nelem-squeeze : (e : Extent) → nelem (squeeze e) ≡ nelem e
unfolding nelem
nelem-squeeze e = foldl-squeeze (pos 1) e refl

-- Extents that compare equal have the same number of elements, whatever their axes are (also where
-- the count is not the product of the axes).
pub nelem_congr : (a b : Extent) → extent_eq a b ≡ true → nelem a ≡ nelem b
unfolding extent_eq
nelem_congr a b h =
    sym (nelem-squeeze a) ∙ ap nelem (vector_eq_sound (squeeze a) (squeeze b) h) ∙ nelem-squeeze b
