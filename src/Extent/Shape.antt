-- ===== src/Extent/Shape.antt =====
-- Extents that differ by axes of length one (misfits/extent.cc): what operator == and `squeeze` tell of them.
use misfits.Prelude.{◌≡◌, refl, sym, ◌↔◌, true, false, inl, inr, Bool-cases, [], ◌∷◌, arith, Every}
use misfits.Prelude.Int.{ℤ, pos, ◌==ℤ◌, ==ℤ_eq}
use misfits.Extent.{Extent, squeeze, extent_eq}
use misfits.Extent.Squeeze.{extent_eq_iff}

-- The second extent has the axes of the first, with an axis of length one put in or taken out at some place, any
-- number of times.
pub data Reshapes : Extent → Extent → Type 0 where
  none_left : Reshapes [] []
  same_axis : {a b : Extent} → (e : ℤ) → Reshapes a b → Reshapes (e ∷ a) (e ∷ b)
  put_in : {a b : Extent} → Reshapes a b → Reshapes a (pos 1 ∷ b)
  taken_out : {a b : Extent} → Reshapes a b → Reshapes (pos 1 ∷ a) b

Reshapes-squeeze : {a b : Extent} → Reshapes a b → squeeze a ≡ squeeze b
unfolding squeeze
Reshapes-squeeze none_left = refl
Reshapes-squeeze (same_axis e h) = rw (Reshapes-squeeze h) refl
Reshapes-squeeze (put_in h) = Reshapes-squeeze h
Reshapes-squeeze (taken_out h) = Reshapes-squeeze h

Reshapes-of_squeeze : (a b : Extent) → squeeze a ≡ squeeze b → Reshapes a b
unfolding squeeze
Reshapes-of_squeeze [] [] e = none_left
Reshapes-of_squeeze [] (y ∷ b) e = elim (Bool-cases (y ==ℤ pos 1)) [
  | inl one ↦ rw (==ℤ_eq y (pos 1) one) (put_in (Reshapes-of_squeeze [] b (rw one at e)))
  | inr other ↦ absurd (grind (arith, rw other at e))
]
Reshapes-of_squeeze (x ∷ a) [] e = elim (Bool-cases (x ==ℤ pos 1)) [
  | inl one ↦ rw (==ℤ_eq x (pos 1) one) (taken_out (Reshapes-of_squeeze a [] (rw one at e)))
  | inr other ↦ absurd (grind (arith, rw other at e))
]
Reshapes-of_squeeze (x ∷ a) (y ∷ b) e = elim (Bool-cases (x ==ℤ pos 1)) [
  | inl one ↦ rw (==ℤ_eq x (pos 1) one) (taken_out (Reshapes-of_squeeze a (y ∷ b) (rw one at e)))
  | inr other ↦ elim (Bool-cases (y ==ℤ pos 1)) [
    | inl one ↦ rw (==ℤ_eq y (pos 1) one) (put_in (Reshapes-of_squeeze (x ∷ a) b (rw one at e)))
    | inr other' ↦
        let same : x ∷ squeeze a ≡ y ∷ squeeze b = rw (other, other') at e in
        let axis : x ≡ y = cc in
        let rest : squeeze a ≡ squeeze b = cc in
        rw axis (same_axis y (Reshapes-of_squeeze a b rest))
  ]
]

HasNoOne-squeeze : (a : Extent) → Every (λ e. (e ==ℤ pos 1) ≡ false) (squeeze a)
unfolding squeeze
HasNoOne-squeeze [] = tt
HasNoOne-squeeze (x ∷ a) = elim (Bool-cases (x ==ℤ pos 1)) [
  | inl one ↦ rw one (HasNoOne-squeeze a)
  | inr other ↦ rw other (other, HasNoOne-squeeze a)
]

squeeze_idem : (a : Extent) → squeeze (squeeze a) ≡ squeeze a
unfolding squeeze
squeeze_idem [] = refl
squeeze_idem (x ∷ a) = ground (arith, squeeze_idem a)

-- operator == tells of two extents whether they differ by nothing but axes of length one, put in or taken out. What
-- `squeeze` gives differs so from the extent, and has no axis of length one.
pub extent_eq-Reshapes :
    (a b : Extent)
    → ((extent_eq a b ≡ true) ↔ Reshapes a b)
      × Reshapes a (squeeze a)
      × Every (λ e. (e ==ℤ pos 1) ≡ false) (squeeze a)
extent_eq-Reshapes a b = (
  (
    λ e. Reshapes-of_squeeze a b ((extent_eq_iff a b).0 e),
    λ h. (extent_eq_iff a b).1 (Reshapes-squeeze h),
  ),
  Reshapes-of_squeeze a (squeeze a) (sym (squeeze_idem a)),
  HasNoOne-squeeze a,
)
