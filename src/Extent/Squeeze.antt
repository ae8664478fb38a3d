-- ===== src/Extent/Squeeze.antt =====
-- Equality of extents up to axes of length one, and the constructor (misfits/extent.cc).
use misfits.Prelude.{
  ◌≡◌, refl, sym, ap, ◌∙◌, ◌↔◌, Bool, true, false, List, [], ◌∷◌, ◌++◌, foldl, arith, inl, inr,
  Bool-cases,
}
use misfits.Prelude.Int.{ℤ, pos, negsuc, ◌<ℤ?◌}
use mathlib.Core.List.{append_assoc, append-nil}
use misfits.Extent.{
  Extent, push_above_one, extent_of, nelem, squeeze, vector_eq_sound, vector_eq_refl, extent_eq,
}
use misfits.Extent.Nelem.{nelem_congr}

squeeze-append : (a b : Extent) → squeeze (a ++ b) ≡ squeeze a ++ squeeze b
unfolding squeeze
squeeze-append [] b = refl
squeeze-append (x ∷ a) b = ground (arith, squeeze-append a b)

pub extent_eq_iff : (a b : Extent) → (extent_eq a b ≡ true) ↔ (squeeze a ≡ squeeze b)
unfolding extent_eq
extent_eq_iff a b =
    (vector_eq_sound (squeeze a) (squeeze b), λ e. rw e (vector_eq_refl (squeeze b)))

abbrev AllAtLeastOne : List ℤ → Type 0
AllAtLeastOne [] = Unit {0}
AllAtLeastOne (e ∷ es) = ((e <ℤ? pos 1) ≡ false) × AllAtLeastOne es

squeeze-push_above_one :
    (a : Extent) (e : ℤ)
    → (e <ℤ? pos 1) ≡ false
    → squeeze (push_above_one a e) ≡ squeeze (a ++ (e ∷ []))
unfolding push_above_one squeeze
squeeze-push_above_one a (negsuc n) h = cc
squeeze-push_above_one a (pos n) h = elim (Bool-cases (pos 1 <ℤ? pos n)) [
  | inl above ↦ rw above refl
  | inr unit ↦
      let one : pos n ≡ pos 1 = ground arith in
      rw (unit, one, squeeze-append a (pos 1 ∷ [])) (sym (append-nil (squeeze a)))
]

squeeze-foldl_push :
    (a : Extent) (es : List ℤ)
    → AllAtLeastOne es
    → squeeze (foldl push_above_one a es) ≡ squeeze (a ++ es)
squeeze-foldl_push a [] h = ap squeeze (sym (append-nil a))
squeeze-foldl_push a (e ∷ es) h =
    squeeze-foldl_push (push_above_one a e) es h.1
    ∙ squeeze-append (push_above_one a e) es
    ∙ ap (λ s. s ++ squeeze es) (squeeze-push_above_one a e h.0)
    ∙ sym (squeeze-append (a ++ (e ∷ [])) es)
    ∙ ap squeeze (append_assoc a (e ∷ []) es)

-- The constructor keeps the shape that it is given, up to axes of length one: if no later axis is
-- below one, the extent equals the list of the axes, and has as many elements.
extent_of_lem :
    (e0 : ℤ) (rest : List ℤ)
    → AllAtLeastOne rest
    → (extent_eq (extent_of e0 rest) (e0 ∷ rest) ≡ true)
      × (nelem (extent_of e0 rest) ≡ nelem (e0 ∷ rest))
unfolding extent_of
extent_of_lem e0 rest h =
    let same =
      (extent_eq_iff (foldl push_above_one (e0 ∷ []) rest) (e0 ∷ rest)).1
        (squeeze-foldl_push (e0 ∷ []) rest h) in
    (same, nelem_congr _ _ same)

extent_eq_sym : (a b : Extent) → extent_eq a b ≡ true → extent_eq b a ≡ true
extent_eq_sym a b h = (extent_eq_iff b a).1 (sym ((extent_eq_iff a b).0 h))

Bool-eq : (x y : Bool) → (x ≡ true → y ≡ true) → (y ≡ true → x ≡ true) → x ≡ y
Bool-eq true y f g = sym (f refl)
Bool-eq false true f g = g refl
Bool-eq false false f g = refl

-- Comparison of extents is an equivalence.
extent_eq_equivalence :
    (a b c : Extent)
    → (extent_eq a a ≡ true)
      × (extent_eq a b ≡ extent_eq b a)
      × (extent_eq a b ≡ true → extent_eq b c ≡ true → extent_eq a c ≡ true)
extent_eq_equivalence a b c = (
  (extent_eq_iff a a).1 refl,
  Bool-eq (extent_eq a b) (extent_eq b a) (extent_eq_sym a b) (extent_eq_sym b a),
  λ p q. (extent_eq_iff a c).1 ((extent_eq_iff a b).0 p ∙ (extent_eq_iff b c).0 q),
)
