-- ===== src/Prelude/Decimal.antt =====
-- Reading numbers that were printed in decimal.
use misfits.Prelude.{
  ℕ, zero, suc, ◌+◌, ◌*◌, ◌/◌, ◌%◌, ◌<◌, ◌≡◌, refl, ap, ◌∙◌, Bool, not, ◌||◌, true, [], ◌∷◌, ◌++◌,
  arith, inl, inr, Bool-cases, ltb,
}
use misfits.Prelude.Text.{Text, show_nat, digits_onto}
use misfits.Prelude.CText.{NullFree}

abbrev pub is_digit : ℕ → Bool
is_digit b = not (ltb b b'0' || ltb b'9' b)

pub is_digit-digit : (d : ℕ) → d < 10 → is_digit (d + b'0') ≡ true
is_digit-digit d h = ground arith

-- A reader that takes a digit into the number in front of it takes a printed number as a whole.
module _ {X : Type 0} (reader : ℕ → Text → X)
    (step : (m d : ℕ) (bs : Text)
      → d < 10
      → reader m ((d + b'0') ∷ bs) ≡ reader (m * 10 + d) bs) where
  reader-digits_onto :
      (fuel n : ℕ) (acc rest : Text)
      → n < fuel
      → reader 0 (digits_onto fuel n acc ++ rest) ≡ reader n (acc ++ rest)
  unfolding digits_onto
  reader-digits_onto zero n acc rest h = absurd (omega arith)
  reader-digits_onto (suc fuel) n acc rest h = elim (Bool-cases (ltb n 10)) [
    | inl one ↦ rw one (
        step 0 (n % 10) (acc ++ rest) (omega arith)
        ∙ ap (λ k. reader k (acc ++ rest)) (ground arith))
    | inr more ↦ rw more (
        reader-digits_onto fuel (n / 10) ((n % 10 + b'0') ∷ acc) rest (ground arith)
        ∙ step (n / 10) (n % 10) (acc ++ rest) (omega arith)
        ∙ ap (λ k. reader k (acc ++ rest)) (omega arith))
  ]

  pub reader-show_nat : (n : ℕ) (rest : Text) → reader 0 (show_nat n ++ rest) ≡ reader n rest
  unfolding show_nat
  reader-show_nat n rest = reader-digits_onto (suc n) n [] rest (omega arith)

-- A printed number begins with a digit.
digits_onto_head :
    (fuel n : ℕ) (acc : Text)
    → n < fuel
    → (d : ℕ) × (bs : Text) × (d < 10) × (digits_onto fuel n acc ≡ (d + b'0') ∷ bs)
unfolding digits_onto
digits_onto_head zero n acc h = absurd (omega arith)
digits_onto_head (suc fuel) n acc h = elim (Bool-cases (ltb n 10)) [
  | inl one ↦ (n % 10, acc, omega arith, rw one refl)
  | inr more ↦ rw more (digits_onto_head fuel (n / 10) ((n % 10 + b'0') ∷ acc) (ground arith))
]

pub show_nat_head : (n : ℕ) → (d : ℕ) × (bs : Text) × (d < 10) × (show_nat n ≡ (d + b'0') ∷ bs)
unfolding show_nat
show_nat_head n = digits_onto_head (suc n) n [] (omega arith)

digits_onto-NullFree : (fuel n : ℕ) (acc : Text) → NullFree acc → NullFree (digits_onto fuel n acc)
unfolding digits_onto
digits_onto-NullFree zero n acc h = h
digits_onto-NullFree (suc fuel) n acc h = elim (Bool-cases (ltb n 10)) [
  | inl one ↦ rw one ((λ e. omega arith), h)
  | inr more ↦
      rw more (digits_onto-NullFree fuel (n / 10) ((n % 10 + b'0') ∷ acc) ((λ e. omega arith), h))
]

-- A printed number holds no null character.
pub show_nat-NullFree : (n : ℕ) → NullFree (show_nat n)
unfolding show_nat
show_nat-NullFree n = digits_onto-NullFree (suc n) n [] tt
