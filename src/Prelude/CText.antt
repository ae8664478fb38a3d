-- ===== src/Prelude/CText.antt =====
-- Strings of C: a text in memory ends in front of its first null character.
use misfits.Prelude.{
  ℕ, zero, suc, ◌≤◌, ◌≡◌, ◌≢◌, refl, ap, List, [], ◌∷◌, ◌++◌, arith, ◌==◌, if◌then◌else◌, length,
  take, drop,
}
use misfits.Prelude.Text.{Text}

-- What stands in front of the first null character, if there is one: `find_first_of( '\0' )` and `resize` to what is
-- found
unfoldable pub until_null : Text → Text
until_null [] = []
until_null (b ∷ bs) = if b == 0 then [] else b ∷ until_null bs

-- No byte of the string is the null character.
abbrev pub NullFree : Text → Type 0
NullFree [] = Unit {0}
NullFree (b ∷ bs) = (b ≢ 0) × NullFree bs

abbrev pub AllNullFree : List Text → Type 0
AllNullFree [] = Unit {0}
AllNullFree (s ∷ strs) = NullFree s × AllNullFree strs

pub take-append : (n : ℕ) (s rest : Text) → length s ≡ n → take n (s ++ rest) ≡ s
take-append zero [] rest h = refl
take-append zero (b ∷ s) rest h = absurd (omega arith)
take-append (suc n) [] rest h = absurd (omega arith)
take-append (suc n) (b ∷ s) rest h = ap (λ t. b ∷ t) (take-append n s rest (omega arith))

pub drop-append : (n : ℕ) (s rest : Text) → length s ≡ n → drop n (s ++ rest) ≡ rest
drop-append zero [] rest h = refl
drop-append zero (b ∷ s) rest h = absurd (omega arith)
drop-append (suc n) [] rest h = absurd (omega arith)
drop-append (suc n) (b ∷ s) rest h = drop-append n s rest (omega arith)

pub take_all : (n : ℕ) (s : Text) → length s ≤ n → take n s ≡ s
take_all zero [] h = refl
take_all zero (b ∷ s) h = absurd (omega arith)
take_all (suc n) [] h = refl
take_all (suc n) (b ∷ s) h = ap (λ t. b ∷ t) (take_all n s (omega arith))

pub NullFree-take : (n : ℕ) (s : Text) → NullFree s → NullFree (take n s)
NullFree-take zero s h = tt
NullFree-take (suc n) [] h = tt
NullFree-take (suc n) (b ∷ s) h = (h.0, NullFree-take n s h.1)

pub NullFree-append : (s t : Text) → NullFree s → NullFree t → NullFree (s ++ t)
NullFree-append [] t h k = k
NullFree-append (b ∷ s) t h k = (h.0, NullFree-append s t h.1 k)

pub until_null-NullFree : (s : Text) → NullFree s → until_null s ≡ s
unfolding until_null
until_null-NullFree [] h = refl
until_null-NullFree (b ∷ s) h = ground (arith, h.0, until_null-NullFree s h.1)

pub until_null-append : (s rest : Text) → NullFree s → until_null (s ++ (0 ∷ rest)) ≡ s
unfolding until_null
until_null-append [] rest h = refl
until_null-append (b ∷ s) rest h = ground (arith, h.0, until_null-append s rest h.1)
