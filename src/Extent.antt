-- ===== src/Extent.antt =====
-- misfits/extent.hpp and misfits/extent.cc: the shape of a table cell. `Extent` derives privately
-- from std::vector<LONGLONG>, so it is the list of its axes.
pub mod Nelem
pub mod Squeeze
pub mod Print
pub mod Shape
use misfits.Prelude.{
  ℕ, ◌≡◌, refl, Bool, true, false, not, ◌&&◌, List, [], ◌∷◌, ◌++◌, foldl, length, if◌then◌else◌,
  arith,
}
use misfits.Prelude.Int.{ℤ, pos, ◌*ℤ◌, ◌<ℤ?◌, ◌==ℤ◌, ==ℤ_eq, ==ℤ_refl, to_int}
use misfits.Prelude.Text.{Text, show_int}

abbrev pub Extent : Type 0
Extent = List ℤ

-- `if ( e > 1 ) push_back( e );`
pub push_above_one : Extent → ℤ → Extent
push_above_one extent e = if pos 1 <ℤ? e then extent ++ (e ∷ []) else extent

-- The constructor: the first axis is pushed as it is, each of the nine others if it is above one. The
-- list `rest` holds e1 to e9; one that the caller leaves out has the default, one.
unfoldable pub extent_of : ℤ → List ℤ → Extent
unfolding push_above_one
extent_of e0 rest = foldl push_above_one (e0 ∷ []) rest

-- The step of std::accumulate. The initial value is the literal 1, an `int`, so the LONGLONG product is
-- converted to `int` after every step.
abbrev pub times_int : ℤ → ℤ → ℤ
times_int acc axis = to_int (acc *ℤ axis)

unfoldable pub nelem : Extent → ℤ
nelem extent = foldl times_int (pos 1) extent

abbrev pub naxes : Extent → ℕ
naxes extent = length extent

-- `squeeze`: std::remove and erase drop the axes that equal one.
unfoldable pub squeeze : Extent → Extent
squeeze [] = []
squeeze (e ∷ es) = if e ==ℤ pos 1 then squeeze es else e ∷ squeeze es

-- operator == of std::vector<LONGLONG>
abbrev pub vector_eq : List ℤ → List ℤ → Bool
vector_eq [] [] = true
vector_eq [] (y ∷ ys) = false
vector_eq (x ∷ xs) [] = false
vector_eq (x ∷ xs) (y ∷ ys) = (x ==ℤ y) && vector_eq xs ys

pub vector_eq_sound : (a b : List ℤ) → vector_eq a b ≡ true → a ≡ b
vector_eq_sound [] [] h = refl
vector_eq_sound [] (y ∷ ys) h = cc
vector_eq_sound (x ∷ xs) [] h = cc
vector_eq_sound (x ∷ xs) (y ∷ ys) h = ground (arith, ==ℤ_eq x y, vector_eq_sound xs ys)

pub vector_eq_refl : (a : List ℤ) → vector_eq a a ≡ true
vector_eq_refl [] = refl
vector_eq_refl (x ∷ xs) = ground (arith, ==ℤ_refl x, vector_eq_refl xs)

-- operator == and operator != of Extent
unfoldable pub extent_eq : Extent → Extent → Bool
unfolding squeeze
extent_eq a b = vector_eq (squeeze a) (squeeze b)

unfoldable pub extent_ne : Extent → Extent → Bool
unfolding extent_eq
extent_ne a b = not (extent_eq a b)

-- The loop of `to_string` and what follows it: each axis but the last with a comma.
unfoldable pub axes_text : Extent → Text
unfolding show_int
axes_text [] = []
axes_text (e ∷ []) = show_int e ++ (b')' ∷ [])
axes_text (e ∷ f ∷ es) = show_int e ++ (b',' ∷ axes_text (f ∷ es))

-- An extent has at least one axis; on one with none, which `squeeze` can return, the loop of
-- `to_string` runs out of the vector.
unfoldable pub to_string : Extent → Text
unfolding axes_text
to_string extent = b'(' ∷ axes_text extent
