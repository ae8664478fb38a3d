-- ===== src/BitSet/Reverse.antt =====
-- What `reverse_bits` does to the bits of a byte, and to a buffer that is written and read back
-- (misfits/bitset.cc, misfits/bitset.hpp).
use mathlib.Core.Path.{ap₂}
use misfits.Prelude.{
  ℕ, zero, suc, ◌+◌, ◌-◌, ◌/◌, ◌%◌, ◌^◌, ◌<◌, ◌≤◌, ◌≡◌, refl, ◌∙◌, Bool, true, ◌&&◌, List, [], ◌∷◌,
  arith, ltb, ◌==◌, length, get_or, set, length-set,
}
use misfits.BitSet.{reverse_bits, ByteIterator, put, get, next, copy_out, copy_in}

-- A test of all numbers below n
all_below : ℕ → (ℕ → Bool) → Bool
all_below zero p = true
all_below (suc n) p = p n && all_below n p

all_below-holds : (p : ℕ → Bool) (n x : ℕ) → x < n → all_below n p ≡ true → p x ≡ true
unfolding all_below
all_below-holds p zero x lt h = absurd (omega arith)
all_below-holds p (suc n) x lt h = ground (arith, all_below-holds p n x)

-- Bit i of a byte
abbrev pub bit : ℕ → ℕ → ℕ
bit b i = b / 2 ^ i % 2

reversed : ℕ → Bool
reversed b =
    all_below 8 (λ i. bit (reverse_bits b) i == bit b (7 - i))
    && (ltb (reverse_bits b) 256 && (reverse_bits (reverse_bits b) == b))

all_reversed : all_below 256 reversed ≡ true
unfolding all_below reversed reverse_bits
all_reversed = refl

reversed_bits :
    (b : ℕ) → b < 256 → all_below 8 (λ i. bit (reverse_bits b) i == bit b (7 - i)) ≡ true
unfolding reversed
reversed_bits b h = ground (arith, all_below-holds reversed 256 b h all_reversed)

-- Of a byte, `reverse_bits` makes a byte whose bit i is the bit 7 - i of the first, and reversing that gives the first
-- byte back.
reverse_bits_lem :
    (b : ℕ)
    → b < 256
    → (reverse_bits b < 256)
      × (reverse_bits (reverse_bits b) ≡ b)
      × ((i : ℕ) → i < 8 → bit (reverse_bits b) i ≡ bit b (7 - i))
unfolding reversed
reverse_bits_lem b h = (
  ground (arith, all_below-holds reversed 256 b h all_reversed),
  ground (arith, all_below-holds reversed 256 b h all_reversed),
  λ i below. ground (
    arith,
    all_below-holds (λ i. bit (reverse_bits b) i == bit b (7 - i)) 8 i below (reversed_bits b h),
  ),
)

-- A list of bytes
abbrev pub AllBytes : List ℕ → Type 0
AllBytes [] = Unit {0}
AllBytes (v ∷ vs) = (v < 256) × AllBytes vs

get_or-set_self : (xs : List ℕ) (i v : ℕ) → i < length xs → get_or (set xs i v) i 0 ≡ v
get_or-set_self [] i v h = absurd (omega arith)
get_or-set_self (x ∷ xs) zero v h = refl
get_or-set_self (x ∷ xs) (suc i) v h = get_or-set_self xs i v (omega arith)

get_or-set_before : (xs : List ℕ) (i j v : ℕ) → i < j → get_or (set xs j v) i 0 ≡ get_or xs i 0
get_or-set_before [] i j v h = refl
get_or-set_before (x ∷ xs) i zero v h = absurd (omega arith)
get_or-set_before (x ∷ xs) zero (suc j) v h = refl
get_or-set_before (x ∷ xs) (suc i) (suc j) v h = get_or-set_before xs i j v (omega arith)

copy_out_before :
    (vs : List ℕ) (it : ByteIterator) (i : ℕ)
    → i < it.place
    → get_or (copy_out vs it).buffer i 0 ≡ get_or it.buffer i 0
unfolding copy_out put
copy_out_before [] it i h = refl
copy_out_before (v ∷ vs) it i h =
    rw (copy_out_before vs (next (put it v)) i (omega arith))
      (get_or-set_before it.buffer i it.place (reverse_bits v) h)

pub length-copy_out :
    (vs : List ℕ) (it : ByteIterator) → length (copy_out vs it).buffer ≡ length it.buffer
unfolding copy_out put
length-copy_out [] it = refl
length-copy_out (v ∷ vs) it =
    length-copy_out vs (next (put it v)) ∙ length-set it.buffer it.place (reverse_bits v)

get-copy_out :
    (v : ℕ) (vs : List ℕ) (it : ByteIterator)
    → v < 256
    → it.place < length it.buffer
    → get (record it { buffer = (copy_out (v ∷ vs) it).buffer }) ≡ v
unfolding get copy_out put
get-copy_out v vs it byte room =
    rw
      (
        copy_out_before vs (next (put it v)) it.place (omega arith),
        get_or-set_self it.buffer it.place (reverse_bits v) room,
      )
      (reverse_bits_lem v byte).1

-- Bytes that an output iterator copies into a buffer with room for them come out of an input iterator at the same place as
-- they went in.
pub copy_in-copy_out :
    (vs : List ℕ) (it : ByteIterator)
    → AllBytes vs
    → it.place + length vs ≤ length it.buffer
    → copy_in (length vs) (record it { buffer = (copy_out vs it).buffer }) ≡ vs
unfolding copy_out copy_in put
copy_in-copy_out [] it bytes room = refl
copy_in-copy_out (v ∷ vs) it (byte, bytes) room =
    ap₂ (λ a b. a ∷ b) (get-copy_out v vs it byte (omega arith))
      (copy_in-copy_out vs (next (put it v)) bytes
        (omega (arith, length-set it.buffer it.place (reverse_bits v))))
