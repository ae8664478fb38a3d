-- ===== src/BitSet.antt =====
-- misfits/bitset.hpp and misfits/bitset.cc: bytes with their bits in reverse order, and the iterators
-- that reverse what passes through them. A byte is a number below 256.
pub mod Reverse
use Prim.Native.Nat.{bit_and, bit_or}
use misfits.Prelude.{ℕ, zero, suc, ◌+◌, ◌*◌, ◌/◌, ◌%◌, ◌^◌, Bool, List, [], ◌∷◌, ◌==◌, get_or, set}

-- `reverse_bits`. Each line is a conversion to byte_t.
unfoldable pub reverse_bits : ℕ → ℕ
reverse_bits b =
    let b₁ = bit_or (bit_and b 0xF0 / 2 ^ 4) (bit_and b 0x0F * 2 ^ 4) % 2 ^ 8 in
    let b₂ = bit_or (bit_and b₁ 0xCC / 2 ^ 2) (bit_and b₁ 0x33 * 2 ^ 2) % 2 ^ 8 in
    bit_or (bit_and b₂ 0xAA / 2 ^ 1) (bit_and b₂ 0x55 * 2 ^ 1) % 2 ^ 8

-- An iterator into a buffer of bytes: BitSet_output_iterator and BitSet_input_iterator hold one.
pub record ByteIterator : Type 0 where
  pub buffer : List ℕ
  pub place : ℕ

-- operator = of the output iterator, and operator * of the input iterator, which is read inside the buffer
unfoldable pub put : ByteIterator → ℕ → ByteIterator
put it value = record it { buffer = set it.buffer it.place (reverse_bits value) }

unfoldable pub get : ByteIterator → ℕ
get it = reverse_bits (get_or it.buffer it.place 0)

-- operator ++, and its form with an argument, which the language calls with zero for a postfix ++
abbrev pub next : ByteIterator → ByteIterator
next it = record it { place = it.place + 1 }

abbrev pub next_by : ℕ → ByteIterator → ByteIterator
next_by inc it = record it { place = it.place + inc }

-- operator == of the input iterator, for two iterators into one buffer
abbrev pub iterator_eq : ByteIterator → ByteIterator → Bool
iterator_eq self other = self.place == other.place

-- std::copy to an output iterator: assign and step, for each value
unfoldable pub copy_out : List ℕ → ByteIterator → ByteIterator
copy_out [] it = it
copy_out (v ∷ vs) it = copy_out vs (next (put it v))

-- The values that an input iterator gives from its place, for as many steps
unfoldable pub copy_in : ℕ → ByteIterator → List ℕ
copy_in zero it = []
copy_in (suc n) it = get it ∷ copy_in n (next it)
