-- ===== src/Prelude/Int.antt =====
-- Signed integers over the native numbers: LONGLONG and int where the program lets a value be
-- negative. `negsuc n` is -(n + 1).
use misfits.Prelude.{
  ℕ, zero, suc, ◌+◌, ◌-◌, ◌*◌, ◌/◌, ◌%◌, ◌^◌, ◌<◌, ◌≡◌, refl, Bool, true, false, arith, ltb, leb,
  ◌==◌, if◌then◌else◌,
}

pub data ℤ : Type 0 where
  pos : ℕ → ℤ
  negsuc : ℕ → ℤ

-- The integer -n.
abbrev pub neg : ℕ → ℤ
neg zero = pos 0
neg (suc n) = negsuc n

abbrev pub sub_ℕ : ℕ → ℕ → ℤ
sub_ℕ a b = if leb b a then pos (a - b) else negsuc (b - a - 1)

infixl 65 ◌+ℤ◌ ◌-ℤ◌
infixl 70 ◌*ℤ◌
abbrev pub ◌+ℤ◌ : ℤ → ℤ → ℤ
pos a +ℤ pos b = pos (a + b)
pos a +ℤ negsuc b = sub_ℕ a (b + 1)
negsuc a +ℤ pos b = sub_ℕ b (a + 1)
negsuc a +ℤ negsuc b = negsuc (a + b + 1)

abbrev pub ◌-ℤ◌ : ℤ → ℤ → ℤ
pos a -ℤ pos b = sub_ℕ a b
pos a -ℤ negsuc b = pos (a + b + 1)
negsuc a -ℤ pos b = negsuc (a + b)
negsuc a -ℤ negsuc b = sub_ℕ b a

abbrev pub ◌*ℤ◌ : ℤ → ℤ → ℤ
pos a *ℤ pos b = pos (a * b)
pos a *ℤ negsuc b = neg (a * (b + 1))
negsuc a *ℤ pos b = neg ((a + 1) * b)
negsuc a *ℤ negsuc b = pos ((a + 1) * (b + 1))

-- C++ division by a positive number rounds towards zero.
abbrev pub quot : ℤ → ℕ → ℤ
quot (pos a) b = pos (a / b)
quot (negsuc a) b = neg ((a + 1) / b)

-- Division by any integer but zero
abbrev pub quot_ℤ : ℤ → ℤ → ℤ
quot_ℤ a (pos b) = quot a b
quot_ℤ (pos a) (negsuc b) = neg (a / (b + 1))
quot_ℤ (negsuc a) (negsuc b) = pos ((a + 1) / (b + 1))

infix 50 ◌<ℤ?◌ ◌==ℤ◌
abbrev pub ◌<ℤ?◌ : ℤ → ℤ → Bool
pos a <ℤ? pos b = ltb a b
pos a <ℤ? negsuc b = false
negsuc a <ℤ? pos b = true
negsuc a <ℤ? negsuc b = ltb b a

abbrev pub ◌==ℤ◌ : ℤ → ℤ → Bool
pos a ==ℤ pos b = a == b
pos a ==ℤ negsuc b = false
negsuc a ==ℤ pos b = false
negsuc a ==ℤ negsuc b = a == b

-- The 32-bit pattern m, read as an `int`.
abbrev pub signed32 : ℕ → ℤ
signed32 m = if ltb m (2 ^ 31) then pos m else negsuc (2 ^ 32 - 1 - m)

-- The conversion of a wider integer to `int` keeps the low 32 bits.
abbrev pub to_int : ℤ → ℤ
to_int (pos n) = signed32 (n % 2 ^ 32)
to_int (negsuc n) = signed32 (2 ^ 32 - 1 - n % 2 ^ 32)

-- `static_cast<std::size_t>` keeps the low 64 bits.
abbrev pub to_size : ℤ → ℕ
to_size (pos n) = n % 2 ^ 64
to_size (negsuc n) = 2 ^ 64 - 1 - n % 2 ^ 64

-- A size_t, converted to LONGLONG
abbrev pub signed64 : ℕ → ℤ
signed64 m = if ltb m (2 ^ 63) then pos m else negsuc (2 ^ 64 - 1 - m)

pub to_int_small : (n : ℕ) → n < 2 ^ 31 → to_int (pos n) ≡ pos n
to_int_small n h = ground arith

pub to_int_idem : (z : ℤ) → to_int (to_int z) ≡ to_int z
to_int_idem (pos n) = ground arith
to_int_idem (negsuc n) = ground arith

pub ==ℤ_eq : (a b : ℤ) → (a ==ℤ b) ≡ true → a ≡ b
==ℤ_eq (pos a) (pos b) h = ground arith
==ℤ_eq (pos a) (negsuc b) h = cc
==ℤ_eq (negsuc a) (pos b) h = cc
==ℤ_eq (negsuc a) (negsuc b) h = ground arith

pub ==ℤ_refl : (a : ℤ) → (a ==ℤ a) ≡ true
==ℤ_refl (pos a) = ground arith
==ℤ_refl (negsuc a) = ground arith

pub +ℤ_comm : (a b : ℤ) → a +ℤ b ≡ b +ℤ a
+ℤ_comm (pos a) (pos b) = ground arith
+ℤ_comm (pos a) (negsuc b) = refl
+ℤ_comm (negsuc a) (pos b) = refl
+ℤ_comm (negsuc a) (negsuc b) = ground arith

pub +ℤ_assoc : (a b d : ℤ) → a +ℤ b +ℤ d ≡ a +ℤ (b +ℤ d)
+ℤ_assoc (pos a) (pos b) (pos d) = ground arith
+ℤ_assoc (pos a) (pos b) (negsuc d) = ground arith
+ℤ_assoc (pos a) (negsuc b) (pos d) = ground arith
+ℤ_assoc (pos a) (negsuc b) (negsuc d) = ground arith
+ℤ_assoc (negsuc a) (pos b) (pos d) = ground arith
+ℤ_assoc (negsuc a) (pos b) (negsuc d) = ground arith
+ℤ_assoc (negsuc a) (negsuc b) (pos d) = ground arith
+ℤ_assoc (negsuc a) (negsuc b) (negsuc d) = ground arith

pub +ℤ-cancel : (a b : ℤ) → a +ℤ (b -ℤ a) ≡ b
+ℤ-cancel (pos a) (pos b) = ground arith
+ℤ-cancel (pos a) (negsuc b) = ground arith
+ℤ-cancel (negsuc a) (pos b) = ground arith
+ℤ-cancel (negsuc a) (negsuc b) = ground arith
