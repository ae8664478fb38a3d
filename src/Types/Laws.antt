-- ===== src/Types/Laws.antt =====
-- The column types and their codes (misfits/types.cc), and the size of bit fields.
use misfits.Prelude.{ℕ, ◌*◌, ◌≤◌, ◌≡◌, refl, arith, ◌↔◌}
use mathlib.Core.Path.{subst}
use misfits.Prelude.Int.{ℤ, pos, negsuc}
use misfits.Exception.{ok}
use misfits.Types.{Spec, bit, spec_id, spec_code, spec_from_id, bit_width}

-- `spec_from_id` finds every implemented type under its own id.
pub spec_from_id-spec_id : (s : Spec) → spec_from_id (spec_id s) ≡ ok s
unfolding spec_from_id spec_id
spec_from_id-spec_id bit = refl
spec_from_id-spec_id _ = refl

spec_id_of_found : (id : ℤ) (s : Spec) → spec_from_id id ≡ ok s → spec_id s ≡ id
unfolding spec_from_id spec_id
spec_id_of_found (negsuc n) s h = cc
spec_id_of_found (pos id) s h = ground arith

-- An id names at most one type, and `spec_from_id` succeeds at the ids of the eleven implemented types
-- and nowhere else.
spec_from_id_iff : (id : ℤ) (s : Spec) → (spec_from_id id ≡ ok s) ↔ (spec_id s ≡ id)
spec_from_id_iff id s =
    (spec_id_of_found id s, λ e. subst (λ i. spec_from_id i ≡ ok s) e (spec_from_id-spec_id s))

-- No two column types have the same TFORM letter.
spec_code_injective : (s t : Spec) → spec_code s ≡ spec_code t → s ≡ t
unfolding spec_code
spec_code_injective s t h = ground arith

-- A bit field takes the least number of bytes that hold its bits.
bit_width_least :
    (bits : ℕ)
    → (bits ≤ bit_width bits * 8) × ((bytes : ℕ) → bits ≤ bytes * 8 → bit_width bits ≤ bytes)
unfolding bit_width
bit_width_least bits = (ground arith, λ bytes h. ground arith)
