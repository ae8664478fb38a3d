-- ===== src/RowEntry/StringColumns.antt =====
-- Round trips of string cells (Column<std::string> and StringColumnVector).
use misfits.Prelude.{
  ℕ, zero, suc, ◌-◌, ◌*◌, ◌≤◌, ◌≡◌, refl, sym, ap, ◌∙◌, ◌↔◌, inl, inr, false, List, [], ◌∷◌, ◌++◌,
  map, arith, ltb, Bool-cases, length, length-append, take, replicate, length-take,
  length-replicate, ltb→lt,
}
use mathlib.Core.List.{append_assoc, append-nil}
use native.Mathlib.Nat.{le_of_eq}
use misfits.Prelude.Text.{Text}
use misfits.Prelude.CText.{
  until_null, NullFree, AllNullFree, take-append, drop-append, take_all, NullFree-take,
  NullFree-append, until_null-NullFree, until_null-append,
}
use misfits.RowEntry.Strings.{
  fill_cell, string_of_cell, string_slot, string_slots, fill_cells, strings_of_cell,
}

length-spaces : (n : ℕ) → length {A = ℕ} (replicate n b' ') ≡ n
length-spaces n = length-replicate {A = ℕ} n b' '

NullFree-spaces : (n : ℕ) → NullFree (replicate n b' ')
NullFree-spaces zero = tt
NullFree-spaces (suc n) = (omega arith, NullFree-spaces n)

length-string_slot : (width : ℕ) (s : Text) → length (string_slot width s) ≡ width
unfolding string_slot
length-string_slot width s = elim (Bool-cases (ltb (length s) width)) [
  | inl short ↦ rw short (
      omega (
        arith,
        length-append s (0 ∷ replicate (width - length s - 1) b' '),
        length-spaces (width - length s - 1),
        ltb→lt _ _ short,
      ))
  | inr full ↦ rw full (omega (arith, length-take width s, not_short (length s) width full))
]
  where
    not_short : (a b : ℕ) → ltb a b ≡ false → b ≤ a
    not_short a b h = ground arith

until_null-string_slot :
    (width : ℕ) (s : Text) → NullFree s → until_null (string_slot width s) ≡ take width s
unfolding string_slot
until_null-string_slot width s h = elim (Bool-cases (ltb (length s) width)) [
  | inl short ↦
      rw short (until_null-append s _ h ∙ sym (take_all width s (omega (arith, ltb→lt _ _ short))))
  | inr full ↦ rw full (until_null-NullFree (take width s) (NullFree-take width s h))
]

strings_of_slots :
    (width : ℕ) (strs : List Text) (rest : Text)
    → AllNullFree strs
    → strings_of_cell (length strs) width (string_slots width strs ++ rest) ≡ map (take width) strs
unfolding string_slots strings_of_cell
strings_of_slots width [] rest h = refl
strings_of_slots width (s ∷ strs) rest h =
    let slot = string_slot width s in
    let others = string_slots width strs ++ rest in
    rw (
      append_assoc slot (string_slots width strs) rest,
      take-append width slot others (length-string_slot width s),
      drop-append width slot others (length-string_slot width s),
      until_null-string_slot width s h.0,
      strings_of_slots width strs rest h.1,
    )

length-string_slots :
    (width : ℕ) (strs : List Text) → length (string_slots width strs) ≡ length strs * width
unfolding string_slots
length-string_slots width [] = omega arith
length-string_slots width (s ∷ strs) = omega (
  arith,
  length-append (string_slot width s) (string_slots width strs),
  length-string_slot width s,
  length-string_slots width strs,
)

-- A vector of strings that fits its cell is written over the whole cell and no more, and, where no string holds a null
-- character, comes back as it was, each string cut at the width of its place.
pub fill_cells_roundtrip :
    (natomic width : ℕ) (strs : List Text)
    → length strs * width ≤ natomic
    → AllNullFree strs
    → (length (fill_cells natomic width strs) ≡ natomic)
      × (strings_of_cell (length strs) width (fill_cells natomic width strs)
          ≡ map (take width) strs)
unfolding fill_cells
fill_cells_roundtrip natomic width strs fits h =
    let spaces = replicate (natomic - length strs * width) b' ' in
    (
      omega (
        arith,
        length-append (string_slots width strs) spaces,
        length-string_slots width strs,
        length-spaces (natomic - length strs * width),
      ),
      strings_of_slots width strs spaces h,
    )

length-fill_cell : (natomic : ℕ) (s : Text) → length (fill_cell natomic s) ≡ natomic
unfolding fill_cell
length-fill_cell natomic s = omega (
  arith,
  length-append (take natomic s) (replicate (natomic - length s) b' '),
  length-take natomic s,
  length-spaces (natomic - length s),
)

pub string_of_fill_cell :
    (natomic : ℕ) (s : Text)
    → NullFree s
    → string_of_cell natomic (fill_cell natomic s) ≡ fill_cell natomic s
unfolding string_of_cell fill_cell
string_of_fill_cell natomic s h =
    let whole = take natomic s ++ replicate (natomic - length s) b' ' in
    let clean : NullFree whole =
      NullFree-append (take natomic s) _ (NullFree-take natomic s h)
        (NullFree-spaces (natomic - length s)) in
    ap until_null (take_all natomic whole (le_of_eq (length-fill_cell natomic s)))
    ∙ until_null-NullFree whole clean

fill_cell_exact : (natomic : ℕ) (s : Text) → length s ≡ natomic → fill_cell natomic s ≡ s
unfolding fill_cell
fill_cell_exact natomic s e =
    let none_left : natomic - length s ≡ 0 = omega arith in
    rw (none_left, append-nil (take natomic s)) (take_all natomic s (omega arith))

-- A single string with no null character fills its whole cell. It comes back as it was exactly when it is as
-- long as the cell: a shorter one comes back with the spaces that fill the cell, a longer one is cut.
pub fill_cell_roundtrip_iff :
    (natomic : ℕ) (s : Text)
    → NullFree s
    → (length (fill_cell natomic s) ≡ natomic)
      × ((string_of_cell natomic (fill_cell natomic s) ≡ s) ↔ (length s ≡ natomic))
fill_cell_roundtrip_iff natomic s h = (
  length-fill_cell natomic s,
  (
    λ e. sym (ap length (sym (string_of_fill_cell natomic s h) ∙ e)) ∙ length-fill_cell natomic s,
    λ e. string_of_fill_cell natomic s h ∙ fill_cell_exact natomic s e,
  ),
)
