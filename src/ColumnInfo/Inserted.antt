-- ===== src/ColumnInfo/Inserted.antt =====
-- A column that ColumnInfo::insert (misfits/columninfo.cc) makes, and ColumnInfo::init reads.
use misfits.Prelude.{
  ℕ, ◌+◌, ◌*◌, ◌<◌, ◌≤◌, ◌≡◌, refl, sym, ap, ◌∙◌, false, List, [], ◌∷◌, ◌++◌, map, some, ltb,
  length, arith, inl, inr, Bool-cases, ◌==◌, if◌then◌else◌,
}
use mathlib.Core.List.{cons-ne-nil}
use native.Mathlib.Nat.{one-mul, mul-one}
use misfits.Prelude.Int.{ℤ, pos, ◌<ℤ?◌}
use misfits.Prelude.Text.{Text, show_int, show_nat}
use misfits.Prelude.Decimal.{is_digit, is_digit-digit, reader-show_nat, show_nat_head}
use misfits.Cfitsio.Columns.{letter_after, tform_parts}
use misfits.Types.{Spec, spec_code}
use misfits.Extent.{nelem, squeeze}
use misfits.Extent.Nelem.{product}
use misfits.Store.{ColumnInfo}
use misfits.ColumnInfo.{tform}

letter_after-digit :
    (m d : ℕ) (bs : Text) → d < 10 → letter_after m ((d + b'0') ∷ bs) ≡ letter_after (m * 10 + d) bs
letter_after-digit m d bs h =
    rw (is_digit-digit d h) (ap (λ k. letter_after (m * 10 + k) bs) (omega arith))

tform_parts-digit :
    (d : ℕ) (bs : Text) → d < 10 → tform_parts ((d + b'0') ∷ bs) ≡ letter_after 0 ((d + b'0') ∷ bs)
tform_parts-digit d bs h = rw (is_digit-digit d h) refl

tform_parts-show_nat :
    (n letter : ℕ)
    → is_digit letter ≡ false
    → tform_parts (show_nat n ++ (letter ∷ [])) ≡ some (n, letter)
tform_parts-show_nat n letter h =
    let (d, bs, small, e) = show_nat_head n in
    let last : letter_after n (letter ∷ []) ≡ some (n, letter) = rw h refl in
    ap (λ t. tform_parts (t ++ (letter ∷ []))) e
    ∙ tform_parts-digit d (bs ++ (letter ∷ [])) small
    ∙ ap (λ t. letter_after 0 (t ++ (letter ∷ []))) (sym e)
    ∙ reader-show_nat letter_after letter_after-digit n (letter ∷ [])
    ∙ last

spec_code-is_digit : (spec : Spec) → is_digit (spec_code spec) ≡ false
unfolding spec_code
spec_code-is_digit Spec.bit = refl
spec_code-is_digit _ = refl

tform_count :
    (ci : ColumnInfo) (n : ℕ)
    → nelem ci.extent ≡ pos n
    → tform ci ≡ (
        if ltb 1 n
        then show_nat n ++ (spec_code ci.column_type ∷ [])
        else spec_code ci.column_type ∷ [])
unfolding tform show_int
tform_count ci n e =
    let letter : Text = spec_code ci.column_type ∷ [] in
    ap (λ z. if pos 1 <ℤ? z then show_int z ++ letter else letter) e

-- What `tform` makes says the number of elements and the type.
pub tform_parts-tform :
    (ci : ColumnInfo) (n : ℕ)
    → nelem ci.extent ≡ pos n
    → 0 < n
    → tform_parts (tform ci) ≡ some (n, spec_code ci.column_type)
tform_parts-tform ci n e h =
    let letter = spec_code ci.column_type in
    let other = spec_code-is_digit ci.column_type in
    elim (Bool-cases (ltb 1 n)) [
      | inl many ↦ rw (tform_count ci n e, many) (tform_parts-show_nat n letter other)
      | inr one ↦
          let single : 1 ≡ n = ground arith in
          rw (tform_count ci n e, one, other) (ap (λ k. some (k, letter)) single)
    ]

squeeze-nil : (ns : List ℕ) → squeeze (map pos ns) ≡ [] → product ns ≡ 1
unfolding squeeze
squeeze-nil [] h = refl
squeeze-nil (n ∷ ns) h = elim (Bool-cases (n == 1)) [
  | inl one ↦ let unit : n ≡ 1 = ground arith in rw (unit, squeeze-nil ns (rw one at h)) refl
  | inr other ↦ absurd (cons-ne-nil _ _ (rw other at h))
]

length-zero : (e : List ℤ) → length e ≤ 0 → e ≡ []
length-zero [] h = refl
length-zero (x ∷ e) h = absurd (omega arith)

-- An extent that has one axis at most but those of length one has the shape of its number of elements.
pub squeeze-product :
    (ns : List ℕ)
    → length (squeeze (map pos ns)) ≤ 1
    → squeeze (pos (product ns) ∷ []) ≡ squeeze (map pos ns)
unfolding squeeze
squeeze-product [] h = refl
squeeze-product (n ∷ ns) h = elim (Bool-cases (n == 1)) [
  | inl one ↦
      let unit : n ≡ 1 = ground arith in
      rw (unit, one-mul (product ns)) (squeeze-product ns (rw one at h))
  | inr other ↦
      let few : length (pos n ∷ squeeze (map pos ns)) ≤ 1 = rw other at h in
      let nothing = length-zero (squeeze (map pos ns)) (omega arith) in
      rw (squeeze-nil ns nothing, mul-one n, other, nothing) refl
]
