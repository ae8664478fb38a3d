-- ===== src/Extent/Print.antt =====
-- The text of an extent (to_string in misfits/extent.cc), which Table::resize writes as the value of a TDIM keyword.
use misfits.Prelude.{
  ℕ, true, ◌+◌, ◌-◌, ◌*◌, ◌<◌, ◌≡◌, refl, ap, ◌∙◌, false, List, [], ◌∷◌, ◌++◌, map, Option, none,
  some, ◌==◌, if◌then◌else◌, arith,
}
use mathlib.Core.Option
use misfits.Prelude.Int.{pos}
use misfits.Prelude.Text.{Text, text_eq, show_int, show_nat}
use misfits.Prelude.Decimal.{is_digit, reader-show_nat, show_nat-NullFree}
use misfits.Prelude.CText.{NullFree, NullFree-append}
use misfits.Extent.{axes_text, to_string}

-- The axes of a TDIM value, as the FITS standard has them: decimal numbers with commas between them, in
-- parentheses. `n` is the number whose first digits have been read.
abbrev pub axes_from : ℕ → Text → Option (List ℕ)
axes_from n [] = none
axes_from n (b ∷ bs) =
    let more = axes_from 0 bs in
    let digit = axes_from (n * 10 + (b - b'0')) bs in
    let last = if text_eq bs [] then some (n ∷ []) else none in
    if b == b')'
    then last
    else if b == b','
    then Option.map (λ ns. n ∷ ns) more
    else if is_digit b
    then digit
    else none

abbrev pub parse_axes : Text → Option (List ℕ)
parse_axes [] = none
parse_axes (b ∷ bs) = let axes = axes_from 0 bs in if b == b'(' then axes else none

axes_from-digit :
    (m d : ℕ) (bs : Text) → d < 10 → axes_from m ((d + b'0') ∷ bs) ≡ axes_from (m * 10 + d) bs
axes_from-digit m d bs h =
    let e : d + b'0' - b'0' ≡ d = omega arith in
    let no_end : ((d + b'0') == b')') ≡ false = ground arith in
    let no_comma : ((d + b'0') == b',') ≡ false = ground arith in
    let digit : is_digit (d + b'0') ≡ true = ground arith in rw (no_end, no_comma, digit, e) refl

axes_from-show_nat : (n : ℕ) (rest : Text) → axes_from 0 (show_nat n ++ rest) ≡ axes_from n rest
axes_from-show_nat = reader-show_nat axes_from axes_from-digit

axes_from-axes_text :
    (n : ℕ) (ns : List ℕ) → axes_from 0 (axes_text (map pos (n ∷ ns))) ≡ some (n ∷ ns)
unfolding axes_text show_int
axes_from-axes_text n [] = axes_from-show_nat n (b')' ∷ [])
axes_from-axes_text n (m ∷ ns) =
    axes_from-show_nat n (b',' ∷ axes_text (map pos (m ∷ ns)))
    ∙ ap (Option.map (λ ns. n ∷ ns)) (axes_from-axes_text m ns)

-- The text of an extent of one axis or more, none of them negative, is read as its axes.
pub parse_axes-to_string :
    (n : ℕ) (ns : List ℕ) → parse_axes (to_string (map pos (n ∷ ns))) ≡ some (n ∷ ns)
unfolding to_string
parse_axes-to_string n ns = axes_from-axes_text n ns

axes_text-NullFree : (ns : List ℕ) → NullFree (axes_text (map pos ns))
unfolding axes_text show_int
axes_text-NullFree [] = tt
axes_text-NullFree (n ∷ []) =
    NullFree-append (show_nat n) (b')' ∷ []) (show_nat-NullFree n) ((λ e. omega arith), tt)
axes_text-NullFree (n ∷ m ∷ ns) =
    NullFree-append (show_nat n) (b',' ∷ axes_text (map pos (m ∷ ns))) (show_nat-NullFree n)
      ((λ e. omega arith), axes_text-NullFree (m ∷ ns))

-- The text of axes that are not negative holds no null character.
pub to_string-NullFree : (ns : List ℕ) → NullFree (to_string (map pos ns))
unfolding to_string
to_string-NullFree ns = ((λ e. omega arith), axes_text-NullFree ns)
