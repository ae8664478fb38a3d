-- ===== src/Exception/Message/Buffer.antt =====
-- What the constructor of Exception::CFITSIO leaves in its buffer (misfits/exception.cc).
use misfits.Prelude.{
  ℕ, zero, suc, ◌+◌, ◌≡◌, ◌≤◌, ◌<◌, refl, sym, ap, ◌∙◌, true, false, inl, inr, Bool-cases, [], ◌∷◌,
  ◌++◌, ltb, if◌then◌else◌, length, drop, length-append, length-drop, arith, lt→ltb,
}
use mathlib.Core.List.{append_assoc}
use misfits.Prelude.Text.{Text, text}
use misfits.Prelude.CText.{until_null-append, NullFree, take-append, drop-append}
use misfits.Exception.{undefined, ok, throw, bind_result}
use misfits.Exception.Message.{put_string, string_end, put_line}

drop-length_add :
    (front junk : Text) (k : ℕ) → drop (length front + k) (front ++ junk) ≡ drop k junk
drop-length_add [] junk k = ap (λ n. drop n junk) (omega arith)
drop-length_add (b ∷ front) junk k =
    ap (λ n. drop n (b ∷ (front ++ junk))) {y = suc (length front + k)} (omega arith)
    ∙ drop-length_add front junk k

-- A string that is written behind `front` replaces what is there, if there is room for it and the null character.
put_string-append :
    (front s junk : Text)
    → put_string (length front) s (front ++ junk) ≡ (
        if ltb (length s) (length junk)
        then ok (front ++ (s ++ (0 ∷ drop (length s + 1) junk)))
        else throw undefined)
unfolding put_string
put_string-append front s junk =
    let test : ltb (length front + length s) (length (front ++ junk))
        ≡ ltb (length s) (length junk) =
      rw (length-append front junk) (ground arith) in
    let after : drop (length front + length s + 1) (front ++ junk) ≡ drop (length s + 1) junk =
      ap (λ n. drop n (front ++ junk)) (omega arith) ∙ drop-length_add front junk (length s + 1) in
    rw (test, take-append (length front) front junk refl, after) refl

string_end-append :
    (front s junk : Text)
    → NullFree s
    → string_end (length front) (front ++ (s ++ (0 ∷ junk))) ≡ length (front ++ s)
unfolding string_end
string_end-append front s junk h =
    rw
      (
        drop-append (length front) front (s ++ (0 ∷ junk)) refl,
        until_null-append s junk h,
        length-append front s,
      )
      refl

drop-drop_one : (n : ℕ) (s : Text) → drop 1 (drop n s) ≡ drop (suc n) s
drop-drop_one zero s = refl
drop-drop_one (suc n) [] = refl
drop-drop_one (suc n) (b ∷ s) = drop-drop_one n s

-- What the two calls of `put_string` do, the second one at the end of what the first one wrote
put_line-append :
    (front s junk : Text)
    → NullFree s
    → ltb (length s) (length junk) ≡ true
    → put_line (length front) s (front ++ junk)
      ≡ bind_result
          (if ltb 0 (length (drop (length s + 1) junk))
            then ok ((front ++ s) ++ (text "\n" ++ (0 ∷ drop 1 (drop (length s + 1) junk))))
            else throw undefined)
          (λ ended. ok (length (front ++ s) + 1, ended))
unfolding put_line
put_line-append front s junk h short =
    let junk' = drop (length s + 1) junk in
    let shift : ltb 1 (length (0 ∷ junk')) ≡ ltb 0 (length junk') = ground arith in
    rw
      (
        put_string-append front s junk,
        short,
        string_end-append front s junk' h,
        ← append_assoc front s (0 ∷ junk'),
        put_string-append (front ++ s) (text "\n") (0 ∷ junk'),
        shift,
      )
      refl

-- A line is written behind `front` with the null character behind it.
pub put_line-fits :
    (front s junk : Text)
    → NullFree s
    → length s + 1 < length junk
    → put_line (length front) s (front ++ junk)
      ≡ ok (
        length (front ++ (s ++ text "\n")),
        (front ++ (s ++ text "\n")) ++ (0 ∷ drop (length s + 2) junk),
      )
put_line-fits front s junk h room =
    let junk' = drop (length s + 1) junk in
    let short = lt→ltb (length s) (length junk) (omega arith) in
    let left = lt→ltb 0 (length junk') (omega (arith, length-drop (length s + 1) junk)) in
    let line : front ++ (s ++ text "\n") ≡ (front ++ s) ++ text "\n" =
      sym (append_assoc front s (text "\n")) in
    let end : length ((front ++ s) ++ text "\n") ≡ length (front ++ s) + 1 =
      length-append (front ++ s) (text "\n") in
    let two : suc (length s + 1) ≡ length s + 2 = omega arith in
    rw
      (
        put_line-append front s junk h short,
        left,
        line,
        end,
        append_assoc (front ++ s) (text "\n") (0 ∷ drop (length s + 2) junk),
        drop-drop_one (length s + 1) junk,
        two,
      )
      refl

-- A line with no room for it and the null character behind it leaves the buffer.
pub put_line-overruns :
    (front s junk : Text)
    → NullFree s
    → length junk ≤ length s + 1
    → put_line (length front) s (front ++ junk) ≡ throw undefined
unfolding put_line
put_line-overruns front s junk h full = elim (Bool-cases (ltb (length s) (length junk))) [
  | inl short ↦
      let none_left : ltb 0 (length (drop (length s + 1) junk)) ≡ false =
        rw (length-drop (length s + 1) junk) (ground arith) in
      rw (put_line-append front s junk h short, none_left) refl
  | inr over ↦ rw (put_string-append front s junk, over) refl
]
