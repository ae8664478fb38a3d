-- ===== src/Hdu/Iterator.antt =====
-- Stepping through the keywords of an HDU (KeywordIterator in misfits/keyword.hpp, HDU::dump_keywords in
-- misfits/hdu.cc).
use misfits.Prelude.{ℕ, zero, suc, ◌+◌, ◌-◌, ◌<◌, ◌≡◌, ◌∙◌, sym, ap, false, ◌++◌, arith}
use misfits.Prelude.Text.{Text}
use misfits.Cfitsio.{Cfitsio}
use misfits.Exception.{Result, Action, ◌>>=◌}
use misfits.Store.{Store, Hdu, check, call}
use misfits.File.{move_to}
use misfits.Hdu.{
  Keyword, KeywordIterator, iterator_eq, read_keyn, current, advance_by, increment, post_increment,
  keyword_iterator, get_hdrpos, to_hdu, keyword_line, set_as_chdu, end_of, dump_between,
  dump_keywords,
}
use misfits.Exception.Ends.{Ends, bind-Ends, zoom-Ends}

-- Where an iterator stands after a step
abbrev pub StepsTo : {W : Type 0} → ℕ → Result (KeywordIterator × Keyword Text) × Store W → Type 0
StepsTo keynum = Ends (λ p. p.0.keynum ≡ keynum)

iterator_ne :
    (start finish : KeywordIterator)
    → start.keynum < finish.keynum
    → iterator_eq start finish ≡ false
iterator_ne start finish h = ground arith

module _ {W : Type 0} ⦃c : Cfitsio W⦄ where
  current-Ends : (it : KeywordIterator) (s : Store W) → Ends (λ _. Unit) (current it s)
  unfolding current read_keyn set_as_chdu move_to check call ◌>>=◌
  current-Ends it s = ground arith

  get_hdrpos-Ends : (hdu : Hdu) (s : Store W) → Ends (λ _. Unit) (get_hdrpos hdu s)
  unfolding get_hdrpos set_as_chdu move_to check call ◌>>=◌
  get_hdrpos-Ends hdu s = ground arith

  keyword_iterator-Ends :
      (hdup keynum : ℕ) (s : Store W)
      → Ends (λ it. (it.hdup ≡ hdup) × (it.keynum ≡ keynum)) (keyword_iterator hdup keynum s)
  unfolding keyword_iterator ◌>>=◌
  keyword_iterator-Ends hdup keynum s = ground (arith, get_hdrpos-Ends (s.hdus hdup) s)

  -- The prefix ++ steps to the next keyword; the postfix ++ stays at the keyword where it is. Both throw nothing but a
  -- failure of CFITSIO to read the keyword there.
  pub increment_lem :
      (it : KeywordIterator) (s : Store W)
      → StepsTo (it.keynum + 1) (increment it s) × StepsTo it.keynum (post_increment it s)
  unfolding advance_by ◌>>=◌
  increment_lem it s = (
    ground (arith, current-Ends (record it { keynum = it.keynum + 1 }) s),
    ground (arith, current-Ends (record it { keynum = it.keynum + 0 }) s),
  )

  increment-Ends :
      (it : KeywordIterator) (s : Store W)
      → Ends (λ p. (p.0.hdup ≡ it.hdup) × (p.0.keynum ≡ it.keynum + 1)) (increment it s)
  unfolding advance_by ◌>>=◌
  increment-Ends it s = ground (arith, current-Ends (record it { keynum = it.keynum + 1 }) s)

  to_hdu-Ends :
      {A : Type 0} (Q : A → Type 0) (m : Action (Store W) A) (s : Store W × Text)
      → Ends Q (m s.0)
      → Ends Q (to_hdu m s)
  to_hdu-Ends Q m s = zoom-Ends Q (λ s. s.0) (λ st s. (st, s.1)) m s

  -- From an iterator that is `fuel` keywords before the end, the loop reaches the end.
  dump_between-Ends :
      (fuel : ℕ) (start finish : KeywordIterator) (s : Store W × Text)
      → start.hdup ≡ finish.hdup
      → start.keynum + fuel ≡ finish.keynum
      → Ends (λ _. Unit) (dump_between fuel start finish s)
  unfolding dump_between ◌>>=◌
  dump_between-Ends zero start finish s same reach = ground arith
  dump_between-Ends (suc fuel) start finish s same reach =
      let left : start.keynum + 1 + fuel ≡ finish.keynum = omega arith in
      let apart : iterator_eq start finish ≡ false = iterator_ne start finish (omega arith) in
      let one_round =
        bind-Ends (λ _. Unit) (λ _. Unit) (to_hdu (current start)) _ s
          (to_hdu-Ends (λ _. Unit) (current start) s (current-Ends start s.0))
          (λ kw u _.
            bind-Ends (λ p. (p.0.hdup ≡ start.hdup) × (p.0.keynum ≡ start.keynum + 1)) (λ _. Unit)
              (to_hdu (increment start)) (λ x. dump_between fuel x.0 finish) _
              (to_hdu-Ends _ (increment start) (u.0, u.1 ++ keyword_line kw)
                (increment-Ends start u.0))
              (λ p v at.
                dump_between-Ends fuel p.0 finish v (at.0 ∙ same)
                  (ap (λ k. k + fuel) at.1 ∙ left))) in
      rw apart one_round

  -- `dump_keywords( os, 1 )`, which is what `dump_keywords()` calls, ends: it has gone through the keywords up to the
  -- end, or it throws a failure of CFITSIO. Its loop meets the end of the keywords, so it needs no more rounds than
  -- there are keywords.
  pub dump_keywords-Ends :
      (hdup : ℕ) (s : Store W × Text) → Ends (λ _. Unit) (dump_keywords hdup 1 s)
  unfolding dump_keywords end_of
  dump_keywords-Ends hdup s =
      bind-Ends (λ it. (it.hdup ≡ hdup) × (it.keynum ≡ 1)) (λ _. Unit)
        (to_hdu (keyword_iterator hdup 1)) _ s
        (to_hdu-Ends _ (keyword_iterator hdup 1) s (keyword_iterator-Ends hdup 1 s.0))
        (λ start u first.
          bind-Ends (λ it. (it.hdup ≡ start.hdup) × (it.keynum ≡ start.nkeys + 1)) (λ _. Unit)
            (to_hdu (end_of start)) _ u
            (to_hdu-Ends _ (end_of start) u
              (keyword_iterator-Ends start.hdup (start.nkeys + 1) u.0))
            (λ finish v last.
              dump_between-Ends (finish.keynum - start.keynum) start finish v (sym last.0)
                (omega (arith, first.1, last.1))))
