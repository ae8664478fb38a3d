-- ===== src/Hdu/Dump.antt =====
-- What HDU::dump_keywords (misfits/hdu.cc) writes.
use misfits.Prelude.{ℕ, zero, suc, ◌+◌, ◌-◌, ◌≡◌, refl, sym, ap, ◌∙◌, true, false, [], ◌++◌, arith}
use mathlib.Core.List.{append_assoc, append-nil}
use misfits.Prelude.Text.{Text}
use misfits.Cfitsio.{Cfitsio}
use misfits.Exception.{Action, gets, modify, ◌>>=◌, pure}
use misfits.Exception.Gives.{Gives, bind-Gives, zoom-Gives}
use misfits.Store.{Store, Hdu, fptr, check, call}
use misfits.File.{move_to}
use misfits.Cfitsio.Laws.{MovesTo, ListsKeywords}
use misfits.Hdu.{
  keyword, set_as_chdu, read_keyn, get_hdrpos, return_keyword, KeywordIterator, iterator_eq,
  current, advance_by, increment, keyword_iterator, to_hdu, keyword_line, end_of, dump_between,
  dump_keywords,
}

-- What operator () of keyword_output writes of a keyword with the given card
abbrev pub card_line : Text × Text × Text → Text
card_line (name, value, comment) = keyword_line (keyword name value comment true)

-- The lines of the keywords from the k-th on, as many as there are to be
abbrev pub lines_from : (ℕ → Text × Text × Text) → ℕ → ℕ → Text
lines_from cards k zero = []
lines_from cards k (suc left) = card_line (cards k) ++ lines_from cards (k + 1) left

module _ {W : Type 0} (P : W → Type 0) (t : ℕ) (hdu : Hdu) (fitsptr : ℕ) where
  -- The HDU at address t is `hdu`, and its file has the pointer.
  abbrev pub Lists : Store W → Type 0
  Lists s = (s.hdus t ≡ hdu) × (fptr hdu.file s ≡ fitsptr) × P s.world

module _ {W : Type 0} ⦃c : Cfitsio W⦄ (P : W → Type 0) (t : ℕ) (hdu : Hdu) (fitsptr : ℕ)
    (cards : ℕ → Text × Text × Text) (n : ℕ) (moves_to : MovesTo c)
    (lists : ListsKeywords c P fitsptr hdu.hdu_num cards n) where
  abbrev at_key : ℕ → KeywordIterator
  at_key k = record { hdup = t; keynum = k; nkeys = n }

  set_as_chdu-Gives :
      (s : Store W)
      → Lists P t hdu fitsptr s
      → Gives
          (λ _ s'. Lists P t hdu fitsptr s' × (c.get_hdu_num fitsptr s'.world ≡ hdu.hdu_num))
          (set_as_chdu hdu s)
  unfolding set_as_chdu move_to check ◌>>=◌
  set_as_chdu-Gives s h =
      ground (arith, moves_to fitsptr hdu.hdu_num s.world, lists.moves s.world h.2)

  card-Gives :
      (k : ℕ) (s : Store W)
      → Lists P t hdu fitsptr s
      → c.get_hdu_num fitsptr s.world ≡ hdu.hdu_num
      → Gives
          (λ kw s'. (keyword_line kw ≡ card_line (cards k)) × Lists P t hdu fitsptr s')
          ((do
            p ← gets (fptr hdu.file)
            (status, (keyname, value, comment)) ← call (c.read_keyn p k)
            return_keyword keyname value [] comment status)
            s)
  unfolding call ◌>>=◌
  card-Gives k s h at = ground (arith, lists.reads k s.world h.2 at)

  current-Gives :
      (k : ℕ) (s : Store W)
      → Lists P t hdu fitsptr s
      → Gives
          (λ kw s'. (keyword_line kw ≡ card_line (cards k)) × Lists P t hdu fitsptr s')
          (current (at_key k) s)
  unfolding current read_keyn ◌>>=◌
  current-Gives k s h = rw h.0 (
      bind-Gives _ _ (set_as_chdu hdu) _ s (set_as_chdu-Gives s h)
        (λ _ s' q. card-Gives k s' q.0 q.1))

  increment-Gives :
      (k : ℕ) (s : Store W)
      → Lists P t hdu fitsptr s
      → Gives (λ p s'. (p.0 ≡ at_key (k + 1)) × Lists P t hdu fitsptr s') (increment (at_key k) s)
  unfolding advance_by pure
  increment-Gives k s h =
      bind-Gives _ _ (current (at_key (k + 1))) _ s (current-Gives (k + 1) s h)
        (λ kw s' q. (refl, q.1))

  count-Gives :
      (s : Store W)
      → Lists P t hdu fitsptr s
      → c.get_hdu_num fitsptr s.world ≡ hdu.hdu_num
      → Gives
          (λ found s'. (found.0 ≡ n) × Lists P t hdu fitsptr s')
          ((do p ← gets (fptr hdu.file); check (c.get_hdrpos p)) s)
  unfolding check ◌>>=◌
  count-Gives s h at = ground (arith, lists.counts s.world h.2 at)

  get_hdrpos-Gives :
      (s : Store W)
      → Lists P t hdu fitsptr s
      → Gives (λ found s'. (found.0 ≡ n) × Lists P t hdu fitsptr s') (get_hdrpos hdu s)
  unfolding get_hdrpos
  get_hdrpos-Gives s h =
      bind-Gives _ _ (set_as_chdu hdu) _ s (set_as_chdu-Gives s h)
        (λ _ s' q. count-Gives s' q.0 q.1)

  iterator-Gives :
      (k : ℕ) (s : Store W)
      → Lists P t hdu fitsptr s
      → Gives (λ it s'. (it ≡ at_key k) × Lists P t hdu fitsptr s') (keyword_iterator t k s)
  unfolding keyword_iterator pure ◌>>=◌
  iterator-Gives k s h = rw h.0 (
      bind-Gives _ _ (get_hdrpos hdu) _ s (get_hdrpos-Gives s h)
        (λ found s' q. (ap (λ m. record { hdup = t; keynum = k; nkeys = m }) q.0, q.1)))

  -- The state of `dump_keywords`, which holds the stream
  abbrev Wrote : Text → Store W × Text → Type 0
  Wrote out s = (s.1 ≡ out) × Lists P t hdu fitsptr s.0

  -- Reading leaves the stream alone.
  reads-Gives :
      {A : Type 0} (Q : A → Type 0) (m : Action (Store W) A) (out : Text) (s : Store W × Text)
      → Wrote out s
      → Gives (λ a s'. Q a × Lists P t hdu fitsptr s') (m s.0)
      → Gives (λ a s'. Q a × Wrote out s') (to_hdu m s)
  reads-Gives Q m out s h g = zoom-Gives _ _ _ _ m s (λ a s' q. (q.0, (h.0, q.1))) g

  dump_between-Gives :
      (left k : ℕ) (out : Text) (s : Store W × Text)
      → Wrote out s
      → Gives
          (λ _ s'. Wrote (out ++ lines_from cards k left) s')
          (dump_between left (at_key k) (at_key (k + left)) s)
  unfolding dump_between pure modify ◌>>=◌
  dump_between-Gives zero k out s h =
      let met : iterator_eq (at_key k) (at_key (k + 0)) ≡ true = ground arith in
      rw met (h.0 ∙ sym (append-nil out), h.1)
  dump_between-Gives (suc left) k out s h =
      let apart : iterator_eq (at_key k) (at_key (k + suc left)) ≡ false = ground arith in
      let ends : k + suc left ≡ k + 1 + left = omega arith in
      let line = card_line (cards k) in
      rw apart (
        bind-Gives (λ kw s'. (keyword_line kw ≡ line) × Wrote out s') _
          (to_hdu (current (at_key k))) _ s
          (reads-Gives (λ kw. keyword_line kw ≡ line) (current (at_key k)) out s h
            (current-Gives k s.0 h.1))
          (λ kw u q.
            bind-Gives (λ p s'. (p.0 ≡ at_key (k + 1)) × Wrote (out ++ line) s') _
              (to_hdu (increment (at_key k))) (λ x. dump_between left x.0 (at_key (k + suc left))) _
              (reads-Gives (λ p. p.0 ≡ at_key (k + 1)) (increment (at_key k)) (out ++ line)
                (u.0, u.1 ++ keyword_line kw) (rw (q.1.0, q.0) refl, q.1.1)
                (increment-Gives k u.0 q.1.1))
              (λ p v r.
                rw (r.0, ends, ← append_assoc out line (lines_from cards (k + 1) left))
                  (dump_between-Gives left (k + 1) (out ++ line) v r.1))))

  -- If CFITSIO moves to the HDU that it is told to, finds n keywords there and reads the k-th one as `cards k`, which
  -- does not change meanwhile, `dump_keywords( os, 1 )`, if it does not throw, has appended to the stream the lines of
  -- the n keywords, in their order and each once, and nothing else.
  pub dump_keywords_lem :
      (out : Text) (s : Store W)
      → Lists P t hdu fitsptr s
      → Gives
          (λ _ s'. (s'.1 ≡ out ++ lines_from cards 1 n) × Lists P t hdu fitsptr s'.0)
          (dump_keywords t 1 (s, out))
  unfolding dump_keywords end_of
  dump_keywords_lem out s h =
      bind-Gives (λ it s'. (it ≡ at_key 1) × Wrote out s') _ (to_hdu (keyword_iterator t 1)) _
        (s, out)
        (reads-Gives (λ it. it ≡ at_key 1) (keyword_iterator t 1) out (s, out) (refl, h)
          (iterator-Gives 1 s h))
        (λ start u first.
          bind-Gives (λ it s'. (it ≡ at_key (n + 1)) × Wrote out s') _ (to_hdu (end_of start)) _ u
            (rw first.0 (
              reads-Gives (λ it. it ≡ at_key (n + 1)) (keyword_iterator t (n + 1)) out u first.1
                (iterator-Gives (n + 1) u.0 first.1.1)))
            (λ finish v last.
              let rounds : n + 1 - 1 ≡ n = omega arith in
              let ends : n + 1 ≡ 1 + n = omega arith in
              rw (first.0, last.0, rounds, ends) (dump_between-Gives n 1 out v last.1)))
