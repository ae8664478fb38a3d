-- ===== src/Tests/Headers.antt =====
-- Files and HDUs: closing, moving, keywords.
use misfits.Prelude.{ℕ, ◌≡◌, ◌≢◌, ◌≤◌, length, refl, true, [], ◌∷◌, ◌++◌, arith}
use misfits.Prelude.Int.{ℤ, pos}
use misfits.Prelude.Text.{Text, text}
use misfits.Exception.{ok, throw, cfitsio, throw_if, ◌>>=◌}
use misfits.Exception.Ends.{Ends}
use misfits.Types.{int, storage_code}
use misfits.Cfitsio.{flen_comment}
use misfits.Prelude.CText.{until_null}
use misfits.Store.{Store, Hdu, check, call, fptr}
use misfits.File.{close, hdu_num, move_to, reset_hdu, reset_hdu_end}
use misfits.File.Close.{close_once}
use misfits.File.Move.{reset_hdu_restores}
use misfits.Hdu.{
  Keyword, keyword, KeywordIterator, increment, post_increment, advance_by, current, get_keyword,
  set_keyword, set_as_chdu, dump_keywords, dump_between, keyword_iterator, end_of, get_hdrpos,
  set_keyword_string, get_keyword_string, write_string, read_keyn, read_string, assigned,
}
use misfits.Hdu.Iterator.{StepsTo, increment_lem, dump_keywords-Ends}
use misfits.Hdu.Keywords.{set_keyword_roundtrip}
use misfits.Cfitsio.Laws.{ListsKeywords}
use misfits.Exception.Gives.{Gives}
use misfits.Hdu.Dump.{dump_keywords_lem, Lists, lines_from}
use misfits.Tests.Sim.{Sim, sim, start, sim-MovesTo, sim-UpdatesKey}

-- CFITSIO fails to close this file; its pointer is gone nevertheless.
close_fails : (close ⦃c = sim⦄ 0 start).0 ≡ throw (cfitsio 115)
unfolding close check ◌>>=◌
close_fails = refl

close_once_example :
    let s' = (close ⦃c = sim⦄ 0 start).1 in
    (fptr 0 s' ≡ 0)
    × ((g : ℕ) → g ≢ 0 → s'.files g ≡ start.files g)
    × (close ⦃c = sim⦄ 0 s' ≡ (ok tt, s'))
close_once_example = close_once ⦃c = sim⦄ 0 start

-- The file is at its second HDU before, and somebody else moves it to the third.
abbrev at_hdu : ℕ → Store Sim
at_hdu n = record start { world = record start.world { chdu = n } }

reset_began : (reset_hdu ⦃c = sim⦄ 0 1 (at_hdu 2)).0 ≡ ok 2
unfolding reset_hdu move_to check ◌>>=◌
reset_began = refl

reset_ended : (reset_hdu_end ⦃c = sim⦄ 0 2 (at_hdu 3)).0 ≡ ok tt
unfolding reset_hdu_end move_to check ◌>>=◌
reset_ended = refl

reset_hdu_restores_example :
    hdu_num ⦃c = sim⦄ 0 (reset_hdu_end ⦃c = sim⦄ 0 2 (at_hdu 3)).1 ≡ hdu_num ⦃c = sim⦄ 0 (at_hdu 2)
reset_hdu_restores_example =
    reset_hdu_restores ⦃c = sim⦄ sim-MovesTo 0 1 (at_hdu 2) (at_hdu 3) reset_began reset_ended

abbrev second : Hdu
second = record { file = 0; extname = []; extver = pos 1; hdu_num = 2 }

abbrev exposure : Keyword ℤ
exposure = keyword (text "EXPOSURE") (pos 1200) (text "seconds") true

keyword_set : (set_keyword ⦃c = sim⦄ int second exposure start).0 ≡ ok tt
unfolding set_keyword set_as_chdu move_to check ◌>>=◌
keyword_set = refl

set_keyword_roundtrip_example :
    (comment : Text) × (length comment ≤ flen_comment)
    × ((get_keyword ⦃c = sim⦄ int second
          (text "EXPOSURE")
          (pos 5)
          (set_keyword ⦃c = sim⦄ int second exposure start).1).0
        ≡ ok (record exposure { comment = comment }))
unfolding storage_code
set_keyword_roundtrip_example =
    set_keyword_roundtrip ⦃c = sim⦄ sim-UpdatesKey sim-MovesTo int second exposure (pos 5) start
      keyword_set refl

abbrev first_keyword : KeywordIterator
first_keyword = record { hdup = 1; keynum = 1; nkeys = 2 }

increment_lem_example :
    StepsTo 2 (increment ⦃c = sim⦄ first_keyword start)
    × StepsTo 1 (post_increment ⦃c = sim⦄ first_keyword start)
increment_lem_example = increment_lem ⦃c = sim⦄ first_keyword start

dump_keywords-Ends_example : Ends (λ _. Unit) (dump_keywords ⦃c = sim⦄ 1 1 (start, []))
dump_keywords-Ends_example = dump_keywords-Ends ⦃c = sim⦄ 1 (start, [])

dumped :
    ((dump_keywords ⦃c = sim⦄ 1 1 (start, [])).0 ≡ ok tt)
    × ((dump_keywords ⦃c = sim⦄ 1 1 (start, [])).1.1 ≡ text "KEY = 1\nKEY = 1\n")
unfolding dump_keywords dump_between keyword_iterator end_of get_hdrpos read_keyn current advance_by
    set_as_chdu move_to check call ◌>>=◌
dumped = (refl, refl)

abbrev target : Keyword Text
target = keyword (text "OBJECT") (text "M31") (text "the target") true

-- A value is cut at a null character when it is set.
abbrev with_null : Keyword Text
with_null = keyword (text "OBJECT") (b'M' ∷ 0 ∷ b'3' ∷ []) (text "the target") true

value_cut :
    (get_keyword_string ⦃c = sim⦄ second
      (text "OBJECT")
      []
      (set_keyword_string ⦃c = sim⦄ second with_null start).1).0
    ≡ ok (record with_null { value = text "M" })
unfolding set_keyword_string get_keyword_string set_as_chdu move_to write_string read_string
    assigned until_null check call throw_if ◌>>=◌
value_cut = refl

-- In each HDU of this file there are two keywords.
abbrev cards : ℕ → Text × Text × Text
cards k = (text "KEY", text "1", [])

sim-ListsKeywords : ListsKeywords sim (λ w. Unit) 9 2 cards 2
sim-ListsKeywords = record {
  moves = λ w h. tt;
  counts = λ w h at. (λ e. refl, tt);
  reads = λ k w h at. ground arith;
}

dump_keywords_lem_example :
    Gives
      (λ _ s'.
        (s'.1 ≡ text "# " ++ lines_from cards 1 2) × Lists {W = Sim} (λ w. Unit) 1 second 9 s'.0)
      (dump_keywords ⦃c = sim⦄ 1 1 (start, text "# "))
dump_keywords_lem_example =
    dump_keywords_lem ⦃c = sim⦄ (λ w. Unit) 1 second 9 cards 2 sim-MovesTo sim-ListsKeywords
      (text "# ") start (refl, refl, tt)
