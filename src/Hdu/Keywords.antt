-- ===== src/Hdu/Keywords.antt =====
-- Reading and setting keywords (HDU::get_keyword, set_keyword and has_keyword in misfits/hdu.cc).
use misfits.Prelude.{◌≡◌, ◌≤◌, true, length, arith}
use misfits.Prelude.Int.{ℤ}
use misfits.Prelude.Text.{Text}
use misfits.Prelude.CText.{until_null}
use misfits.Cfitsio.{Cfitsio, flen_comment}
use misfits.Cfitsio.Laws.{UpdatesKey, MovesTo, keeps_digits}
use misfits.Exception.{ok, ◌>>=◌}
use misfits.Types.{Native, storage_code}
use misfits.Store.{Store, Hdu, check, call, fptr}
use misfits.File.{move_to, hdu_num}
use misfits.File.Move.{move_to_lem}
use misfits.Hdu.{Keyword, set_as_chdu, get_keyword, set_keyword}

module _ {W : Type 0} ⦃c : Cfitsio W⦄ where
  pub set_as_chdu-stays :
      (hdu : Hdu) (s : Store W) → hdu_num hdu.file s ≡ hdu.hdu_num → set_as_chdu hdu s ≡ (ok tt, s)
  unfolding set_as_chdu move_to ◌>>=◌
  set_as_chdu-stays hdu s h = ground arith

  pub set_as_chdu_moves :
      MovesTo c
      → (hdu : Hdu) (s : Store W) → (set_as_chdu hdu s).0 ≡ ok tt
      → hdu_num hdu.file (set_as_chdu hdu s).1 ≡ hdu.hdu_num
  unfolding set_as_chdu
  set_as_chdu_moves moves hdu s h = move_to_lem moves hdu.file hdu.hdu_num s h

  -- If CFITSIO moves to the HDU that it is told to, and reads back a keyword that it has updated, then a value that
  -- has been set in an HDU comes back from it, as a defined keyword, whatever the default is; where it is an integer
  -- that is written digit by digit, in the range of its type. The comment that comes back may be another, and has room
  -- in the buffer.
  pub set_keyword_roundtrip :
      UpdatesKey c
      → MovesTo c
      → (T : Native) (hdu : Hdu) (kw : Keyword ℤ) (default_value : ℤ) (s : Store W)
      → let (r, s') = set_keyword T hdu kw s in
        r ≡ ok tt
        → keeps_digits (storage_code T) kw.value ≡ true
        → (comment : Text) × (length comment ≤ flen_comment)
          × ((get_keyword T hdu kw.keyname default_value s').0
              ≡ ok (record kw { comment = comment; is_defined = true }))
  unfolding set_keyword get_keyword check call ◌>>=◌
  set_keyword_roundtrip updates moves T hdu kw default_value s h digits =
      let s₁ = (set_as_chdu hdu s).1 in
      let s' = (set_keyword T hdu kw s).1 in
      let (_, (_, comment), _) =
        c.read_key (fptr hdu.file s') (storage_code T) kw.keyname s'.world in
      let facts : (length comment ≤ flen_comment)
          × ((get_keyword T hdu kw.keyname default_value s').0
              ≡ ok (record kw { comment = comment; is_defined = true })) =
        ground (
          arith,
          updates (fptr hdu.file s₁) (storage_code T) kw.keyname kw.value (until_null kw.comment)
              s₁.world,
          set_as_chdu_moves moves hdu s,
          set_as_chdu-stays hdu (set_keyword T hdu kw s).1,
        ) in
      (comment, facts.0, facts.1)
