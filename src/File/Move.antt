-- ===== src/File/Move.antt =====
-- The current HDU of a file (File::move_to in misfits/fits.cc and resetHDU in misfits/fits_p.hpp).
use misfits.Prelude.{ℕ, ◌≡◌, ◌∙◌, arith}
use misfits.Cfitsio.{Cfitsio}
use misfits.Cfitsio.Laws.{MovesTo}
use misfits.Exception.{◌>>=◌, ok}
use misfits.Store.{Store, fptr, check}
use misfits.File.{hdu_num, move_to, reset_hdu, reset_hdu_end}

module _ {W : Type 0} ⦃c : Cfitsio W⦄ where
  -- `move_to` touches nothing of the store but CFITSIO's state, whatever its outcome.
  pub move_to_frame :
      (f n : ℕ) (s : Store W)
      → let s' = (move_to f n s).1 in
        (s'.files ≡ s.files)
        × (s'.hdus ≡ s.hdus)
        × (s'.columns ≡ s.columns)
        × (s'.next_hdu ≡ s.next_hdu)
  unfolding move_to ◌>>=◌ check
  move_to_frame f n s = ground arith

  -- If CFITSIO moves to the HDU that it is told to, and `move_to` succeeds, the wanted HDU is the current one; so it is
  -- where `move_to` finds the file there already and makes no call.
  pub move_to_lem :
      MovesTo c
      → (f n : ℕ) (s : Store W) → (move_to f n s).0 ≡ ok tt
      → hdu_num f (move_to f n s).1 ≡ n
  unfolding move_to ◌>>=◌ check
  move_to_lem moves f n s h = ground (arith, moves (fptr f s) n s.world)

  reset_hdu_chdu :
      (f n : ℕ) (s : Store W) {chdu : ℕ} → (reset_hdu f n s).0 ≡ ok chdu → chdu ≡ hdu_num f s
  unfolding reset_hdu move_to ◌>>=◌ check
  reset_hdu_chdu f n s h = ground arith

  -- If CFITSIO moves to the HDU that it is told to, the HDU that was current before a resetHDU object moved the file is
  -- current again when the object has been destroyed, if both moves succeed, whatever was done between them.
  pub reset_hdu_restores :
      MovesTo c
      → (f n : ℕ) (before between : Store W) {chdu : ℕ} → (reset_hdu f n before).0 ≡ ok chdu
      → (reset_hdu_end f chdu between).0 ≡ ok tt
      → hdu_num f (reset_hdu_end f chdu between).1 ≡ hdu_num f before
  unfolding reset_hdu_end
  reset_hdu_restores moves f n before between {chdu} h k =
      move_to_lem moves f chdu between k ∙ reset_hdu_chdu f n before h
