-- ===== src/File/Close.antt =====
-- Closing a file (File::close and ~File in misfits/fits.cc).
use misfits.Prelude.{ℕ, ◌≡◌, ◌≢◌, refl, arith}
use misfits.Cfitsio.{Cfitsio}
use misfits.Exception.{◌>>=◌, ok}
use misfits.Store.{Store, fptr, check}
use misfits.File.{close, close_fits_ptr, destroy}

module _ {W : Type 0} ⦃c : Cfitsio W⦄ where
  -- Whether or not CFITSIO reports an error, after `close` the file has no pointer left, and every other
  -- file keeps its own; so a second `close` succeeds, and touches neither the store nor CFITSIO.
  pub close_once :
      (f : ℕ) (s : Store W)
      → let s' = (close f s).1 in
        (fptr f s' ≡ 0) × ((g : ℕ) → g ≢ f → s'.files g ≡ s.files g) × (close f s' ≡ (ok tt, s'))
  unfolding close ◌>>=◌ check
  close_once f s = (ground arith, λ g ne. ground arith, ground arith)

  -- The destructor never throws, and leaves the state that `close` leaves: the pointer has been closed by then, or there was
  -- none, and it is not closed again.
  destroy_nothrow : (f : ℕ) (s : Store W) → destroy f s ≡ (ok tt, (close f s).1)
  unfolding destroy close_fits_ptr ◌>>=◌
  destroy_nothrow f s = rw ((close_once f s).0) refl
