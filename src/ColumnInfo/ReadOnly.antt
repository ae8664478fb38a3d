-- ===== src/ColumnInfo/ReadOnly.antt =====
-- Files that are open for reading alone (File::copy in misfits/fits.cc, ColumnInfo::insert in misfits/columninfo.cc).
use misfits.Prelude.{ℕ, ◌≡◌, arith}
use misfits.Cfitsio.{Cfitsio, readonly_file}
use misfits.Exception.{cfitsio, throw, ◌>>=◌}
use misfits.Types.{OpenMode}
use misfits.Store.{Store, ColumnInfo}
use misfits.File.{copy}
use misfits.ColumnInfo.{insert}

module _ {W : Type 0} ⦃c : Cfitsio W⦄ where
  -- Neither a copy of HDUs nor a new column is sent to a file that was opened for reading alone: both operations throw
  -- CFITSIO's status for such a file, before any call that could change it, and leave the state as it was.
  read_only_refused :
      (f outfile what morekeys : ℕ) (ci : ColumnInfo) (s : Store W)
      → (s.files outfile).mode ≡ OpenMode.read_only
      → (copy f outfile what morekeys s ≡ (throw (cfitsio readonly_file), s))
        × (insert ci outfile s ≡ (throw (cfitsio readonly_file), s))
  unfolding copy insert ◌>>=◌
  read_only_refused f outfile what morekeys ci s h = (ground arith, ground arith)
