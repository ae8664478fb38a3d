-- ===== src/Store.antt =====
-- The objects of the program and the state of CFITSIO. Methods share File and HDU objects through
-- pointers, so both live in a store, by address; a Table is an HDU with columns at the same address.
use misfits.Prelude.{ℕ, ◌+◌, List, [], ◌==◌, if◌then◌else◌}
use misfits.Prelude.Int.{ℤ}
use misfits.Prelude.Text.{Text}
use misfits.Extent.{Extent}
use misfits.Types.{Spec, OpenMode}
use misfits.Cfitsio.{Call}
use misfits.Exception.{cfitsio, Result, ok, throw, Action}

-- class File (misfits/fits.hpp). `fitsptr` is zero once `close` has released it.
pub record File : Type 0 where
  pub fitsptr : ℕ
  pub mode : OpenMode
  pub file : Text

-- class HDU (misfits/hdu.hpp)
pub record Hdu : Type 0 where
  pub file : ℕ
  pub extname : Text
  pub extver : ℤ
  pub hdu_num : ℕ

-- class ColumnInfo (misfits/columninfo.hpp)
pub record ColumnInfo : Type 0 where
  pub ttype : Text
  pub tunit : Text
  pub column_type : Spec
  pub offset : ℤ
  pub nbytes : ℤ
  pub extent : Extent
  pub colnum : ℕ

-- `hdus` and `columns` hold the members of class Table (misfits/table.hpp) but `row_idx_`, which nothing
-- reads. Objects are allocated at `next_file` and `next_hdu`.
pub record Store (W : Type 0) : Type 0 where
  pub world : W
  pub files : ℕ → File
  pub hdus : ℕ → Hdu
  pub columns : ℕ → List ColumnInfo
  pub next_file : ℕ
  pub next_hdu : ℕ

abbrev pub update : {A : Type 0} → (ℕ → A) → ℕ → A → ℕ → A
update f p v q = if p == q then v else f q

abbrev pub checked : {A : Type 0} → ℕ → A → Result A
checked status a = if status == 0 then ok a else throw (cfitsio status)

module _ {W : Type 0} where
  -- A CFITSIO call, with its status left to the caller.
  unfoldable pub call : {A : Type 0} → Call W A → Action (Store W) (ℕ × A)
  call f s = let (status, a, w) = f s.world in (ok (status, a), record s { world = w })

  -- misFITS_CHECK_CFITSIO_EXPR (misfits/fits_p.hpp): a status other than zero is thrown.
  unfoldable pub check : {A : Type 0} → Call W A → Action (Store W) A
  check f s = let (status, a, w) = f s.world in (checked status a, record s { world = w })

  abbrev pub fptr : ℕ → Store W → ℕ
  fptr f s = (s.files f).fitsptr

  abbrev pub set_file : ℕ → File → Store W → Store W
  set_file f v s = record s { files = update s.files f v }

  abbrev pub set_hdu : ℕ → Hdu → Store W → Store W
  set_hdu t v s = record s { hdus = update s.hdus t v }

  abbrev pub set_columns : ℕ → List ColumnInfo → Store W → Store W
  set_columns t v s = record s { columns = update s.columns t v }

  -- `new File( … )` and the allocation of an HDU or a Table
  unfoldable pub new_file : File → Action (Store W) ℕ
  new_file v s = (
    ok s.next_file,
    record s { files = update s.files s.next_file v; next_file = s.next_file + 1 },
  )

  unfoldable pub new_hdu : Hdu → Action (Store W) ℕ
  new_hdu v s = (
    ok s.next_hdu,
    record s {
      hdus = update s.hdus s.next_hdu v;
      columns = update s.columns s.next_hdu [];
      next_hdu = s.next_hdu + 1;
    },
  )
