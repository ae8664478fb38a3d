-- ===== src/Table/Layout/Frame.antt =====
-- What leaves the cached columns of every table alone: the methods of HDU and File, and the description of
-- one column.
use misfits.Prelude.{ℕ, ◌≡◌, List}
use misfits.Prelude.Int.{ℤ}
use misfits.Cfitsio.{Call, Cfitsio}
use misfits.Exception.{modify}
use misfits.Exception.Keeps.{Keeps, keeps_rules}
use misfits.Types.{Native, Spec}
use misfits.Prelude.Text.{Text}
use misfits.Store.{Store, Hdu, ColumnInfo, check, call, set_hdu}
use misfits.File.{move_to, hdu_type}
use misfits.Hdu.{set_as_chdu, hdu_refresh, get_keyword, get_keyword_string, read_string}
use misfits.ColumnInfo.{init, read_extent}
use misfits.Table.{num_columns}

-- An action that leaves every table's columns alone
abbrev pub SameColumns : {W : Type 0} → (ℕ → List ColumnInfo) → Store W → Type 0
SameColumns columns s = s.columns ≡ columns

module _ {W : Type 0} {columns : ℕ → List ColumnInfo} where
  pub check-SameColumns :
      {A : Type 0} (f : Call W A) → Keeps (SameColumns {W = W} columns) (check f)
  unfolding check
  check-SameColumns f = record { at = λ s h. h }

  pub call-SameColumns : {A : Type 0} (f : Call W A) → Keeps (SameColumns {W = W} columns) (call f)
  unfolding call
  call-SameColumns f = record { at = λ s h. h }

  pub set_hdu-SameColumns :
      (t : ℕ) (v : Hdu) → Keeps (SameColumns {W = W} columns) (modify (set_hdu t v))
  unfolding modify
  set_hdu-SameColumns t v = record { at = λ s h. h }

pub ruleset same_columns = (keeps_rules, check-SameColumns, call-SameColumns, set_hdu-SameColumns)

module _ {W : Type 0} ⦃c : Cfitsio W⦄ {columns : ℕ → List ColumnInfo} where
  move_to-SameColumns : (f n : ℕ) → Keeps (SameColumns {W = W} columns) (move_to f n)
  unfolding move_to
  move_to-SameColumns f n = search same_columns depth 9

  pub set_as_chdu-SameColumns : (hdu : Hdu) → Keeps (SameColumns {W = W} columns) (set_as_chdu hdu)
  unfolding set_as_chdu
  set_as_chdu-SameColumns hdu = move_to-SameColumns hdu.file hdu.hdu_num

  read_string-SameColumns :
      (hdu : Hdu) (k d : Text) (n : ℕ) → Keeps (SameColumns {W = W} columns) (read_string hdu k d n)
  unfolding read_string
  read_string-SameColumns hdu k d n = search same_columns depth 9

  pub get_keyword_string-SameColumns :
      (hdu : Hdu) (k d : Text) → Keeps (SameColumns {W = W} columns) (get_keyword_string hdu k d)
  unfolding get_keyword_string
  get_keyword_string-SameColumns hdu k d =
      search (same_columns, set_as_chdu-SameColumns, read_string-SameColumns) depth 12

  get_keyword-SameColumns :
      (T : Native) (hdu : Hdu) (k : Text) (d : ℤ)
      → Keeps (SameColumns {W = W} columns) (get_keyword T hdu k d)
  unfolding get_keyword
  get_keyword-SameColumns T hdu k d = search (same_columns, set_as_chdu-SameColumns) depth 12

  pub hdu_refresh-SameColumns : (t : ℕ) → Keeps (SameColumns {W = W} columns) (hdu_refresh t)
  unfolding hdu_refresh
  hdu_refresh-SameColumns t =
      search
        (
          same_columns, set_as_chdu-SameColumns, get_keyword_string-SameColumns,
          get_keyword-SameColumns,
        )
        depth 14

  pub hdu_type-SameColumns : (f : ℕ) → Keeps (SameColumns {W = W} columns) (hdu_type f)
  unfolding hdu_type
  hdu_type-SameColumns f = search same_columns depth 9

  pub num_columns-SameColumns : (t : ℕ) → Keeps (SameColumns {W = W} columns) (num_columns t)
  unfolding num_columns
  num_columns-SameColumns t = search (same_columns, set_as_chdu-SameColumns) depth 9

  read_extent-SameColumns :
      (f n : ℕ) (spec : Spec) (a b : ℤ)
      → Keeps (SameColumns {W = W} columns) (read_extent f n spec a b)
  unfolding read_extent
  read_extent-SameColumns f n spec a b = search same_columns depth 12

  pub init-SameColumns : (f : ℕ) (o : ℤ) (n : ℕ) → Keeps (SameColumns {W = W} columns) (init f o n)
  unfolding init
  init-SameColumns f o n =
      search (same_columns, hdu_type-SameColumns, read_extent-SameColumns) depth 18
