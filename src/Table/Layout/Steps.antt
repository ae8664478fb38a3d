-- ===== src/Table/Layout/Steps.antt =====
-- The steps of which the methods of Table are made keep the columns of all tables laid out; `refresh` too.
use misfits.Prelude.{ℕ, ◌≡◌, refl, arith, true, ◌==◌, List, []}
use misfits.Prelude.Int.{pos}
use misfits.Prelude.Text.{Text}
use misfits.Cfitsio.{Call, Cfitsio}
use misfits.Exception.{Action, modify, ◌>>=◌, ◌>>◌}
use misfits.Exception.Keeps.{Keeps, keeps_rules}
use misfits.Store.{
  Store, Hdu, File, ColumnInfo, check, call, set_hdu, set_columns, new_hdu, new_file,
}
use misfits.File.{hdu_type}
use misfits.Hdu.{set_as_chdu, get_keyword_string, hdu_refresh}
use misfits.Table.{num_columns, refresh, push_columns}
use misfits.Table.Layout.{AllLaidOut}
use misfits.Table.Layout.Frame.{
  SameColumns, same_columns, set_as_chdu-SameColumns, get_keyword_string-SameColumns,
  hdu_refresh-SameColumns, hdu_type-SameColumns, num_columns-SameColumns,
}
use misfits.Table.Layout.Refresh.{same-AllLaidOut, update-AllLaidOut, push_columns-Pushed}

abbrev pub KeepsLayout : {W A : Type 0} → Action (Store W) A → Type 0
KeepsLayout {W} m = Keeps (AllLaidOut {W = W}) m

module _ {W : Type 0} where
  Keeps-of_same :
      {A : Type 0} (m : Action (Store W) A)
      → ((columns : ℕ → List ColumnInfo) → Keeps (SameColumns {W = W} columns) m)
      → KeepsLayout m
  Keeps-of_same m k = record { at = λ s h. same-AllLaidOut s (m s).1 ((k s.columns).at s refl) h }

  pub check-AllLaidOut : {A : Type 0} (f : Call W A) → KeepsLayout (check f)
  check-AllLaidOut f = Keeps-of_same (check f) λ columns. search same_columns

  pub call-AllLaidOut : {A : Type 0} (f : Call W A) → KeepsLayout (call f)
  call-AllLaidOut f = Keeps-of_same (call f) λ columns. search same_columns

  pub set_hdu-AllLaidOut : (t : ℕ) (v : Hdu) → KeepsLayout {W = W} (modify (set_hdu t v))
  set_hdu-AllLaidOut t v = Keeps-of_same (modify (set_hdu t v)) λ columns. search same_columns

  pub new_hdu-AllLaidOut : (v : Hdu) → KeepsLayout {W = W} (new_hdu v)
  unfolding new_hdu
  new_hdu-AllLaidOut v = record {
    at = λ s h. record { at_table = (update-AllLaidOut s.next_hdu [] s h tt).at_table };
  }

  pub new_file-AllLaidOut : (v : File) → KeepsLayout {W = W} (new_file v)
  unfolding new_file
  new_file-AllLaidOut v = record { at = λ s h. record { at_table = h.at_table } }

pub ruleset layout_steps = (
  keeps_rules, check-AllLaidOut, call-AllLaidOut, set_hdu-AllLaidOut, new_hdu-AllLaidOut,
  new_file-AllLaidOut,
)

module _ {W : Type 0} ⦃c : Cfitsio W⦄ where
  pub set_as_chdu-AllLaidOut : (hdu : Hdu) → KeepsLayout {W = W} (set_as_chdu hdu)
  set_as_chdu-AllLaidOut hdu =
      Keeps-of_same (set_as_chdu hdu) λ columns. set_as_chdu-SameColumns hdu

  pub get_keyword_string-AllLaidOut :
      (hdu : Hdu) (k d : Text) → KeepsLayout {W = W} (get_keyword_string hdu k d)
  get_keyword_string-AllLaidOut hdu k d =
      Keeps-of_same (get_keyword_string hdu k d) λ columns. get_keyword_string-SameColumns hdu k d

  pub hdu_refresh-AllLaidOut : (t : ℕ) → KeepsLayout {W = W} (hdu_refresh t)
  hdu_refresh-AllLaidOut t = Keeps-of_same (hdu_refresh t) λ columns. hdu_refresh-SameColumns t

  hdu_type-AllLaidOut : (f : ℕ) → KeepsLayout {W = W} (hdu_type f)
  hdu_type-AllLaidOut f = Keeps-of_same (hdu_type f) λ columns. hdu_type-SameColumns f

  pub num_columns-AllLaidOut : (t : ℕ) → KeepsLayout {W = W} (num_columns t)
  num_columns-AllLaidOut t = Keeps-of_same (num_columns t) λ columns. num_columns-SameColumns t

  clear-AllLaidOut :
      (n t : ℕ) → KeepsLayout {W = W} (modify (set_columns t []) >> push_columns n t 1 (pos 1))
  unfolding ◌>>=◌
  clear-AllLaidOut n t = record {
    at = λ s h.
        let cleared = update-AllLaidOut t [] s h tt in
        let self : (t == t) ≡ true = ground arith in
        (push_columns-Pushed n t 1 (pos 1) (set_columns t [] s)
          (record { laid = cleared; number = rw self; byte = rw self })).0;
  }

  pub refresh-AllLaidOut : (t : ℕ) → KeepsLayout {W = W} (refresh t)
  unfolding refresh
  refresh-AllLaidOut t =
      search
        (
          layout_steps, set_as_chdu-AllLaidOut, hdu_type-AllLaidOut, hdu_refresh-AllLaidOut,
          num_columns-AllLaidOut, clear-AllLaidOut,
        )
        depth 18

pub ruleset layout_rules = (
  layout_steps, set_as_chdu-AllLaidOut, get_keyword_string-AllLaidOut, hdu_refresh-AllLaidOut,
  num_columns-AllLaidOut, refresh-AllLaidOut,
)
