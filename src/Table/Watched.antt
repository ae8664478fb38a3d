-- ===== src/Table/Watched.antt =====
-- What the methods of HDU and Table that read the HDU of a table (misfits/hdu.cc, misfits/table.cc) keep, told once
-- for all that is kept.
use misfits.Prelude.{ℕ, zero, suc, ◌≡◌, List}
use misfits.Prelude.Int.{ℤ}
use misfits.Prelude.Text.{Text}
use misfits.Cfitsio.{Call, Cfitsio}
use misfits.Cfitsio.Columns.{Leaves, QuietReads}
use misfits.Exception.{Action, gets, modify, ◌>>=◌}
use misfits.Exception.Keeps.{Keeps, keeps_rules}
use misfits.Types.{Native, Spec}
use misfits.Store.{Store, Hdu, ColumnInfo, check, call, set_hdu, set_columns}
use misfits.File.{hdu_type}
use misfits.Hdu.{set_as_chdu, hdu_refresh, get_keyword, get_keyword_string, read_string}
use misfits.ColumnInfo.{init, read_extent}
use misfits.Table.{set_table_as_chdu, num_columns, num_rows, push_columns, refresh}

-- An action that begins by asking for a part of the state need only be good for what P says of that part.
pub Keeps-ask :
    {S A B : Type 0} {P : S → Type 0} (g : S → A) (R : A → Type 0) (next : A → Action S B)
    → ((s : S) → P s → R (g s))
    → ((a : A) → R a → Keeps P (next a))
    → Keeps P (gets g >>= next)
unfolding gets ◌>>=◌
Keeps-ask g R next known keep = record { at = λ s h. (keep (g s) (known s h)).at s h }

-- R knows that the table at t is in the HDU n of a file, and is kept by the routines of CFITSIO that keep P, by making
-- that HDU the current one, and by setting the other members of the table's object.
pub record Watches {W : Type 0} (c : Cfitsio W) (P : W → Type 0) (R : Store W → Type 0)
    (t file n : ℕ) : Type 1 where
  pub quiet : QuietReads c P
  pub known : (s : Store W) → R s → ((s.hdus t).file ≡ file) × ((s.hdus t).hdu_num ≡ n)
  pub checks : {A : Type 0} (m : Call W A) → Leaves P m → Keeps R (check m)
  pub calls : {A : Type 0} (m : Call W A) → Leaves P m → Keeps R (call m)
  pub moves : (hdu : Hdu) → hdu.file ≡ file → hdu.hdu_num ≡ n → Keeps R (set_as_chdu ⦃c = c⦄ hdu)
  pub puts : (v : Hdu) → v.file ≡ file → v.hdu_num ≡ n → Keeps R (modify (set_hdu t v))
  pub lists : (cs : List ColumnInfo) → Keeps R (modify (set_columns t cs))

module _ {W : Type 0} ⦃c : Cfitsio W⦄ {P : W → Type 0} {R : Store W → Type 0} {t file n : ℕ}
    (watch : Watches c P R t file n) where
  pub set_table_as_chdu-Keeps : Keeps R (set_table_as_chdu t)
  set_table_as_chdu-Keeps =
      Keeps-ask (λ s. s.hdus t) (λ hdu. (hdu.file ≡ file) × (hdu.hdu_num ≡ n)) set_as_chdu
        watch.known (λ hdu (here, number). watch.moves hdu here number)

  read_string-Keeps : (hdu : Hdu) (k d : Text) (m : ℕ) → Keeps R (read_string hdu k d m)
  unfolding read_string
  read_string-Keeps hdu k d m = search (keeps_rules, watch.calls, watch.quiet.strings) depth 12

  pub get_keyword_string-Keeps :
      (hdu : Hdu) (k d : Text)
      → hdu.file ≡ file
      → hdu.hdu_num ≡ n
      → Keeps R (get_keyword_string hdu k d)
  unfolding get_keyword_string
  get_keyword_string-Keeps hdu k d here number =
      search (keeps_rules, watch.calls, watch.moves, watch.quiet.string_lengths, read_string-Keeps)
        depth 12

  get_keyword-Keeps :
      (T : Native) (hdu : Hdu) (k : Text) (d : ℤ)
      → hdu.file ≡ file
      → hdu.hdu_num ≡ n
      → Keeps R (get_keyword T hdu k d)
  unfolding get_keyword
  get_keyword-Keeps T hdu k d here number =
      search (keeps_rules, watch.calls, watch.moves, watch.quiet.keys) depth 12

  pub hdu_refresh-Keeps : Keeps R (hdu_refresh t)
  unfolding hdu_refresh
  hdu_refresh-Keeps =
      Keeps-ask (λ s. s.hdus t) (λ hdu. (hdu.file ≡ file) × (hdu.hdu_num ≡ n)) _ watch.known
        (λ hdu (here, number).
          search (keeps_rules, watch.moves, watch.puts, get_keyword_string-Keeps, get_keyword-Keeps)
            depth 14)

  pub hdu_type-Keeps : (g : ℕ) → Keeps R (hdu_type g)
  unfolding hdu_type
  hdu_type-Keeps g = search (keeps_rules, watch.checks, watch.quiet.kind) depth 9

  pub num_columns-Keeps : Keeps R (num_columns t)
  unfolding num_columns
  num_columns-Keeps =
      search (keeps_rules, watch.checks, set_table_as_chdu-Keeps, watch.quiet.counts) depth 9

  pub num_rows-Keeps : ((g : ℕ) → Leaves P (c.get_num_rowsll g)) → Keeps R (num_rows t)
  unfolding num_rows
  num_rows-Keeps rows = search (keeps_rules, watch.checks, set_table_as_chdu-Keeps, rows) depth 9

  read_extent-Keeps : (g m : ℕ) (spec : Spec) (a b : ℤ) → Keeps R (read_extent g m spec a b)
  unfolding read_extent
  read_extent-Keeps g m spec a b = search (keeps_rules, watch.checks, watch.quiet.dims) depth 12

  pub init-Keeps : (g : ℕ) (o : ℤ) (m : ℕ) → Keeps R (init g o m)
  unfolding init
  init-Keeps g o m =
      search
        (
          keeps_rules, watch.checks, hdu_type-Keeps, read_extent-Keeps, watch.quiet.parms,
          watch.quiet.types,
        )
        depth 18

  push_columns-Keeps : (left m : ℕ) (o : ℤ) → Keeps R (push_columns left t m o)
  unfolding push_columns
  push_columns-Keeps zero m o = search keeps_rules
  push_columns-Keeps (suc left) m o =
      search (keeps_rules, init-Keeps, watch.lists, push_columns-Keeps left) depth 16

  pub refresh-Keeps : Keeps R (refresh t)
  unfolding refresh
  refresh-Keeps =
      search
        (
          keeps_rules, set_table_as_chdu-Keeps, hdu_type-Keeps, hdu_refresh-Keeps,
          num_columns-Keeps, watch.lists, push_columns-Keeps,
        )
        depth 20
