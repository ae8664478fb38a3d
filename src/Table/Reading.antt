-- ===== src/Table/Reading.antt =====
-- What the description of an HDU's columns says is left alone by the methods of HDU and File that read it.
use misfits.Prelude.{ℕ, ◌≡◌, ◌==◌, true, arith, List}
use misfits.Cfitsio.{Call, Cfitsio}
use misfits.Cfitsio.Columns.{Leaves, Reading}
use misfits.Exception.{ok, modify, ◌>>=◌}
use misfits.Exception.Keeps.{Keeps, keeps_rules}
use misfits.Store.{Store, Hdu, ColumnInfo, check, call, fptr, set_hdu, set_columns}
use misfits.File.{move_to}
use misfits.Hdu.{set_as_chdu}
use misfits.Table.{set_table_as_chdu}
use misfits.Table.Watched.{Watches}

-- The table at t is in the HDU n of a file, whose pointer is f; and P holds of CFITSIO.
pub record Sees {W : Type 0} (P : W → Type 0) (t file f n : ℕ) (s : Store W) : Type 0 where
  pub holds : P s.world
  pub pointer : fptr file s ≡ f
  pub in_file : (s.hdus t).file ≡ file
  pub in_hdu : (s.hdus t).hdu_num ≡ n

module _ {W : Type 0} {P Q : W → Type 0} {t file f n : ℕ} where
  -- The same state but for CFITSIO's
  pub Sees-world :
      (w : W) (s : Store W) → Sees P t file f n s → Q w → Sees Q t file f n (record s { world = w })
  Sees-world w s h q = record {
    holds = q;
    pointer = h.pointer;
    in_file = h.in_file;
    in_hdu = h.in_hdu;
  }

  pub Sees-weaken :
      (s : Store W) → ((w : W) → P w → Q w) → Sees P t file f n s → Sees Q t file f n s
  Sees-weaken s f h = Sees-world s.world s h (f s.world h.holds)

module _ {W : Type 0} {P : W → Type 0} {t file f n : ℕ} where
  -- The pointer that the methods of the table take from its file
  pub Sees-fptr : (s : Store W) → Sees P t file f n s → fptr (s.hdus t).file s ≡ f
  Sees-fptr s h = rw h.in_file h.pointer

module _ {W : Type 0} {P : W → Type 0} {t file f n : ℕ} where
  pub check-Sees : {A : Type 0} (m : Call W A) → Leaves P m → Keeps (Sees P t file f n) (check m)
  unfolding check
  check-Sees m keep = record {
    at = λ s h. record {
      holds = keep s.world h.holds;
      pointer = h.pointer;
      in_file = h.in_file;
      in_hdu = h.in_hdu;
    };
  }

  pub call-Sees : {A : Type 0} (m : Call W A) → Leaves P m → Keeps (Sees P t file f n) (call m)
  unfolding call
  call-Sees m keep = record {
    at = λ s h. record {
      holds = keep s.world h.holds;
      pointer = h.pointer;
      in_file = h.in_file;
      in_hdu = h.in_hdu;
    };
  }

  pub set_hdu-Sees :
      (v : Hdu) → v.file ≡ file → v.hdu_num ≡ n → Keeps (Sees P t file f n) (modify (set_hdu t v))
  unfolding modify
  set_hdu-Sees v e k =
      let self : (t == t) ≡ true = ground arith in
      record {
        at = λ s h. record {
          holds = h.holds;
          pointer = h.pointer;
          in_file = rw self e;
          in_hdu = rw self k;
        };
      }

  pub set_columns-Sees :
      (u : ℕ) (cs : List ColumnInfo) → Keeps (Sees P t file f n) (modify (set_columns u cs))
  unfolding modify
  set_columns-Sees u cs = record {
    at = λ s h. record {
      holds = h.holds;
      pointer = h.pointer;
      in_file = h.in_file;
      in_hdu = h.in_hdu;
    };
  }

module _ {W : Type 0} ⦃c : Cfitsio W⦄ {P : W → Type 0} {t file f n : ℕ} (law : Reading c P n) where
  set_as_chdu-Sees : (hdu : Hdu) → hdu.hdu_num ≡ n → Keeps (Sees P t file f n) (set_as_chdu hdu)
  unfolding set_as_chdu move_to
  set_as_chdu-Sees hdu e = rw e (search (keeps_rules, check-Sees, law.moves) depth 12)

  pub Sees-Watches : Watches c P (Sees P t file f n) t file n
  Sees-Watches = record {
    quiet = law.quiet;
    known = λ s h. (h.in_file, h.in_hdu);
    checks = check-Sees;
    calls = call-Sees;
    moves = λ hdu here number. set_as_chdu-Sees hdu number;
    puts = set_hdu-Sees;
    lists = set_columns-Sees t;
  }

module _ {W : Type 0} ⦃c : Cfitsio W⦄ {t file f n : ℕ} where
  -- Where the table's HDU is the current one, nothing is done to make it so.
  pub set_table_as_chdu-still :
      (s : Store W)
      → Sees (λ w. c.get_hdu_num f w ≡ n) t file f n s
      → set_table_as_chdu t s ≡ (ok tt, s)
  unfolding set_as_chdu move_to ◌>>=◌
  set_table_as_chdu-still s h = ground (arith, h.pointer, h.in_file, h.in_hdu, h.holds)
