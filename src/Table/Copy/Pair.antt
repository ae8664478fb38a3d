-- ===== src/Table/Copy/Pair.antt =====
-- Two tables in the current HDUs of two files (Table::copy_columns in misfits/table.cc), and what their methods keep
-- of that.
use misfits.Prelude.{ℕ, ◌≡◌, ◌≢◌, sym, ap, ◌==◌, false, List, Every, Every-map, arith}
use mathlib.Core.Path.{subst}
use misfits.Prelude.Text.{Text}
use misfits.Cfitsio.{Call, Cfitsio}
use misfits.Cfitsio.Columns.{Leaves, QuietReads}
use misfits.Cfitsio.Copying.{Names, Spares, SparesColumns}
use misfits.Exception.{modify}
use misfits.Exception.Keeps.{Keeps, Keeps-both}
use misfits.Store.{Store, Hdu, set_hdu, check, call}
use misfits.File.{hdu_num}
use misfits.Hdu.{set_as_chdu}
use misfits.Hdu.Keywords.{set_as_chdu-stays}
use misfits.Table.Watched.{Watches}
use misfits.Table.Reading.{Sees, check-Sees, call-Sees, set_hdu-Sees, set_columns-Sees}

-- An HDU that is the current one need not be made so.
set_as_chdu-Keeps :
    {W : Type 0} ⦃c : Cfitsio W⦄ {R : Store W → Type 0} (hdu : Hdu)
    → ((s : Store W) → R s → hdu_num hdu.file s ≡ hdu.hdu_num)
    → Keeps R (set_as_chdu hdu)
set_as_chdu-Keeps {R} hdu here = record {
  at = λ s h. subst R (sym (ap (λ r. r.1) (set_as_chdu-stays hdu s (here s h)))) h;
}

-- Another table than the one whose members are set
set_hdu_other :
    {W : Type 0} {P : W → Type 0} {u file f n : ℕ} (t : ℕ) (v : Hdu)
    → t ≢ u
    → Keeps (Sees P u file f n) (modify (set_hdu t v))
unfolding modify
set_hdu_other {u} t v apart =
    let other : (t == u) ≡ false = ground arith in
    record {
      at = λ s h. record {
        holds = h.holds;
        pointer = h.pointer;
        in_file = rw other h.in_file;
        in_hdu = rw other h.in_hdu;
      };
    }

-- Two tables, each with the address of its object and of its file, the pointer of the file, and the number of its HDU.
-- Of names of columns, `from` and `to` are the numbers of the columns that they mean in each; and `source` is what the
-- columns of the first hold, by their numbers, where `content` tells this of a file.
pub record Pair (W C : Type 0) : Type 0 where
  pub src : ℕ
  pub dest : ℕ
  pub src_file : ℕ
  pub dest_file : ℕ
  pub f : ℕ
  pub g : ℕ
  pub n : ℕ
  pub m : ℕ
  pub names : List Text
  pub from : Text → ℕ
  pub to : Text → ℕ
  pub content : ℕ → ℕ → W → C
  pub source : ℕ → C

module _ {W C : Type 0} ⦃c : Cfitsio W⦄ (p : Pair W C) where
  -- The HDUs n and m are the current ones of the files f and g; the columns of the first hold `source`, and `from` and
  -- `to` are the numbers of the columns that the names mean in each.
  pub record Ready (w : W) : Type 0 where
    pub kept : (j : ℕ) → p.content p.f j w ≡ p.source j
    pub from_named : Every (λ name. Names c p.f name (p.from name) w) p.names
    pub to_named : Every (λ name. Names c p.g name (p.to name) w) p.names
    pub here : c.get_hdu_num p.f w ≡ p.n
    pub there : c.get_hdu_num p.g w ≡ p.m

  pub Spares-Ready :
      {A : Type 0} (routine : Call W A) → Spares c p.content p.f p.g routine → Leaves Ready routine
  Spares-Ready routine spares w h = record {
    kept = λ j. spares.source j (p.source j) w (h.kept j);
    from_named = Every-map p.names (λ name. spares.from name (p.from name) w) h.from_named;
    to_named = Every-map p.names (λ name. spares.to name (p.to name) w) h.to_named;
    here = spares.here p.n w h.here;
    there = spares.there p.m w h.there;
  }

  quiet_Ready : SparesColumns c p.content p.f p.g → QuietReads c Ready
  quiet_Ready law = record {
    kind = λ h. Spares-Ready _ (law.kind h);
    counts = λ h. Spares-Ready _ (law.counts h);
    string_lengths = λ h key. Spares-Ready _ (law.string_lengths h key);
    strings = λ h key first k. Spares-Ready _ (law.strings h key first k);
    keys = λ h datatype key. Spares-Ready _ (law.keys h datatype key);
    parms = λ h colnum. Spares-Ready _ (law.parms h colnum);
    types = λ h colnum. Spares-Ready _ (law.types h colnum);
    dims = λ h colnum k. Spares-Ready _ (law.dims h colnum k);
  }

  -- The table src is in the HDU n of its file, whose pointer is f, and dest in the HDU m of one whose pointer is g.
  abbrev pub Linked : Store W → Type 0
  Linked s = Sees Ready p.src p.src_file p.f p.n s × Sees Ready p.dest p.dest_file p.g p.m s

  module _ (law : SparesColumns c p.content p.f p.g) (apart : p.src ≢ p.dest) where
    check-Linked :
        {A : Type 0} (routine : Call W A) → Leaves Ready routine → Keeps Linked (check routine)
    check-Linked routine keep =
        Keeps-both (check routine) (check-Sees routine keep) (check-Sees routine keep)

    call-Linked :
        {A : Type 0} (routine : Call W A) → Leaves Ready routine → Keeps Linked (call routine)
    call-Linked routine keep =
        Keeps-both (call routine) (call-Sees routine keep) (call-Sees routine keep)

    pub source_watch : Watches c Ready Linked p.src p.src_file p.n
    source_watch = record {
      quiet = quiet_Ready law;
      known = λ s (h, _). (h.in_file, h.in_hdu);
      checks = check-Linked;
      calls = call-Linked;
      moves = λ hdu file number. set_as_chdu-Keeps hdu λ s (h, _).
          rw (file, number)
            (subst (λ q. c.get_hdu_num q s.world ≡ p.n) (sym h.pointer) h.holds.here);
      puts =
          λ v file number. Keeps-both _ (set_hdu-Sees v file number) (set_hdu_other p.src v apart);
      lists = λ cs. Keeps-both _ (set_columns-Sees p.src cs) (set_columns-Sees p.src cs);
    }

    pub dest_watch : Watches c Ready Linked p.dest p.dest_file p.m
    dest_watch = record {
      quiet = quiet_Ready law;
      known = λ s (_, h). (h.in_file, h.in_hdu);
      checks = check-Linked;
      calls = call-Linked;
      moves = λ hdu file number. set_as_chdu-Keeps hdu λ s (_, h).
          rw (file, number)
            (subst (λ q. c.get_hdu_num q s.world ≡ p.m) (sym h.pointer) h.holds.there);
      puts = λ v file number.
          Keeps-both _ (set_hdu_other p.dest v (λ e. apart (sym e))) (set_hdu-Sees v file number);
      lists = λ cs. Keeps-both _ (set_columns-Sees p.dest cs) (set_columns-Sees p.dest cs);
    }
