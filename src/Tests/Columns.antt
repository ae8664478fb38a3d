-- ===== src/Tests/Columns.antt =====
-- Columns that are inserted and read, on a CFITSIO that keeps the descriptions that it is given.
use misfits.Prelude.{
  ℕ, ◌≡◌, refl, true, List, [], ◌∷◌, Option, none, some, length, drop, ◌-◌, ltb, ◌==◌,
  if◌then◌else◌, arith,
}
use misfits.Prelude.Int.{ℤ, pos}
use misfits.Prelude.Text.{Text, text}
use misfits.Cfitsio.{⊤, Call, Cfitsio}
use misfits.Cfitsio.Columns.{
  tform_parts, is_plain, HoldsColumn, DescribesColumns, Leaves, QuietReads, Reading,
  KeepsDescriptions, DeletesColumns, before_deletion,
}
use misfits.Exception.{ok, ◌>>=◌}
use misfits.Types.{Spec, spec_id, spec_code}
use misfits.Extent.{squeeze}
use misfits.Store.{ColumnInfo, check}
use misfits.Cfitsio.Laws.{MovesTo}
use misfits.ColumnInfo.{init, insert, tform}
use misfits.ColumnInfo.ReadBack.{ReadsAs, insert-init}
use misfits.Tests.Sim.{Sim, sim, start}

abbrev code_of : ℕ → ℤ
code_of letter =
    if letter == b'X'
    then pos 1
    else if letter == b'B'
    then pos 11
    else if letter == b'L'
    then pos 14
    else if letter == b'I'
    then pos 21
    else if letter == b'J'
    then pos 41
    else if letter == b'K'
    then pos 81
    else if letter == b'E'
    then pos 42
    else pos 82

-- One column more, which is described at the number n
abbrev make : ℕ → Text → Option (ℕ × ℕ) → Sim → ℕ × ⊤ × Sim
make n name none w = (261, tt, w)
make n name (some (count, letter)) w = (
  0,
  tt,
  record w {
    columns = (name, pos count) ∷ w.columns;
    made = λ k.
        if k == n
        then (record {
          ttype = name;
          code = code_of letter;
          repeat = pos count;
          axes = pos count ∷ [];
        })
        else w.made k;
  },
)

abbrev unmake : ℕ → Call Sim ⊤
unmake k w =
    if ltb (length w.columns) k
    then (302, tt, w)
    else (0, tt, record w { columns = drop 1 w.columns; made = λ n. w.made (before_deletion k n) })

abbrev shape_it : ℕ → List ℤ → Call Sim ⊤
shape_it n axes w =
    (0, tt, record w { made = λ k. if k == n then record (w.made n) { axes = axes } else w.made k })

abbrev pub table_sim : Cfitsio Sim
table_sim = record sim {
  insert_col = λ f n name form w. make n name (tform_parts form) w;
  write_tdimll = λ f n naxis axes. shape_it n axes;
  get_bcolparmsll =
      λ f n w. (if ltb (length w.columns) n then 302 else 0, ((w.made n).ttype, []), w);
  get_coltypell = λ f n w. (0, ((w.made n).code, (w.made n).repeat, pos 4), w);
  delete_col = λ f k. unmake k;
  read_tdimll = λ f n naxis w. (0, (length (w.made n).axes, (w.made n).axes), w);
}

code_of-spec_code : (spec : Spec) → is_plain spec ≡ true → code_of (spec_code spec) ≡ spec_id spec
unfolding spec_code spec_id
code_of-spec_code Spec.bit h = refl
code_of-spec_code Spec.string h = cc
code_of-spec_code Spec.ushort h = cc
code_of-spec_code Spec.ulong h = cc
code_of-spec_code _ h = refl

pub table_sim-DescribesColumns : DescribesColumns table_sim
unfolding HoldsColumn
table_sim-DescribesColumns = record {
  inserts = λ f n name form spec count w h place plain parts.
      ground (arith, code_of-spec_code spec plain);
  shapes = λ f n name spec count axes w h holds. ground arith;
}

abbrev pub image : ColumnInfo
image = record {
  ttype = text "IMG";
  tunit = text "counts";
  column_type = Spec.short;
  offset = pos 0;
  nbytes = pos 24;
  extent = pos 3 ∷ pos 1 ∷ pos 4 ∷ [];
  colnum = 3;
}

image_inserted : (insert ⦃c = table_sim⦄ image 0 start).0 ≡ ok tt
unfolding insert tform squeeze check ◌>>=◌
image_inserted = refl

insert-init_example :
    ReadsAs image
      (pos 9)
      (init ⦃c = table_sim⦄ 0 (pos 9) 3 (insert ⦃c = table_sim⦄ image 0 start).1).0
insert-init_example =
    insert-init ⦃c = table_sim⦄ table_sim-DescribesColumns image (3 ∷ 1 ∷ 4 ∷ []) 0 (pos 9) start
      refl (omega arith, (omega arith, (omega arith, tt))) (omega arith) refl
      (refl, omega arith, omega arith) image_inserted

still_reads : (P : Sim → Type 0) → QuietReads table_sim P
still_reads P = record {
  kind = λ f w h. h;
  counts = λ f w h. h;
  string_lengths = λ f key w h. h;
  strings = λ f key first m w h. h;
  keys = λ f datatype key w h. h;
  parms = λ f colnum w h. h;
  types = λ f colnum w h. h;
  dims = λ f colnum m w h. h;
}

still : (P : Sim → Type 0) (n : ℕ) → Leaves P (table_sim.movabs_hdu 9 n) → Reading table_sim P n
still P n moves = record { moves = λ f. moves; quiet = still_reads P }

pub make_chdu :
    (n : ℕ) (name : Text) (parts : Option (ℕ × ℕ)) (w : Sim) → (make n name parts w).2.chdu ≡ w.chdu
make_chdu n name none w = refl
make_chdu n name (some (count, letter)) w = refl

pub table_sim-MovesTo : MovesTo table_sim
table_sim-MovesTo f n w h = ground arith

pub table_sim-KeepsDescriptions : KeepsDescriptions table_sim
unfolding HoldsColumn
table_sim-KeepsDescriptions = record {
  current = λ f n. still _ n (λ w h. ground arith);
  described = λ f n colnum name spec count axes. still _ n (λ w h. ground arith);
  inserts = λ f n name form w h. make_chdu n name (tform_parts form) w;
  shapes = λ f n naxis axes w h. refl;
  numbers = λ f n name spec count axes w h k. ground arith;
}

length-drop_one : {A : Type 0} (xs : List A) → length (drop 1 xs) ≡ length xs - 1
length-drop_one [] = refl
length-drop_one (x ∷ xs) = omega arith

pub table_sim-DeletesColumns : DeletesColumns table_sim
unfolding HoldsColumn
table_sim-DeletesColumns f k n name spec count axes w h holds =
    ground (arith, length-drop_one w.columns)
