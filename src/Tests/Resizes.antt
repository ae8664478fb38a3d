-- ===== src/Tests/Resizes.antt =====
-- A column that gets other axes, on a CFITSIO that keeps TDIM keywords.
use misfits.Prelude.{
  ℕ, ◌≡◌, refl, List, [], ◌∷◌, map, Option, none, some, length, ◌==◌, if◌then◌else◌, inl, arith, ap,
  ◌∙◌,
}
use misfits.Prelude.Int.{ℤ, pos}
use misfits.Prelude.Text.{Text, text, text_eq, text_eq_refl}
use misfits.Cfitsio.{Cfitsio}
use misfits.Cfitsio.Laws.{MovesTo}
use misfits.Cfitsio.Columns.{
  Shows, HoldsColumn, Leaves, QuietReads, Reading, KeepsDescriptions, tform_parts,
}
use misfits.Cfitsio.Resizing.{HasElements, ResizesColumns, tdim_key}
use misfits.Exception.{ok, pure, raise, ◌>>=◌}
use misfits.Extent.{squeeze, nelem, to_string, axes_text, extent_eq}
use misfits.Extent.Nelem.{product}
use misfits.Extent.Print.{parse_axes}
use misfits.Types.{Spec, spec_id, spec_from_id}
use misfits.Store.{Store, check, call}
use misfits.File.{move_to, hdu_type}
use misfits.Hdu.{
  set_as_chdu, hdu_refresh, get_keyword, get_keyword_string, read_string, has_keyword,
  set_keyword_string, write_string,
}
use misfits.ColumnInfo.{init, read_extent, cell_bytes}
use misfits.Table.{resize, update_tdim, colinfo, refresh, push_columns, num_columns}
use misfits.Table.Deleted.{description}
use misfits.Table.Resized.{HasExtent, resize_lem}
use misfits.Tests.Sim.{Sim, sim_world, start}
use misfits.Tests.Columns.{table_sim, make_chdu}
use misfits.Tests.Tables.{time, counts}

-- The axes that a TDIM keyword gives a column of so many elements
abbrev axes_of : ℤ → Option (Text × Text) → List ℤ
axes_of repeat none = repeat ∷ []
axes_of repeat (some (value, comment)) = elim (parse_axes value) [
  | none ↦ repeat ∷ []
  | some ns ↦ map pos ns
]

abbrev axes_in : Sim → ℕ → List ℤ
axes_in w n = axes_of (w.made n).repeat (w.texts (tdim_key n))

abbrev found_status : Option (Text × Text) → ℕ
found_status none = 202
found_status (some entry) = 0

abbrev resize_sim : Cfitsio Sim
resize_sim = record table_sim {
  read_tdimll = λ f n naxis w. (0, (length (axes_in w n), axes_in w n), w);
  read_card = λ f key w. (found_status (w.texts key), tt, w);
  delete_key =
      λ f key w. (0, tt, record w { texts = λ k. if text_eq k key then none else w.texts k });
  modify_vector_len = λ f n len w. (
    0,
    tt,
    record w { made = λ k. if k == n then record (w.made n) { repeat = len } else w.made k },
  );
}

resize_sim-MovesTo : MovesTo resize_sim
resize_sim-MovesTo f n w h = ground arith

still_reads : (P : Sim → Type 0) → QuietReads resize_sim P
still_reads P = record {
  kind = λ f w h. h;
  counts = λ f w h. h;
  string_lengths = λ f key w h. h;
  strings = λ f key first m w h. h;
  keys = λ f datatype key w h. h;
  parms = λ f colnum w h. h;
  types = λ f colnum w h. h;
  dims = λ f colnum m w h. h;
}

still : (P : Sim → Type 0) (n : ℕ) → Leaves P (resize_sim.movabs_hdu 9 n) → Reading resize_sim P n
still P n moves = record { moves = λ f. moves; quiet = still_reads P }

resize_sim-KeepsDescriptions : KeepsDescriptions resize_sim
unfolding HoldsColumn
resize_sim-KeepsDescriptions = record {
  current = λ f n. still _ n (λ w h. ground arith);
  described = λ f n colnum name spec count axes. still _ n (λ w h. ground arith);
  inserts = λ f n name form w h. make_chdu n name (tform_parts form) w;
  shapes = λ f n naxis axes w h. refl;
  numbers = λ f n name spec count axes w h k. ground arith;
}

absent_axes :
    (repeat : ℤ) (entry : Option (Text × Text))
    → found_status entry ≡ 202
    → axes_of repeat entry ≡ repeat ∷ []
absent_axes repeat none e = refl
absent_axes repeat (some entry) e = absurd (ground arith)

axes_of_set :
    (repeat : ℤ) (value comment : Text) (ns : List ℕ)
    → parse_axes value ≡ some ns
    → axes_of repeat (some (value, comment)) ≡ map pos ns
axes_of_set repeat value comment ns e = rw (e, axes_of) refl

-- What is said of a column whose elements and axes are known
shown :
    (f n k : ℕ) (name : Text) (spec : Spec) (count : ℕ) (axes : List ℤ) (w : Sim)
    → HasElements resize_sim f n k name spec count w
    → axes_in w k ≡ axes
    → Shows resize_sim f n k name spec (pos count) axes w
unfolding HoldsColumn HasElements
shown f n k name spec count axes w h e = rw e (h.0, (h.1, h.2, h.3, (refl, refl), (refl, refl)))

-- The keyword with the axes has been deleted.
unset_axes :
    (f n k : ℕ) (name : Text) (spec : Spec) (count : ℕ) (w : Sim)
    → HasElements resize_sim f n k name spec count w
    → let (_, _, w') = resize_sim.delete_key f (tdim_key k) w in
      Shows resize_sim f n k name spec (pos count) (pos count ∷ []) w'
unfolding HasElements
unset_axes f n k name spec count w h =
    let w' = (resize_sim.delete_key f (tdim_key k) w).2 in
    shown f n k name spec count (pos count ∷ []) w' h
      (rw (text_eq_refl (tdim_key k)) (ap (λ r. r ∷ []) h.3.2))

-- The keyword with the axes has got a value.
set_axes :
    (f n k : ℕ) (name : Text) (spec : Spec) (ns : List ℕ) (value comment : Text) (w : Sim)
    → parse_axes value ≡ some ns
    → HasElements resize_sim f n k name spec (product ns) w
    → let (_, _, w') = resize_sim.update_key_str f (tdim_key k) value comment w in
      Shows resize_sim f n k name spec (pos (product ns)) (map pos ns) w'
unfolding HasElements
set_axes f n k name spec ns value comment w parse h =
    shown f n k name spec (product ns) (map pos ns) _ h
      (rw (text_eq_refl (tdim_key k)) (axes_of_set _ value comment ns parse))

resize_sim-ResizesColumns : ResizesColumns resize_sim
unfolding HoldsColumn HasElements
resize_sim-ResizesColumns = record {
  reading = λ f n k name spec count. still _ n (λ w h. ground arith);
  looks = λ f n k name spec count key w h. h;
  warns = λ f n k name spec count w h. h;
  modifies = λ f n k name spec old count w e h. ground arith;
  absent = λ f n k name spec count w e h.
      shown f n k name spec count _ w h (absent_axes _ _ e ∙ ap (λ r. r ∷ []) h.3.2);
  deletes = λ f n k name spec count w e h. unset_axes f n k name spec count w h;
  one_card = λ f n k name spec ns value comment w e card parse h.
      set_axes f n k name spec ns value comment w parse h;
  long = λ f n k name spec ns value comment w e parse h.
      set_axes f n k name spec ns value comment w parse h;
}

-- A table of two columns, the second of twelve elements
abbrev two_columns : Store Sim
two_columns = record start {
  world = record sim_world {
    made = λ n.
        if n == 1
        then (record { ttype = text "TIME"; code = pos 41; repeat = pos 1; axes = [] })
        else (record { ttype = text "COUNTS"; code = pos 41; repeat = pos 3; axes = [] });
  };
  columns = λ t. time ∷ counts ∷ [];
}

column_resized : (resize ⦃c = resize_sim⦄ 0 2 (pos 3 ∷ pos 4 ∷ []) two_columns).0 ≡ ok tt
unfolding resize update_tdim colinfo refresh push_columns num_columns init read_extent hdu_refresh
    get_keyword_string get_keyword read_string has_keyword set_keyword_string write_string hdu_type
    set_as_chdu move_to check call cell_bytes spec_from_id nelem squeeze extent_eq to_string
    axes_text pure raise ◌>>=◌
column_resized = refl

resize_lem_example : HasExtent (pos 3 ∷ pos 4 ∷ []) (
    description
      (colinfo ⦃c = resize_sim⦄ 0 2
        (resize ⦃c = resize_sim⦄ 0 2 (pos 3 ∷ pos 4 ∷ []) two_columns).1).0)
unfolding HasElements set_as_chdu move_to to_string axes_text spec_id ◌>>=◌
resize_lem_example =
    resize_lem ⦃c = resize_sim⦄ resize_sim-MovesTo resize_sim-KeepsDescriptions
      resize_sim-ResizesColumns 0 1 3 3 (4 ∷ []) (text "COUNTS") Spec.long two_columns two_columns
      (omega arith, (omega arith, tt)) (omega arith) refl (inl refl) refl
      (refl, (refl, refl), (refl, refl), (refl, refl, refl)) column_resized
