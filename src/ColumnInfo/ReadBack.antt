-- ===== src/ColumnInfo/ReadBack.antt =====
-- A column that ColumnInfo::insert (misfits/columninfo.cc) has made, as ColumnInfo::init reads it afterwards.
use misfits.Prelude.{
  ℕ, ◌<◌, ◌≤◌, ◌^◌, ◌≡◌, refl, sym, ap, ◌∙◌, true, false, List, [], ◌∷◌, map, ltb, length, arith,
  inl, inr, Bool-cases, if◌then◌else◌,
}
use misfits.Prelude.Int.{ℤ, pos, ==ℤ_refl}
use misfits.Prelude.Text.{Text}
use misfits.Cfitsio.{Cfitsio}
use misfits.Cfitsio.Columns.{is_plain, HasPlace, HoldsColumn, DescribesColumns}
use misfits.Exception.{Result, ok, throw, ◌>>=◌}
use misfits.Types.{Spec, spec_id}
use misfits.Types.Laws.{spec_from_id-spec_id}
use misfits.Extent.{nelem, squeeze, extent_eq, naxes}
use misfits.Extent.Nelem.{product, product_pos, AllPositive, nelem_exact_iff}
use misfits.Extent.Squeeze.{extent_eq_iff}
use misfits.Store.{Store, ColumnInfo, fptr, check}
use misfits.File.{hdu_type}
use misfits.ColumnInfo.{tform, insert, init, read_extent, column_eq, written}
use misfits.ColumnInfo.Inserted.{tform_parts-tform, squeeze-product}

written-length : (axes : List ℤ) → written (length axes) axes ≡ axes
written-length [] = refl
written-length (e ∷ axes) = ap (λ t. e ∷ t) (written-length axes)

-- The description that has been read is that of a column with the given name, type and axes.
abbrev pub Found : Text → Spec → List ℤ → ℤ → ℕ → Result ColumnInfo → Type 0
Found ttype spec axes offset colnum (ok ci) =
    (ci.ttype ≡ ttype)
    × (ci.column_type ≡ spec)
    × (ci.extent ≡ axes)
    × (ci.offset ≡ offset)
    × (ci.colnum ≡ colnum)
Found ttype spec axes offset colnum (throw e) = true ≡ false

-- The axes that `insert` gives a column of n elements
abbrev pub inserted_axes : ColumnInfo → ℕ → List ℤ
inserted_axes ci n = if ltb 1 (naxes (squeeze ci.extent)) then ci.extent else pos n ∷ []

module _ {W : Type 0} ⦃c : Cfitsio W⦄ where
  pub init-Found :
      (file colnum : ℕ) (offset : ℤ) (ttype : Text) (spec : Spec) (n : ℕ) (axes : List ℤ)
      (s : Store W)
      → is_plain spec ≡ true
      → HoldsColumn c (fptr file s) colnum ttype spec (pos n) axes s.world
      → Found ttype spec axes offset colnum (init file offset colnum s).0
  unfolding HoldsColumn init hdu_type read_extent check ◌>>=◌
  init-Found file colnum offset ttype spec n axes s plain h =
      ground (arith, spec_from_id-spec_id spec, written-length axes)

  pub insert-HoldsColumn :
      DescribesColumns c
      → (ci : ColumnInfo) (n file : ℕ) (s : Store W) → nelem ci.extent ≡ pos n
      → 0 < n
      → is_plain ci.column_type ≡ true
      → HasPlace c (fptr file s) ci.colnum s.world
      → let (r, s') = insert ci file s in
        r ≡ ok tt
        → HoldsColumn c
            (fptr file s)
            ci.colnum
            ci.ttype
            ci.column_type
            (pos n)
            (inserted_axes ci n)
            s'.world
          × (fptr file s' ≡ fptr file s)
  unfolding insert check ◌>>=◌
  insert-HoldsColumn law ci n file s count some_of plain place h =
      let f = fptr file s in
      let w = (c.insert_col f ci.colnum ci.ttype (tform ci) s.world).2 in
      ground (
        arith,
        law.inserts f ci.colnum ci.ttype (tform ci) ci.column_type n s.world,
        tform_parts-tform ci n count some_of,
        law.shapes f ci.colnum ci.ttype ci.column_type n ci.extent w,
      )

-- What `init` gives for a column that was inserted: the same column, up to axes of length one.
abbrev pub ReadsAs : ColumnInfo → ℤ → Result ColumnInfo → Type 0
ReadsAs ci offset (ok ci') =
    (ci'.ttype ≡ ci.ttype)
    × (column_eq ci ci' ≡ true)
    × (ci'.colnum ≡ ci.colnum)
    × (ci'.offset ≡ offset)
ReadsAs ci offset (throw e) = true ≡ false

pub inserted_axes_eq :
    (ci : ColumnInfo) (ns : List ℕ)
    → ci.extent ≡ map pos ns
    → extent_eq (inserted_axes ci (product ns)) ci.extent ≡ true
inserted_axes_eq ci ns e = elim (Bool-cases (ltb 1 (naxes (squeeze ci.extent)))) [
  | inl many ↦ rw many ((extent_eq_iff ci.extent ci.extent).1 refl)
  | inr few ↦
      let few' : ltb 1 (length (squeeze (map pos ns))) ≡ false = rw e at few in
      let one : length (squeeze (map pos ns)) ≤ 1 = ground arith in
      rw few (
        (extent_eq_iff (pos (product ns) ∷ []) ci.extent).1
          (squeeze-product ns one ∙ ap squeeze (sym e)))
]

Found-ReadsAs :
    (ci : ColumnInfo) (axes : List ℤ) (offset : ℤ) (r : Result ColumnInfo)
    → extent_eq axes ci.extent ≡ true
    → Found ci.ttype ci.column_type axes offset ci.colnum r
    → ReadsAs ci offset r
unfolding column_eq
Found-ReadsAs ci axes offset (ok ci') e (name, type, same, start, number) =
    (name, rw (type, same, ==ℤ_refl (spec_id ci.column_type)) e, number, start)
Found-ReadsAs ci axes offset (throw x) e h = h

module _ {W : Type 0} ⦃c : Cfitsio W⦄ where
  -- If CFITSIO describes columns as TFORM and TDIM say, then a column of numbers (but unsigned ones) or bits, of one
  -- element or more but fewer than 2^31, that `insert` has made at a number that it may have is read by `init` as it
  -- was: with its name, number and type, and with its axes but those of length one.
  pub insert-init :
      DescribesColumns c
      → (ci : ColumnInfo) (ns : List ℕ) (file : ℕ) (offset : ℤ) (s : Store W)
      → ci.extent ≡ map pos ns
      → AllPositive ns
      → product ns < 2 ^ 31
      → is_plain ci.column_type ≡ true
      → HasPlace c (fptr file s) ci.colnum s.world
      → let (r, s') = insert ci file s in
        r ≡ ok tt → ReadsAs ci offset (init file offset ci.colnum s').0
  insert-init law ci ns file offset s shape positive small plain place h =
      let n = product ns in
      let s' = (insert ci file s).1 in
      let count : nelem ci.extent ≡ pos n =
        ap nelem shape ∙ (nelem_exact_iff ns positive).1 small in
      let (holds, same) =
        insert-HoldsColumn law ci n file s count (product_pos ns positive) plain place h in
      let axes = inserted_axes ci n in
      Found-ReadsAs ci axes offset (init file offset ci.colnum s').0 (inserted_axes_eq ci ns shape)
        (init-Found file ci.colnum offset ci.ttype ci.column_type n axes s' plain (rw same holds))

  -- `insert` does the same whatever the unit of the column is: a unit that a client has given to `Table::add` is not
  -- written to the header.
  insert_ignores_unit :
      (ci : ColumnInfo) (unit : Text) (file : ℕ)
      → insert ⦃c = c⦄ (record ci { tunit = unit }) file ≡ insert ci file
  unfolding insert tform
  insert_ignores_unit ci unit file = refl
