-- ===== src/Table/Added.antt =====
-- Table::add (misfits/table.cc) from end to end: the table lists the column that was added.
use misfits.Prelude.{
  ℕ, suc, ◌<◌, ◌^◌, ◌≡◌, refl, ap, true, false, List, map, Option, none, some, get_elem?, arith,
}
use mathlib.Core.Path.{subst, sym, ◌∙◌}
use misfits.Prelude.Int.{ℤ, pos, ==ℤ_refl}
use misfits.Cfitsio.{Cfitsio}
use misfits.Cfitsio.Laws.{MovesTo}
use misfits.Cfitsio.Columns.{
  is_plain, HoldsColumn, HasPlace, Shows, DescribesColumns, KeepsDescriptions,
}
use misfits.Exception.{Result, ok, throw, out_of_range, or_throw, ◌>>=◌}
use misfits.Exception.Keeps.{Keeps, keeps_rules}
use misfits.Exception.Gives.{Gives, bind-Gives, gets-Gives, Gives-intro, outcome-ok}
use misfits.Types.{spec_id}
use misfits.Extent.{nelem, naxes, extent_eq}
use misfits.Extent.Nelem.{product, product_pos, AllPositive, nelem_exact_iff}
use misfits.Store.{Store, ColumnInfo, fptr, check}
use misfits.File.{hdu_num}
use misfits.File.Move.{move_to_frame, move_to_lem}
use misfits.Hdu.{set_as_chdu}
use misfits.ColumnInfo.{tform, insert, column_eq}
use misfits.ColumnInfo.ReadBack.{inserted_axes, inserted_axes_eq, insert-HoldsColumn}
use misfits.Table.{set_table_as_chdu, column_place, add, colinfo}
use misfits.Table.Reading.{Sees, Sees-Watches}
use misfits.Table.Watched.{num_columns-Keeps}
use misfits.Table.Listed.{Lists, refresh-Lists}

-- What `colinfo` gives is the column that was to be added, at its place, up to axes of length one.
abbrev pub Stands : ColumnInfo → ℕ → Result ColumnInfo → Type 0
Stands ci place (ok ci') = (ci'.ttype ≡ ci.ttype) × (column_eq ci ci' ≡ true) × (ci'.colnum ≡ place)
Stands ci place (throw e) = true ≡ false

listed_Stands :
    {S : Type 0} (ci : ColumnInfo) (axes : List ℤ) (place : ℕ) (s : S) (o : Option ColumnInfo)
    → extent_eq axes ci.extent ≡ true
    → Lists ci.ttype ci.column_type axes place o
    → Stands ci place (or_throw o out_of_range s).0
unfolding column_eq or_throw
listed_Stands ci axes place s none same h = h
listed_Stands ci axes place s (some ci') same (name, type, shape, number) =
    (name, rw (type, shape, ==ℤ_refl (spec_id ci.column_type)) same, number)

module _ {W : Type 0} ⦃c : Cfitsio W⦄ where
  Lists-Stands :
      (ci : ColumnInfo) (axes : List ℤ) (t i : ℕ) (s : Store W)
      → extent_eq axes ci.extent ≡ true
      → Lists ci.ttype ci.column_type axes (suc i) (get_elem? (s.columns t) i)
      → Stands ci (suc i) (colinfo ⦃c = c⦄ t (suc i) s).0
  unfolding colinfo ◌>>=◌
  Lists-Stands ci axes t i s same h =
      listed_Stands ci axes (suc i) s (get_elem? (s.columns t) i) same h

  -- The table is in the current HDU of its file.
  abbrev pub IsCurrent : ℕ → ℕ → ℕ → ℕ → Store W → Type 0
  IsCurrent t file f n = Sees (λ w. c.get_hdu_num f w ≡ n) t file f n

  column_place-IsCurrent :
      KeepsDescriptions c
      → (t file f n colnum : ℕ) → Keeps (IsCurrent t file f n) (column_place t colnum)
  unfolding column_place
  column_place-IsCurrent law t file f n colnum =
      search (keeps_rules, num_columns-Keeps (Sees-Watches (law.current f n))) depth 9

  pub set_table_as_chdu-IsCurrent :
      MovesTo c
      → (t : ℕ) (s s₁ : Store W) → set_table_as_chdu t s ≡ (ok tt, s₁)
      → IsCurrent t (s.hdus t).file (fptr (s.hdus t).file s) (s.hdus t).hdu_num s₁
  unfolding set_as_chdu ◌>>=◌
  set_table_as_chdu-IsCurrent moves t s s₁ e =
      let hdu = s.hdus t in
      let frame = move_to_frame hdu.file hdu.hdu_num s in
      let here = move_to_lem moves hdu.file hdu.hdu_num s (ap (λ r. r.0) e) in
      let s' = (set_as_chdu hdu s).1 in
      let pointer : fptr hdu.file s' ≡ fptr hdu.file s =
        ap (λ files. (files hdu.file).fitsptr) frame.0 in
      subst (Sees _ t hdu.file (fptr hdu.file s) hdu.hdu_num) (ap (λ r. r.1) e) (record {
        holds = subst (λ p. c.get_hdu_num p s'.world ≡ hdu.hdu_num) pointer here;
        pointer = pointer;
        in_file = ap (λ hdus. (hdus t).file) frame.1;
        in_hdu = ap (λ hdus. (hdus t).hdu_num) frame.1;
      })

  insert_frame :
      KeepsDescriptions c
      → (ci : ColumnInfo) (file : ℕ) (s : Store W) → (insert ci file s).0 ≡ ok tt
      → let s' = (insert ci file s).1 in
        (s'.hdus ≡ s.hdus) × (s'.files ≡ s.files) × (hdu_num file s' ≡ hdu_num file s)
  unfolding insert check ◌>>=◌
  insert_frame law ci file s h =
      let f = fptr file s in
      let w = (c.insert_col f ci.colnum ci.ttype (tform ci) s.world).2 in
      ground (
        arith,
        law.inserts f ci.colnum ci.ttype (tform ci) s.world,
        law.shapes f ci.colnum (naxes ci.extent) ci.extent w,
      )

  insert-SeesColumn :
      DescribesColumns c
      → KeepsDescriptions c
      → (ci : ColumnInfo) (m t file f n : ℕ) (s : Store W) → nelem ci.extent ≡ pos m
      → 0 < m
      → is_plain ci.column_type ≡ true
      → HasPlace c (fptr file s) ci.colnum s.world
      → IsCurrent t file f n s
      → let column = Shows c f n ci.colnum ci.ttype ci.column_type (pos m) (inserted_axes ci m) in
        Gives (λ _ s'. Sees column t file f n s') (insert ci file s)
  insert-SeesColumn describes law ci m t file f n s count some_of plain place current =
      Gives-intro _ (insert ci file) s λ _ e.
        let s' = (insert ci file s).1 in
        let (hdus, files, here) = insert_frame law ci file s e in
        let (column, same) = insert-HoldsColumn describes ci m file s count some_of plain place e in
        let pointer : fptr file s' ≡ f = same ∙ current.pointer in
        record {
          holds = (
            subst (λ p. c.get_hdu_num p s'.world ≡ n) pointer
                (here
                  ∙ subst (λ p. c.get_hdu_num p s.world ≡ n) (sym current.pointer) current.holds),
            subst
                (λ p.
                  HoldsColumn c p ci.colnum ci.ttype ci.column_type (pos m) (inserted_axes ci m)
                    s'.world)
                current.pointer column,
          );
          pointer = pointer;
          in_file = ap (λ all. (all t).file) hdus ∙ current.in_file;
          in_hdu = ap (λ all. (all t).hdu_num) hdus ∙ current.in_hdu;
        }

  -- `add`, once the place is known and if `insert` has made the column
  add-Lists :
      KeepsDescriptions c
      → (t i m : ℕ) (ci : ColumnInfo) (s s₁ s₂ : Store W) (file f n : ℕ)
      → is_plain ci.column_type ≡ true
      → set_table_as_chdu t s ≡ (ok tt, s₁)
      → column_place t ci.colnum s₁ ≡ (ok (suc i), s₂)
      → (s₂.hdus t).file ≡ file
      → let axes = inserted_axes ci m in
        Gives
          (λ _ s'. Sees (Shows c f n (suc i) ci.ttype ci.column_type (pos m) axes) t file f n s')
          (insert (record ci { colnum = suc i }) file s₂)
        → Gives
            (λ _ s'. Lists ci.ttype ci.column_type axes (suc i) (get_elem? (s'.columns t) i))
            (add t ci s)
  unfolding add
  add-Lists law t i m ci s s₁ s₂ file f n plain moved asked here inserted =
      let axes = inserted_axes ci m in
      bind-Gives (λ _ u₁. u₁ ≡ s₁) _ (set_table_as_chdu t) _ s (rw moved refl)
        λ _ u₁ e₁.
          bind-Gives (λ k u₂. (k ≡ suc i) × (u₂ ≡ s₂)) _ (column_place t ci.colnum) _ u₁
            (rw (e₁, asked) (refl, refl))
            λ k u₂ (number, e₂). gets-Gives _ _ _ u₂ (
              bind-Gives _ _ (insert (record ci { colnum = k }) _) _ u₂
                (rw (e₂, number, here) inserted)
                λ _ u₃ h₃.
                  refresh-Lists law t file f n i ci.ttype ci.column_type plain m axes u₃ h₃)

  -- If CFITSIO moves to the HDU that it is told to, describes columns as TFORM and TDIM say and keeps the description
  -- while it is read, then a column of numbers (but unsigned ones) or bits, of one element or more but fewer than
  -- 2^31, that `add`, if it does not throw, has added to a table at a place that it may have, is the one that
  -- `colinfo` gives for that place afterwards: it has the name, the number and the type of the column, and its axes
  -- but those of length one.
  pub add_lem :
      MovesTo c
      → DescribesColumns c
      → KeepsDescriptions c
      → (t i : ℕ) (ci : ColumnInfo) (ns : List ℕ) (s s₁ s₂ : Store W) → ci.extent ≡ map pos ns
      → AllPositive ns
      → product ns < 2 ^ 31
      → is_plain ci.column_type ≡ true
      → set_table_as_chdu t s ≡ (ok tt, s₁)
      → column_place t ci.colnum s₁ ≡ (ok (suc i), s₂)
      → HasPlace c (fptr (s.hdus t).file s₂) (suc i) s₂.world
      → let (r, s') = add t ci s in r ≡ ok tt → Stands ci (suc i) (colinfo t (suc i) s').0
  add_lem moves describes law t i ci ns s s₁ s₂ shape positive small plain moved asked place done =
      let file = (s.hdus t).file in
      let f = fptr file s in
      let n = (s.hdus t).hdu_num in
      let m = product ns in
      let ci' : ColumnInfo = record ci { colnum = suc i } in
      let axes = inserted_axes ci m in
      let count : nelem ci.extent ≡ pos m =
        ap nelem shape ∙ (nelem_exact_iff ns positive).1 small in
      let current = set_table_as_chdu-IsCurrent moves t s s₁ moved in
      let current' =
        subst (IsCurrent t file f n) (ap (λ r. r.1) asked)
          ((column_place-IsCurrent law t file f n ci.colnum).at s₁ current) in
      let inserted =
        insert-SeesColumn describes law ci' m t file f n s₂ count (product_pos ns positive) plain
          place current' in
      let added =
        add-Lists law t i m ci s s₁ s₂ file f n plain moved asked current'.in_file inserted in
      Lists-Stands ci axes t i (add t ci s).1 (inserted_axes_eq ci ns shape)
        (outcome-ok _ (add t ci s).0 (add t ci s).1 added done)
