-- ===== src/Table/Resized.antt =====
-- Table::resize( colnum, extent ) (misfits/table.cc) from end to end: the column has the axes that it was to have.
use misfits.Prelude.{
  ℕ, suc, ◌<◌, ◌≤◌, ◌^◌, ◌≡◌, refl, true, false, Bool-cases, List, [], ◌∷◌, map, Option, none, some,
  get_elem?, length, ◌==◌, inl, inr, arith,
}
use misfits.Prelude.Int.{pos}
use misfits.Prelude.Text.{Text}
use misfits.Cfitsio.{Cfitsio}
use misfits.Cfitsio.Laws.{MovesTo}
use misfits.Cfitsio.Columns.{is_plain, KeepsDescriptions}
use misfits.Cfitsio.Resizing.{HasElements, ResizesColumns, tdim_key}
use misfits.Exception.{Exception, out_of_range, ok, or_throw, ◌>>◌}
use misfits.Exception.Gives.{
  Gives, bind-Gives, gets-Gives, pure-Gives, Gives-intro, Gives-weaken, outcome-ok,
}
use misfits.Types.{Spec}
use misfits.Extent.{Extent, naxes, squeeze, extent_eq, nelem}
use misfits.Extent.Nelem.{product, AllPositive, nelem_exact_iff}
use misfits.Extent.Squeeze.{extent_eq_iff}
use misfits.ColumnInfo.Inserted.{squeeze-product}
use misfits.Store.{Store, Hdu, ColumnInfo, check, fptr}
use misfits.Table.{set_table_as_chdu, colinfo, resize, refresh, update_tdim}
use misfits.Table.Added.{set_table_as_chdu-IsCurrent}
use misfits.Table.Deleted.{description, description-colinfo}
use misfits.Table.Listed.{Lists, refresh-Lists}
use misfits.Table.Reading.{Sees, Sees-world, Sees-fptr}
use misfits.Table.Tdim.{HasRoom, resized_axes, Counted, update_tdim-Shaped}

resized_axes_eq : (ns : List ℕ) → extent_eq (resized_axes ns) (map pos ns) ≡ true
resized_axes_eq ns = elim (Bool-cases (naxes (squeeze (map pos ns)) == 1)) [
  | inl one ↦
      let few : length (squeeze (map pos ns)) ≤ 1 = ground arith in
      rw one ((extent_eq_iff (pos (product ns) ∷ []) (map pos ns)).1 (squeeze-product ns few))
  | inr many ↦ rw many ((extent_eq_iff (map pos ns) (map pos ns)).1 refl)
]

-- There is a description, of a column with the given axes but for those of length one.
abbrev pub HasExtent : Extent → Option ColumnInfo → Type 0
HasExtent extent none = true ≡ false
HasExtent extent (some ci) = extent_eq ci.extent extent ≡ true

Lists-HasExtent :
    (ttype : Text) (spec : Spec) (ns : List ℕ) (colnum : ℕ) (o : Option ColumnInfo)
    → Lists ttype spec (resized_axes ns) colnum o
    → HasExtent (map pos ns) o
Lists-HasExtent ttype spec ns colnum none h = h
Lists-HasExtent ttype spec ns colnum (some ci) (_, _, axes, _) = rw axes (resized_axes_eq ns)

or_throw-Gives :
    {S A : Type 0} (o : Option A) (e : Exception) (s : S)
    → Gives (λ a s'. (s' ≡ s) × (o ≡ some a)) (or_throw o e s)
unfolding or_throw
or_throw-Gives none e s = tt
or_throw-Gives (some a) e s = (refl, refl)

module _ {W : Type 0} ⦃c : Cfitsio W⦄ where
  colinfo-Gives :
      (t i : ℕ) (s : Store W)
      → Gives
          (λ info s'. (s' ≡ s) × (get_elem? (s.columns t) i ≡ some info))
          (colinfo ⦃c = c⦄ t (suc i) s)
  unfolding colinfo
  colinfo-Gives t i s =
      gets-Gives _ _ _ s (or_throw-Gives (get_elem? (s.columns t) i) out_of_range s)

  -- The part of `resize` for a column that is to change
  change-HasExtent :
      KeepsDescriptions c
      → ResizesColumns c
      → (t file f n i m old : ℕ) (ns : List ℕ) (ttype : Text) (spec : Spec) (hdu : Hdu)
        (s : Store W)
      → is_plain spec ≡ true
      → HasRoom (map pos (m ∷ ns))
      → hdu.file ≡ file
      → hdu.hdu_num ≡ n
      → Sees (HasElements c f n (suc i) ttype spec old) t file f n s
      → Gives
          (λ _ s'. HasExtent (map pos (m ∷ ns)) (get_elem? (s'.columns t) i))
          ((check (c.modify_vector_len f (suc i) (pos (product (m ∷ ns))))
              >> (update_tdim hdu (tdim_key (suc i)) (map pos (m ∷ ns)) >> refresh t))
            s)
  unfolding check
  change-HasExtent keeps law t file f n i m old ns ttype spec hdu s plain room here number h =
      let count = product (m ∷ ns) in
      bind-Gives _ _ (check (c.modify_vector_len f (suc i) (pos count))) _ s
        (Gives-intro (λ _ u. Counted law t file f n (suc i) ttype spec (m ∷ ns) u)
          (check (c.modify_vector_len f (suc i) (pos count))) s
          λ _ e.
            Sees-world _ s h
              (law.modifies f n (suc i) ttype spec old count s.world (ground arith) h.holds))
        λ _ s₁ h₁.
          bind-Gives _ _ (update_tdim hdu (tdim_key (suc i)) (map pos (m ∷ ns))) _ s₁
            (update_tdim-Shaped law t file f n (suc i) ttype spec m ns hdu s₁ here number room h₁)
            λ _ s₂ h₂.
              Gives-weaken _ _ (refresh t) s₂
                (λ _ s' lists. Lists-HasExtent ttype spec (m ∷ ns) (suc i) _ lists)
                (refresh-Lists keeps t file f n i ttype spec plain count (resized_axes (m ∷ ns)) s₂
                  h₂)

  resize-HasExtent :
      KeepsDescriptions c
      → ResizesColumns c
      → (t file f n i m old : ℕ) (ns : List ℕ) (ttype : Text) (spec : Spec) (s s₁ : Store W)
      → AllPositive (m ∷ ns)
      → product (m ∷ ns) < 2 ^ 31
      → is_plain spec ≡ true
      → HasRoom (map pos (m ∷ ns))
      → set_table_as_chdu t s ≡ (ok tt, s₁)
      → Sees (HasElements c f n (suc i) ttype spec old) t file f n s₁
      → Gives
          (λ _ s'. HasExtent (map pos (m ∷ ns)) (get_elem? (s'.columns t) i))
          (resize t (suc i) (map pos (m ∷ ns)) s)
  unfolding resize
  resize-HasExtent keeps law t file f n i m old ns ttype spec s s₁ positive small plain room moved
        h =
      let extent = map pos (m ∷ ns) in
      let count : nelem extent ≡ pos (product (m ∷ ns)) =
        (nelem_exact_iff (m ∷ ns) positive).1 small in
      bind-Gives (λ _ u. u ≡ s₁) _ (set_table_as_chdu t) _ s (rw moved refl)
        λ _ u₁ e₁. rw e₁ (
          gets-Gives _ _ _ s₁ (
            bind-Gives _ _ (colinfo t (suc i)) _ s₁ (colinfo-Gives t i s₁) λ info u₂ (e₂, elem).
              rw e₂ (
                gets-Gives _ _ _ s₁ (elim (Bool-cases (extent_eq info.extent extent)) [
                  | inl same ↦ rw same (pure-Gives _ tt s₁ (rw elem same))
                  | inr other ↦
                      rw (other, Sees-fptr s₁ h, count)
                        (change-HasExtent keeps law t file f n i m old ns ttype spec (s₁.hdus t) s₁
                          plain room h.in_file h.in_hdu h)
                ]))))

  -- If CFITSIO moves to the HDU that it is told to, resizes columns as documented and keeps their descriptions while
  -- they are read, then after a `resize( colnum, extent )` that does not throw, `colinfo` gives for the number a
  -- description with the axes of extent, but for those of length one; if the HDU has a column of that number, of
  -- numbers (but unsigned ones) or bits, and the axes are of one element or more but fewer than 2^31, and their text
  -- has room in a card or is of more characters than a value of a card.
  pub resize_lem :
      MovesTo c
      → KeepsDescriptions c
      → ResizesColumns c
      → (t i m old : ℕ) (ns : List ℕ) (ttype : Text) (spec : Spec) (s s₁ : Store W)
      → AllPositive (m ∷ ns)
      → product (m ∷ ns) < 2 ^ 31
      → is_plain spec ≡ true
      → HasRoom (map pos (m ∷ ns))
      → set_table_as_chdu t s ≡ (ok tt, s₁)
      → HasElements c (fptr (s.hdus t).file s) (s.hdus t).hdu_num (suc i) ttype spec old s₁.world
      → let extent = map pos (m ∷ ns) in
        let (r, s') = resize t (suc i) extent s in
        r ≡ ok tt → HasExtent extent (description (colinfo t (suc i) s').0)
  resize_lem moves keeps law t i m old ns ttype spec s s₁ positive small plain room moved holds
        done =
      let extent = map pos (m ∷ ns) in
      let hdu = s.hdus t in
      let current = set_table_as_chdu-IsCurrent moves t s s₁ moved in
      let given =
        resize-HasExtent keeps law t hdu.file (fptr hdu.file s) hdu.hdu_num i m old ns ttype spec s
          s₁ positive small plain room moved (Sees-world s₁.world s₁ current holds) in
      rw (description-colinfo t i (resize t (suc i) extent s).1)
        (outcome-ok _ (resize t (suc i) extent s).0 (resize t (suc i) extent s).1 given done)
