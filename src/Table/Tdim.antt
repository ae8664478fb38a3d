-- ===== src/Table/Tdim.antt =====
-- What Table::resize (misfits/table.cc) does about the TDIM keyword of a column.
use misfits.Prelude.{
  ℕ, ◌≡◌, refl, ap, true, false, Bool-cases, List, [], ◌∷◌, map, some, ltb, length, ◌==◌,
  if◌then◌else◌, ◌⊎◌, inl, inr, arith, sym, ◌∙◌,
}
use mathlib.Core.Path.{subst}
use misfits.Prelude.Int.{ℤ, pos}
use misfits.Prelude.Text.{Text}
use misfits.Cfitsio.{Cfitsio, flen_value, key_no_exist}
use misfits.Cfitsio.Laws.{fits_card}
use misfits.Cfitsio.Columns.{Shows}
use misfits.Cfitsio.Resizing.{HasElements, ResizesColumns, tdim_key}
use misfits.Exception.{ok, pure, raise}
use misfits.Exception.Gives.{Gives, bind-Gives, gets-Gives, pure-Gives, Gives-intro, Keeps-Gives}
use misfits.Types.{Spec}
use misfits.Extent.{Extent, naxes, squeeze, to_string}
use misfits.Extent.Nelem.{product}
use misfits.Extent.Print.{parse_axes, parse_axes-to_string, to_string-NullFree}
use misfits.Prelude.CText.{NullFree, until_null, until_null-NullFree}
use misfits.Store.{Store, Hdu, check, call}
use misfits.Hdu.{
  Keyword, keyword, has_keyword, get_keyword_string, write_string, set_keyword_string,
  delete_keyword, card_found,
}
use misfits.Table.{update_tdim}
use misfits.Table.Reading.{Sees, Sees-world, Sees-Watches}
use misfits.Table.Watched.{Watches, get_keyword_string-Keeps}

-- The text of the axes has room in a card, or is of more characters than a value of a card.
abbrev pub HasRoom : Extent → Type 0
HasRoom extent =
    (fits_card (to_string extent) ≡ true) ⊎ (ltb flen_value (length (to_string extent)) ≡ true)

-- What the column has when `resize` has changed its number of elements
abbrev pub resized_axes : List ℕ → List ℤ
resized_axes ns = if naxes (squeeze (map pos ns)) == 1 then pos (product ns) ∷ [] else map pos ns

card_found_still : {W : Type 0} (status : ℕ) (s : Store W) → (card_found status s).1 ≡ s
unfolding pure raise
card_found_still status s = ground arith

card_found_absent :
    {W : Type 0} (status : ℕ) (s : Store W)
    → (card_found status s).0 ≡ ok false
    → status ≡ key_no_exist
unfolding pure raise
card_found_absent status s e = ground arith

module _ {W : Type 0} ⦃c : Cfitsio W⦄ (law : ResizesColumns c) (t file f n k : ℕ) (ttype : Text)
    (spec : Spec) where
  -- The column has as many elements as the axes say, whatever its TDIM keyword says.
  abbrev pub Counted : List ℕ → Store W → Type 0
  Counted ns = Sees (HasElements c f n k ttype spec (product ns)) t file f n

  -- The column has so many elements, with the given axes.
  abbrev pub Shaped : List ℕ → List ℤ → Store W → Type 0
  Shaped ns axes = Sees (Shows c f n k ttype spec (pos (product ns)) axes) t file f n

  Counted-Watches :
      (ns : List ℕ) → Watches c (HasElements c f n k ttype spec (product ns)) (Counted ns) t file n
  Counted-Watches ns = Sees-Watches (law.reading f n k ttype spec (product ns))

  -- If the TDIM keyword is not found, the column has one axis.
  found_tdim :
      (ns : List ℕ) (hdu : Hdu) (s : Store W)
      → hdu.file ≡ file
      → Counted ns s
      → Gives
          (λ found s'. Counted ns s' × (found ≡ false → Shaped ns (pos (product ns) ∷ []) s'))
          (has_keyword hdu (tdim_key k) s)
  unfolding has_keyword call
  found_tdim ns hdu s here h =
      let w = s.world in
      let w' = (c.read_card f (tdim_key k) w).2 in
      let kept =
        Sees-world w' s h (law.looks f n k ttype spec (product ns) (tdim_key k) w h.holds) in
      gets-Gives _ _ _ s (
        rw (here, h.pointer)
          (bind-Gives
            (λ found s'.
              Counted ns s' × (found.0 ≡ key_no_exist → Shaped ns (pos (product ns) ∷ []) s'))
            _ (call (c.read_card f (tdim_key k))) _ s
            (kept, λ e. Sees-world w' s h (law.absent f n k ttype spec (product ns) w e h.holds))
            λ (status, _) s' (counted, absent). Gives-intro _ (card_found status) s' λ found e.
              let still = sym (card_found_still status s') in
              (
                subst (Counted ns) still counted,
                λ no.
                    subst (Shaped ns _) still (absent (card_found_absent status s' (e ∙ ap ok no))),
              )))

  dropped_tdim :
      (ns : List ℕ) (hdu : Hdu) (s : Store W)
      → hdu.file ≡ file
      → hdu.hdu_num ≡ n
      → Counted ns s
      → Gives (λ _ s'. Shaped ns (pos (product ns) ∷ []) s') (delete_keyword hdu (tdim_key k) s)
  unfolding delete_keyword check
  dropped_tdim ns hdu s here number h =
      bind-Gives _ _ _ _ s (Keeps-Gives _ s ((Counted-Watches ns).moves hdu here number) h)
        λ _ s₁ h₁. gets-Gives _ _ _ s₁ (
          rw (here, h₁.pointer)
            (Gives-intro _ (check (c.delete_key f (tdim_key k))) s₁ λ _ e.
              Sees-world _ s₁ h₁
                (law.deletes f n k ttype spec (product ns) s₁.world (ground arith) h₁.holds)))

  write_tdim :
      (m : ℕ) (ns : List ℕ) (kw : Keyword Text) (w : W)
      → let (status, _, w') = write_string f kw w in
        status ≡ 0
        → kw.keyname ≡ tdim_key k
        → parse_axes kw.value ≡ some (m ∷ ns)
        → NullFree kw.value
        → (fits_card kw.value ≡ true) ⊎ (ltb flen_value (length kw.value) ≡ true)
        → HasElements c f n k ttype spec (product (m ∷ ns)) w
        → Shows c f n k ttype spec (pos (product (m ∷ ns))) (map pos (m ∷ ns)) w'
  unfolding write_string
  write_tdim m ns kw w e key value clean room h =
      let w₁ = (c.write_key_longwarn f w).2 in
      ground (
        arith,
        until_null-NullFree kw.value clean,
        law.one_card f n k ttype spec (m ∷ ns) kw.value (until_null kw.comment) w,
        law.long f n k ttype spec (m ∷ ns) kw.value (until_null kw.comment) w₁,
        law.warns f n k ttype spec (product (m ∷ ns)) w,
      )

  written_tdim :
      (m : ℕ) (ns : List ℕ) (hdu : Hdu) (kw : Keyword Text) (s : Store W)
      → hdu.file ≡ file
      → hdu.hdu_num ≡ n
      → kw.keyname ≡ tdim_key k
      → parse_axes kw.value ≡ some (m ∷ ns)
      → NullFree kw.value
      → (fits_card kw.value ≡ true) ⊎ (ltb flen_value (length kw.value) ≡ true)
      → Counted (m ∷ ns) s
      → Gives (λ _ s'. Shaped (m ∷ ns) (map pos (m ∷ ns)) s') (set_keyword_string hdu kw s)
  unfolding set_keyword_string check
  written_tdim m ns hdu kw s here number key value clean room h =
      bind-Gives _ _ _ _ s (Keeps-Gives _ s ((Counted-Watches (m ∷ ns)).moves hdu here number) h)
        λ _ s₁ h₁. gets-Gives _ _ _ s₁ (
          rw (here, h₁.pointer)
            (Gives-intro _ (check (write_string f kw)) s₁ λ _ e.
              Sees-world _ s₁ h₁
                (write_tdim m ns kw s₁.world (ground arith) key value clean room h₁.holds)))

  pub update_tdim-Shaped :
      (m : ℕ) (ns : List ℕ) (hdu : Hdu) (s : Store W)
      → hdu.file ≡ file
      → hdu.hdu_num ≡ n
      → HasRoom (map pos (m ∷ ns))
      → Counted (m ∷ ns) s
      → Gives
          (λ _ s'. Shaped (m ∷ ns) (resized_axes (m ∷ ns)) s')
          (update_tdim hdu (tdim_key k) (map pos (m ∷ ns)) s)
  unfolding update_tdim
  update_tdim-Shaped m ns hdu s here number room h =
      let extent = map pos (m ∷ ns) in
      let written = λ (comment : Text) (u : Store W).
        written_tdim m ns hdu (keyword (tdim_key k) (to_string extent) comment true) u here number
          refl (parse_axes-to_string m ns) (to_string-NullFree (m ∷ ns)) room in
      bind-Gives _ _ (has_keyword hdu (tdim_key k)) _ s (found_tdim (m ∷ ns) hdu s here h)
        λ found s₁ (h₁, alone). elim (Bool-cases (naxes (squeeze extent) == 1)) [
          | inl one ↦ elim (Bool-cases found) [
            | inl there ↦ rw (one, there) (dropped_tdim (m ∷ ns) hdu s₁ here number h₁)
            | inr not_there ↦ rw (one, not_there) (pure-Gives _ tt s₁ (alone not_there))
          ]
          | inr many ↦ elim (Bool-cases found) [
            | inl there ↦
                rw (many, there)
                  (bind-Gives _ _ (get_keyword_string hdu (tdim_key k) []) _ s₁
                    (Keeps-Gives _ s₁
                      (get_keyword_string-Keeps (Counted-Watches (m ∷ ns)) hdu (tdim_key k) [] here
                        number)
                      h₁)
                    λ old s₂ h₂. written old.comment s₂ h₂)
            | inr not_there ↦ rw (many, not_there) (written [] s₁ h₁)
          ]
        ]
