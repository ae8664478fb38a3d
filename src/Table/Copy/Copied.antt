-- ===== src/Table/Copy/Copied.antt =====
-- The loop of Table::copy_columns (misfits/table.cc) that copies the cells, between tables of two files.
use misfits.Prelude.{
  ℕ, ◌≡◌, ◌≢◌, sym, ◌∙◌, List, [], ◌∷◌, Every, Every-all, Every-zip, Every-map, Every-of_map, map,
  false,
}
use mathlib.Core.Path.{subst}
use misfits.Prelude.Text.{Text}
use misfits.Cfitsio.{Cfitsio}
use misfits.Cfitsio.Copying.{Names, CopiesColumns}
use misfits.Exception.Gives.{
  Gives, bind-Gives, gets-Gives, pure-Gives, Gives-intro, Gives-weaken, assoc-Gives,
}
use misfits.Store.{Store, ColumnInfo}
use misfits.Table.{colinfo_named}
use misfits.Table.Copy.{copy_cells}
use misfits.Table.Copy.Pair.{Pair}
use misfits.Table.Copy.Round.{Between, Between-weaken, Steady, copy_one, copy_one_found}

-- No two names have the same place.
abbrev pub AllDistinct : (Text → ℕ) → List Text → Type 0
AllDistinct place [] = Unit
AllDistinct place (name ∷ names) =
    Every (λ other. place name ≢ place other) names × AllDistinct place names

-- The names of the columns that are described
abbrev pub ttypes : List ColumnInfo → List Text
ttypes = map (λ ci. ci.ttype)

module _ {W C : Type 0} ⦃c : Cfitsio W⦄ (p : Pair W C) where
  -- The columns of the source are as they were.
  abbrev pub SourceKept : W → Type 0
  SourceKept w = (j : ℕ) → p.content p.f j w ≡ p.source j

  -- The descriptions whose columns are still to be copied, by the places of their names in the destination
  abbrev pub AllNamed : List ColumnInfo → W → Type 0
  AllNamed cis w = Every (λ ci. Names c p.g ci.ttype (p.to ci.ttype) w) cis

module _ {W C : Type 0} (p : Pair W C) (Made : ℕ → C → C → Type 0) where
  -- The column of the name holds what was made of the source's column.
  abbrev pub IsCopied : ColumnInfo → W → Type 0
  IsCopied ci w = Made (p.to ci.ttype) (p.source ci.colnum) (p.content p.g (p.to ci.ttype) w)

  abbrev pub AllCopied : List ColumnInfo → W → Type 0
  AllCopied cis w = Every (λ ci. IsCopied ci w) cis

module _ {W C : Type 0} ⦃c : Cfitsio W⦄ (p : Pair W C) {Made : ℕ → C → C → Type 0}
    (law : CopiesColumns c p.content Made p.f p.g) where
  copy_one-Copied :
      (k : ℕ) (ci : ColumnInfo) (R : W → Type 0) (s : Store W)
      → Steady p.f p.g k R
      → Between p.src p.dest p.f p.g (λ w. SourceKept p w × (Names c p.g ci.ttype k w × R w)) s
      → Gives
          (λ _ s'.
            Between p.src p.dest p.f p.g
              (λ w. SourceKept p w × (Made k (p.source ci.colnum) (p.content p.g k w) × R w))
              s')
          (copy_one p.f p.g p.dest ci s)
  copy_one-Copied k ci R s steady h = Gives-intro _ (copy_one p.f p.g p.dest ci) s λ _ e.
      let (kept, (named, r)) = h.holds in
      let (status, e') = copy_one_found p.f p.g p.dest k ci s h.laid h.to h.here named e in
      let w₁ = (c.get_colnum p.g false ci.ttype s.world).2 in
      let w₂ = (c.copy_col p.f p.g ci.colnum k false w₁).2 in
      let (same, _, _, here₁) = law.finds ci.ttype s.world in
      let (same₂, _, _, here₂) = law.spares ci.colnum k w₁ status in
      let source₁ : SourceKept p w₁ = λ j. same j ∙ kept j in
      subst (Between p.src p.dest p.f p.g _) (sym e') (record {
        from = h.from;
        to = h.to;
        laid = record { at_table = h.laid.at_table };
        here = here₂ ∙ here₁ ∙ h.here;
        holds = (
          (λ j. same₂ j ∙ source₁ j),
          (
            subst (λ v. Made k v (p.content p.g k w₂)) (source₁ ci.colnum)
                (law.copies ci.colnum k w₁ status),
            steady.copies ci.colnum w₁ status (steady.finds ci.ttype s.world r),
          ),
        );
      })

  AllNamed-Steady : (cis : List ColumnInfo) (k : ℕ) → Steady p.f p.g k (AllNamed p cis)
  AllNamed-Steady cis k = record {
    finds = λ name w. Every-map cis λ ci. (law.finds name w).2 ci.ttype (p.to ci.ttype);
    copies = λ n w ends. Every-map cis λ ci. (law.spares n k w ends).2 ci.ttype (p.to ci.ttype);
  }

  Copied-Steady : (j k : ℕ) (v : C) → k ≢ j → Steady p.f p.g k (λ w. Made j v (p.content p.g j w))
  Copied-Steady j k v other = record {
    finds = λ name w. subst (Made j v) (sym ((law.finds name w).1 j));
    copies = λ n w ends. subst (Made j v) (sym ((law.spares n k w ends).1 j other));
  }

  both-Steady :
      (k : ℕ) (P Q : W → Type 0)
      → Steady p.f p.g k P
      → Steady p.f p.g k Q
      → Steady p.f p.g k (λ w. P w × Q w)
  both-Steady k P Q p q = record {
    finds = λ name w (x, y). (p.finds name w x, q.finds name w y);
    copies = λ n w ends (x, y). (p.copies n w ends x, q.copies n w ends y);
  }

  copy_cells-AllCopied :
      (cis : List ColumnInfo) (D : W → Type 0) (s : Store W)
      → AllDistinct p.to (ttypes cis)
      → Every (λ ci. Steady p.f p.g (p.to ci.ttype) D) cis
      → Between p.src p.dest p.f p.g (λ w. SourceKept p w × (AllNamed p cis w × D w)) s
      → Gives (λ _ s'. D s'.world × AllCopied p Made cis s'.world) (copy_cells p.src p.dest cis s)
  unfolding copy_cells
  copy_cells-AllCopied [] D s apart steady h = pure-Gives _ tt s (h.holds.1.1, tt)
  copy_cells-AllCopied (ci ∷ cis) D s apart steady h =
      let k = p.to ci.ttype in
      let D' : W → Type 0 = λ w. D w × IsCopied p Made ci w in
      let steady' : Every (λ x. Steady p.f p.g (p.to x.ttype) D') cis =
        Every-zip cis
          (λ x d other.
            both-Steady (p.to x.ttype) D (IsCopied p Made ci) d
              (Copied-Steady k (p.to x.ttype) (p.source ci.colnum) (λ e. other (sym e))))
          steady.1 (Every-of_map _ (λ ci. ci.ttype) cis apart.0) in
      gets-Gives _ _ _ s (
        gets-Gives _ _ _ s (
          rw (h.from, h.to)
            (assoc-Gives _ (colinfo_named p.dest ci.ttype) _ (λ _. copy_cells p.src p.dest cis) s
              (bind-Gives _ _ (copy_one p.f p.g p.dest ci) _ s
                (copy_one-Copied k ci (λ w. AllNamed p cis w × D w) s
                  (both-Steady k (AllNamed p cis) D (AllNamed-Steady cis k) steady.0)
                  (Between-weaken p.src p.dest p.f p.g _ _ s
                    (λ w (kept, ((n, named), d)). (kept, (n, (named, d)))) h))
                λ _ s' h'.
                  Gives-weaken _ _ (copy_cells p.src p.dest cis) s'
                    (λ _ s'' ((d, e), rest). (d, (e, rest)))
                    (copy_cells-AllCopied cis D' s' apart.1 steady' (
                      Between-weaken p.src p.dest p.f p.g _ _ s'
                        (λ w (kept, (e, (named, d))). (kept, (named, (d, e)))) h'))))))

  -- The loop, where nothing but the copying is of interest
  pub copy_cells_copied :
      (cis : List ColumnInfo) (s : Store W)
      → AllDistinct p.to (ttypes cis)
      → Between p.src p.dest p.f p.g (λ w. SourceKept p w × AllNamed p cis w) s
      → Gives (λ _ s'. AllCopied p Made cis s'.world) (copy_cells p.src p.dest cis s)
  copy_cells_copied cis s apart h =
      let steady : Every (λ ci. Steady p.f p.g (p.to ci.ttype) (λ _. Unit)) cis =
        Every-all cis λ ci. record { finds = λ name w d. tt; copies = λ n w ends d. tt } in
      Gives-weaken _ _ (copy_cells p.src p.dest cis) s (λ _ s' (_, copied). copied)
        (copy_cells-AllCopied cis (λ _. Unit) s apart steady
          (Between-weaken p.src p.dest p.f p.g _ _ s (λ w (kept, named). (kept, (named, tt))) h))
