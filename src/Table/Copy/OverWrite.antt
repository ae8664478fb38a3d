-- ===== src/Table/Copy/OverWrite.antt =====
-- Table::copy_columns (misfits/table.cc) from end to end, where the columns that are there are written over.
use misfits.Prelude.{
  refl, ℕ, ◌≡◌, ◌≢◌, sym, ◌∙◌, List, [], ◌∷◌, Every, Every-zip, Every-of_map, Every-to_map,
}
use Prim.Native.Nat.{bit_and}
use mathlib.Core.Path.{subst}
use misfits.Prelude.Text.{Text}
use misfits.Cfitsio.{Cfitsio}
use misfits.Cfitsio.Copying.{Names, CopiesColumns, SparesColumns}
use misfits.Exception.{ok}
use misfits.Exception.Keeps.{Keeps-both}
use misfits.Exception.Gives.{Gives, bind-Gives, Gives-weaken, Keeps-Gives, outcome-ok}
use misfits.Store.{Store, ColumnInfo}
use misfits.Table.{set_table_as_chdu, refresh}
use misfits.Table.Layout.{AllLaidOut}
use misfits.Table.Layout.Steps.{refresh-AllLaidOut}
use misfits.Table.Layout.Copying.{extend_rows-AllLaidOut}
use misfits.Table.Reading.{Sees-weaken, Sees-fptr, set_table_as_chdu-still}
use misfits.Table.Copy.{
  CopyPlan, no_plan, plan_columns, insert_planned, extend_rows, copy_cells, copy_columns,
}
use misfits.Table.Copy.Flags
use misfits.Table.Copy.Round.{Between}
use misfits.Table.Copy.Copied.{AllDistinct, ttypes, SourceKept, AllNamed, copy_cells_copied}
use misfits.Table.Copy.Pair.{Pair, Ready, Linked}
use misfits.Table.Copy.Planned.{OnlyOver, Cached, IsSpelt, planned_over}
use misfits.Table.Copy.Extended.{insert_none, extend_rows-Linked, refresh-Linked}

module _ {W C : Type 0} (p : Pair W C) (Made : ℕ → C → C → Type 0) where
  -- Every name's column in the destination holds what fits_copy_col made of the name's column in the source.
  abbrev pub AllOver : List Text → W → Type 0
  AllOver names w =
      Every (λ name. Made (p.to name) (p.source (p.from name)) (p.content p.g (p.to name) w)) names

module _ {W C : Type 0} ⦃c : Cfitsio W⦄ (p : Pair W C) {Made : ℕ → C → C → Type 0}
    (copies : CopiesColumns c p.content Made p.f p.g) (spares : SparesColumns c p.content p.f p.g)
    (apart : p.src ≢ p.dest) where
  abbrev IsReady : Store W → Type 0
  IsReady s = Linked p s × AllLaidOut s

  Ready-Between :
      (cis : List ColumnInfo) (s : Store W)
      → ttypes cis ≡ p.names
      → IsReady s
      → Between p.src p.dest p.f p.g (λ w. SourceKept p w × AllNamed p cis w) s
  Ready-Between cis s names ((a, b), laid) =
      let ready = b.holds in
      record {
        from = Sees-fptr s a;
        to = Sees-fptr s b;
        laid = laid;
        here = ready.there ∙ sym b.in_hdu;
        holds = (
          ready.kept,
          Every-of_map (λ name. Names c p.g name (p.to name) s.world) (λ ci. ci.ttype) cis
              (subst (Every _) (sym names) ready.to_named),
        );
      }

  -- The loop that copies, with a plan for the names
  cells-AllOver :
      (plan : CopyPlan) (s : Store W)
      → AllDistinct p.to p.names
      → OnlyOver p.from p.names plan
      → IsReady s
      → Gives (λ _ s'. AllOver p Made p.names s'.world) (copy_cells p.src p.dest plan.src_ci s)
  cells-AllOver plan s distinct (_, names, numbers) ready =
      Gives-weaken _ _ (copy_cells p.src p.dest plan.src_ci) s
        (λ _ s' copied.
          subst (λ all. AllOver p Made all s'.world) names
            (Every-to_map _ (λ (ci : ColumnInfo). ci.ttype) plan.src_ci
              (Every-zip plan.src_ci
                (λ ci number.
                  subst
                    (λ j.
                      Made (p.to ci.ttype) (p.source j) (p.content p.g (p.to ci.ttype) s'.world))
                    number)
                numbers copied)))
        (copy_cells_copied p copies plan.src_ci s (subst (AllDistinct p.to) (sym names) distinct)
          (Ready-Between plan.src_ci s names ready))

  module _ (columns : ℕ → List ColumnInfo) where
    -- The two tables are in the current HDUs, as they are found and planned for.
    abbrev pub IsCached : Store W → Type 0
    IsCached = Cached p columns

    chdu_of_source :
        (s : Store W) → IsCached s → Gives (λ _ s'. IsCached s') (set_table_as_chdu p.src s)
    chdu_of_source s h =
        let current = Sees-weaken s (λ w (ready : Ready p w). ready.here) h.linked.0 in
        rw (set_table_as_chdu-still s current) h

    chdu_of_dest :
        (s : Store W) → IsCached s → Gives (λ _ s'. IsCached s') (set_table_as_chdu p.dest s)
    chdu_of_dest s h =
        let current = Sees-weaken s (λ w (ready : Ready p w). ready.there) h.linked.1 in
        rw (set_table_as_chdu-still s current) h

    copy_columns-AllOver :
        (name : Text) (rest : List Text) (how : ℕ) (s : Store W)
        → name ∷ rest ≡ p.names
        → bit_and how Flags.flag_mask ≡ Flags.over_write
        → AllDistinct p.to p.names
        → Every (IsSpelt p columns) p.names
        → IsCached s
        → Gives
            (λ _ s'. AllOver p Made p.names s'.world)
            (copy_columns p.src p.dest (name ∷ rest) how s)
    unfolding copy_columns
    copy_columns-AllOver name rest how s whole over distinct spelt h =
        bind-Gives _ _ (set_table_as_chdu p.src) _ s (chdu_of_source s h) λ _ s₁ h₁.
          bind-Gives _ _ (set_table_as_chdu p.dest) _ s₁ (chdu_of_dest s₁ h₁) λ _ s₂ h₂.
            bind-Gives (λ plan u. OnlyOver p.from p.names plan × IsCached u) _
              (plan_columns p.src p.dest how (name ∷ rest) no_plan) _ s₂
              (rw whole (planned_over p columns spares how s₂ over spelt h₂))
              λ plan s₃ (only, h₃).
                bind-Gives (λ _ u. IsReady u) _ (insert_planned p.dest plan) _ s₃
                  (insert_none _ p.dest plan s₃ only.0 (h₃.linked, h₃.laid))
                  λ _ s₄ h₄.
                    bind-Gives _ _ (extend_rows p.src p.dest how) _ s₄
                      (Keeps-Gives _ s₄
                        (Keeps-both _ (extend_rows-Linked p spares apart how)
                          (extend_rows-AllLaidOut p.src p.dest how))
                        h₄)
                      λ _ s₅ h₅.
                        bind-Gives _ _ (refresh p.dest) _ s₅
                          (Keeps-Gives _ s₅
                            (Keeps-both _ (refresh-Linked p spares apart)
                              (refresh-AllLaidOut p.dest))
                            h₅)
                          λ _ s₆ h₆. cells-AllOver plan s₆ distinct only h₆

  -- If CFITSIO copies columns as documented, and spares what it does not write, `copy_columns( dest, names, how )`
  -- between the tables of two files, if it does not throw and how says to write over the columns that are there, has
  -- made of what every column that is named holds in the source what the column of that name in the destination holds,
  -- in the type of that column and for the rows that were copied, with all that it does before: the plan, the adding
  -- of rows and the refreshing. The tables have the columns, in the source spelt as they are named, and no two names
  -- mean the same column of the destination; the cached columns are laid out, and both tables are in the current HDUs
  -- of their files.
  pub copy_columns_over :
      (how : ℕ) (s : Store W)
      → bit_and how Flags.flag_mask ≡ Flags.over_write
      → AllDistinct p.to p.names
      → Every (IsSpelt p s.columns) p.names
      → IsCached s.columns s
      → let (r, s') = copy_columns p.src p.dest p.names how s in
        r ≡ ok tt → AllOver p Made p.names s'.world
  copy_columns_over how s over distinct spelt h = by_names p.names refl
    where
      by_names :
          (all : List Text)
          → all ≡ p.names
          → let (r, s') = copy_columns p.src p.dest all how s in
            r ≡ ok tt → AllOver p Made p.names s'.world
      by_names [] whole done =
          subst (λ all. AllOver p Made all (copy_columns p.src p.dest [] how s).1.world) whole tt
      by_names (name ∷ rest) whole done =
          outcome-ok _ (copy_columns p.src p.dest (name ∷ rest) how s).0
            (copy_columns p.src p.dest (name ∷ rest) how s).1
            (copy_columns-AllOver s.columns name rest how s whole over distinct spelt h) done
