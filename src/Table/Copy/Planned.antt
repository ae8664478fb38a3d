-- ===== src/Table/Copy/Planned.antt =====
-- The first loop of Table::copy_columns (misfits/table.cc), where the columns that are there are written over.
use misfits.Prelude.{
  ℕ, ◌≡◌, refl, sym, ◌∙◌, ap, true, false, ◌-◌, List, [], ◌∷◌, ◌++◌, map, Every, Every-zip,
  Every-self, some, get_elem?,
}
use Prim.Native.Nat.{bit_and}
use mathlib.Core.Path.{subst}
use mathlib.Core.List.{append_assoc, append-nil}
use misfits.Prelude.Text.{Text}
use misfits.Cfitsio.{Cfitsio}
use misfits.Cfitsio.Copying.{Names, SparesColumns}
use misfits.Exception.{throw_if, pure}
use misfits.Exception.Gives.{Gives, bind-Gives, pure-Gives, Gives-intro, Keeps-Gives}
use misfits.Exception.Keeps.{Keeps-throw_if}
use misfits.Store.{Store, ColumnInfo}
use misfits.Table.{has_column, colinfo_named}
use misfits.Table.Layout.{AllLaidOut}
use misfits.Table.Reading.{Sees-world, Sees-fptr}
use misfits.Table.Copy.{CopyPlan, no_plan, planned, plan_existing, plan_column, plan_columns}
use misfits.Table.Copy.Flags
use misfits.Table.Copy.Round.{colinfo_named_found, has_column_found}
use misfits.Table.Copy.Pair.{Pair, Ready, Spares-Ready, Linked}

pub Every-snoc :
    {A : Type 0} (P : A → Type 0) (xs : List A) (x : A)
    → Every P xs
    → P x
    → Every P (xs ++ (x ∷ []))
Every-snoc P [] x h p = (p, tt)
Every-snoc P (y ∷ xs) x h p = (h.0, Every-snoc P xs x h.1 p)

map-snoc :
    {A B : Type 0} (f : A → B) (xs : List A) (x : A)
    → map f (xs ++ (x ∷ [])) ≡ map f xs ++ (f x ∷ [])
map-snoc f [] x = refl
map-snoc f (y ∷ xs) x = ap (λ ys. f y ∷ ys) (map-snoc f xs x)

-- A plan that creates no column, for the columns with the names `done`, whose numbers are given by `from`
abbrev pub OnlyOver : (Text → ℕ) → List Text → CopyPlan → Type 0
OnlyOver from done plan =
    (plan.dest_ttype ≡ [])
    × (map (λ (ci : ColumnInfo). ci.ttype) plan.src_ci ≡ done)
    × Every (λ ci. ci.colnum ≡ from ci.ttype) plan.src_ci

planned-OnlyOver :
    (from : Text → ℕ) (done : List Text) (name : Text) (ci : ColumnInfo) (plan : CopyPlan)
    → OnlyOver from done plan
    → ci.ttype ≡ name
    → ci.colnum ≡ from name
    → OnlyOver from (done ++ (name ∷ [])) (planned ci plan)
planned-OnlyOver from done name ci plan (none, names, numbers) same number = (
  none,
  map-snoc (λ (ci : ColumnInfo). ci.ttype) plan.src_ci ci ∙ rw (names, same) refl,
  Every-snoc (λ ci. ci.colnum ≡ from ci.ttype) plan.src_ci ci numbers (number ∙ ap from (sym same)),
)

module _ {W C : Type 0} ⦃c : Cfitsio W⦄ (p : Pair W C) (columns : ℕ → List ColumnInfo) where
  -- The tables are linked and laid out, and the cached columns are those given.
  pub record Cached (s : Store W) : Type 0 where
    pub linked : Linked p s
    pub laid : AllLaidOut s
    pub same : s.columns ≡ columns

  -- The description under the number of the source's column that the name means has that name.
  abbrev pub IsSpelt : Text → Type 0
  IsSpelt name =
      (ci : ColumnInfo) → get_elem? (columns p.src) (p.from name - 1) ≡ some ci → ci.ttype ≡ name

  -- What the name means in both tables is known.
  abbrev Known : Text → Type 0
  Known name =
      (w : W) → Ready p w → Names c p.f name (p.from name) w × Names c p.g name (p.to name) w

  all-Known : Every Known p.names
  all-Known =
      Every-zip p.names (λ name a b w h. (a w h.from_named, b w h.to_named))
        (Every-self (λ name w. Names c p.f name (p.from name) w) p.names)
        (Every-self (λ name w. Names c p.g name (p.to name) w) p.names)

  module _ (law : SparesColumns c p.content p.f p.g) where
    found_Cached :
        (h : ℕ) (name : Text) (s : Store W)
        → Cached s
        → Cached (record s { world = (c.get_colnum h false name s.world).2 })
    found_Cached h name s cached =
        let w = (c.get_colnum h false name s.world).2 in
        let (a, b) = cached.linked in
        let keep = Spares-Ready p _ (law.finds h name) s.world in
        record {
          linked = (Sees-world w s a (keep a.holds), Sees-world w s b (keep b.holds));
          laid = record { at_table = cached.laid.at_table };
          same = cached.same;
        }

    found_in_source :
        (name : Text) (s : Store W)
        → Known name
        → Cached s
        → Gives (λ there s'. (there ≡ true) × Cached s') (has_column p.src name s)
    found_in_source name s known cached =
        let h = cached.linked.0 in
        rw
          (has_column_found p.src p.f (p.from name) name s (Sees-fptr s h)
            (h.holds.here ∙ sym h.in_hdu) (known s.world h.holds).0)
          (refl, found_Cached p.f name s cached)

    found_in_dest :
        (name : Text) (s : Store W)
        → Known name
        → Cached s
        → Gives (λ there s'. (there ≡ true) × Cached s') (has_column p.dest name s)
    found_in_dest name s known cached =
        let h = cached.linked.1 in
        rw
          (has_column_found p.dest p.g (p.to name) name s (Sees-fptr s h)
            (h.holds.there ∙ sym h.in_hdu) (known s.world h.holds).1)
          (refl, found_Cached p.g name s cached)

    described_in_source :
        (name : Text) (s : Store W)
        → Known name
        → IsSpelt name
        → Cached s
        → Gives
            (λ ci s'. ((ci.ttype ≡ name) × (ci.colnum ≡ p.from name)) × Cached s')
            (colinfo_named p.src name s)
    described_in_source name s known spelt cached =
        Gives-intro _ (colinfo_named p.src name) s λ ci e.
          let h = cached.linked.0 in
          let (number, elem, e') =
            colinfo_named_found p.src p.f (p.from name) name s {info = ci} cached.laid
              (Sees-fptr s h) (h.holds.here ∙ sym h.in_hdu) (known s.world h.holds).0 e in
          (
            (
              spelt ci (
                  subst (λ cols. get_elem? (cols p.src) (p.from name - 1) ≡ some ci) cached.same
                    elem),
              number,
            ),
            subst Cached (sym e') (found_Cached p.f name s cached),
          )

    plan_existing_over :
        (how : ℕ) (name : Text) (ci : ColumnInfo) (plan : CopyPlan)
        → bit_and how Flags.flag_mask ≡ Flags.over_write
        → plan_existing ⦃c = c⦄ p.dest how name ci plan ≡ pure (planned ci plan)
    unfolding plan_existing
    plan_existing_over how name ci plan over = rw over refl

    plan_column-OnlyOver :
        (how : ℕ) (name : Text) (done : List Text) (plan : CopyPlan) (s : Store W)
        → bit_and how Flags.flag_mask ≡ Flags.over_write
        → Known name
        → IsSpelt name
        → OnlyOver p.from done plan
        → Cached s
        → Gives
            (λ plan' s'. OnlyOver p.from (done ++ (name ∷ [])) plan' × Cached s')
            (plan_column p.src p.dest how name plan s)
    unfolding plan_column
    plan_column-OnlyOver how name done plan s over known spelt so_far cached =
        bind-Gives _ _ (has_column p.src name) _ s (found_in_source name s known cached)
          λ there s₁ (_, h₁).
            bind-Gives (λ _ u. Cached u) _ (throw_if _ _) _ s₁
              (Keeps-Gives _ s₁ (Keeps-throw_if _ _) h₁)
              λ _ s₂ h₂.
                bind-Gives _ _ (colinfo_named p.src name) _ s₂
                  (described_in_source name s₂ known spelt h₂)
                  λ ci s₃ ((same, number), h₃).
                    bind-Gives _ _ (has_column p.dest name) _ s₃ (found_in_dest name s₃ known h₃)
                      λ there' s₄ (is_there', h₄).
                        rw (is_there', plan_existing_over how name ci plan over)
                          (pure-Gives _ (planned ci plan) s₄
                            (planned-OnlyOver p.from done name ci plan so_far same number, h₄))

    plan_columns-OnlyOver :
        (how : ℕ) (todo done : List Text) (plan : CopyPlan) (s : Store W)
        → bit_and how Flags.flag_mask ≡ Flags.over_write
        → Every Known todo
        → Every IsSpelt todo
        → OnlyOver p.from done plan
        → Cached s
        → Gives
            (λ plan' s'. OnlyOver p.from (done ++ todo) plan' × Cached s')
            (plan_columns p.src p.dest how todo plan s)
    unfolding plan_columns
    plan_columns-OnlyOver how [] done plan s over known spelt so_far cached =
        pure-Gives _ plan s (rw (append-nil done) (so_far, cached))
    plan_columns-OnlyOver how (name ∷ todo) done plan s over known spelt so_far cached =
        bind-Gives _ _ (plan_column p.src p.dest how name plan) _ s
          (plan_column-OnlyOver how name done plan s over known.0 spelt.0 so_far cached)
          λ plan' s' (one_more, h').
            subst
              (λ all.
                Gives (λ plan'' s''. OnlyOver p.from all plan'' × Cached s'')
                  (plan_columns p.src p.dest how todo plan' s'))
              (append_assoc done (name ∷ []) todo)
              (plan_columns-OnlyOver how todo (done ++ (name ∷ [])) plan' s' over known.1 spelt.1
                one_more h')

    -- The plan for all the names, from the empty one
    pub planned_over :
        (how : ℕ) (s : Store W)
        → bit_and how Flags.flag_mask ≡ Flags.over_write
        → Every IsSpelt p.names
        → Cached s
        → Gives
            (λ plan s'. OnlyOver p.from p.names plan × Cached s')
            (plan_columns p.src p.dest how p.names no_plan s)
    planned_over how s over spelt cached =
        plan_columns-OnlyOver how p.names [] no_plan s over all-Known spelt (refl, refl, tt) cached
