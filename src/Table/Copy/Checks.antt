-- ===== src/Table/Copy/Checks.antt =====
-- What Table::copy_columns plans and checks (misfits/table.cc).
use misfits.Prelude.{
  Bool, ℕ, suc, ◌+◌, ◌≤◌, ◌≡◌, List, [], ◌∷◌, arith, length, length-append, true, false,
  if◌then◌else◌,
}
use Prim.Native.Nat.{bit_and}
use mathlib.Core.Path.{subst}
use native.Mathlib.Nat.{zero-add}
use misfits.ColumnInfo.{tform}
use misfits.Prelude.Text.{Text}
use misfits.Cfitsio.{Cfitsio}
use misfits.Exception.{Result, ok, throw, Action, pure, lift_result, ◌>>=◌}
use misfits.Store.{Store, ColumnInfo}
use misfits.Table.Copy.{
  CopyPlan, no_plan, planned, planned_new, plan_existing, plan_column, plan_columns,
}
use misfits.Table.Copy.Flags

-- A plan for `count` columns: each has its description, and the types and formats of the new ones go in pairs.
-- Where no duplicates are allowed, all are new.
abbrev pub IsPlan : ℕ → ℕ → CopyPlan → Type 0
IsPlan how count plan =
    (length plan.src_ci ≡ count)
    × (length plan.dest_ttype ≡ length plan.dest_tform)
    × (length plan.dest_ttype ≤ count)
    × (bit_and how Flags.flag_mask ≡ Flags.no_duplicates → length plan.dest_ttype ≡ count)

planned_new-IsPlan :
    (how count : ℕ) (ci : ColumnInfo) (plan : CopyPlan)
    → IsPlan how count plan
    → IsPlan how (suc count) (planned_new ci plan)
planned_new-IsPlan how count ci plan h = omega (
  arith,
  length-append plan.src_ci (ci ∷ []),
  length-append plan.dest_ttype (ci.ttype ∷ []),
  length-append plan.dest_tform (tform ci ∷ []),
)

planned-IsPlan :
    (how count : ℕ) (ci : ColumnInfo) (plan : CopyPlan)
    → (bit_and how Flags.flag_mask ≡ Flags.over_write)
    → IsPlan how count plan
    → IsPlan how (suc count) (planned ci plan)
planned-IsPlan how count ci plan e h = omega (arith, length-append plan.src_ci (ci ∷ []))

-- What holds of the plan of an action that ends.
abbrev Plans : {W : Type 0} → ℕ → ℕ → Result CopyPlan × Store W → Type 0
Plans how count (ok plan, s) = IsPlan how count plan
Plans how count (throw e, s) = Unit {0}

of_Plans :
    {W : Type 0} (how count : ℕ) (rs : Result CopyPlan × Store W) {plan : CopyPlan}
    → rs.0 ≡ ok plan
    → Plans how count rs
    → IsPlan how count plan
of_Plans how count (ok p, s) {plan} e h = let same : p ≡ plan = cc in rw (← same) h
of_Plans how count (throw x, s) e h = cc

module _ {W A : Type 0} where
  Plans-after :
      (how count : ℕ) (r : Result A) (f : A → Action (Store W) CopyPlan) (s : Store W)
      → ((a : A) (u : Store W) → Plans how count (f a u))
      → Plans how count ((lift_result r >>= f) s)
  unfolding ◌>>=◌
  Plans-after how count (ok a) f s k = k a s
  Plans-after how count (throw e) f s k = tt

  Plans-bind :
      (how count : ℕ) (m : Action (Store W) A) (f : A → Action (Store W) CopyPlan) (s : Store W)
      → ((a : A) (u : Store W) → Plans how count (f a u))
      → Plans how count ((m >>= f) s)
  unfolding ◌>>=◌
  Plans-bind how count m f s k = let (r, s') = m s in Plans-after how count r f s' k

module _ {W : Type 0} ⦃c : Cfitsio W⦄ where
  plan_existing-Plans :
      (dest how count : ℕ) (name : Text) (ci : ColumnInfo) (plan : CopyPlan) (s : Store W)
      → IsPlan how count plan
      → Plans how (suc count) (plan_existing dest how name ci plan s)
  unfolding plan_existing ◌>>=◌
  plan_existing-Plans dest how count name ci plan s h =
      ground (arith, planned_new-IsPlan how count ci plan h, planned-IsPlan how count ci plan)

  plan_there :
      (src dest how count : ℕ) (name : Text) (there : Bool) (ci : ColumnInfo) (plan : CopyPlan)
      (s : Store W)
      → IsPlan how count plan
      → Plans how
          (suc count)
          ((if there then plan_existing dest how name ci plan else pure (planned_new ci plan)) s)
  unfolding pure
  plan_there src dest how count name true ci plan s h =
      plan_existing-Plans dest how count name ci plan s h
  plan_there src dest how count name false ci plan s h = planned_new-IsPlan how count ci plan h

  plan_column-Plans :
      (src dest how count : ℕ) (name : Text) (plan : CopyPlan) (s : Store W)
      → IsPlan how count plan
      → Plans how (suc count) (plan_column src dest how name plan s)
  unfolding plan_column
  plan_column-Plans src dest how count name plan s h = Plans-bind how (suc count) _ _ s λ found s₁.
      Plans-bind how (suc count) _ _ s₁ λ _ s₂. Plans-bind how (suc count) _ _ s₂ λ ci s₃.
        Plans-bind how (suc count) _ _ s₃
          λ there s₄. plan_there src dest how count name there ci plan s₄ h

  plan_rest :
      (src dest how count : ℕ) (names : List Text) (r : Result CopyPlan) (s : Store W)
      → Plans how count (r, s)
      → ((plan : CopyPlan) (u : Store W)
          → IsPlan how count plan
          → Plans how (count + length names) (plan_columns src dest how names plan u))
      → Plans how (count + length names) ((lift_result r >>= plan_columns src dest how names) s)
  unfolding ◌>>=◌
  plan_rest src dest how count names (ok plan) s h k = k plan s h
  plan_rest src dest how count names (throw e) s h k = tt

  plan_columns-Plans :
      (src dest how count : ℕ) (names : List Text) (plan : CopyPlan) (s : Store W)
      → IsPlan how count plan
      → Plans how (count + length names) (plan_columns src dest how names plan s)
  unfolding plan_columns ◌>>=◌
  plan_columns-Plans src dest how count [] plan s h = omega arith
  plan_columns-Plans src dest how count (name ∷ names) plan s h =
      let (r, s') = plan_column src dest how name plan s in
      let total : suc count + length names ≡ count + suc (length names) = omega arith in
      subst (λ n. Plans how n (plan_columns src dest how (name ∷ names) plan s)) total
        (plan_rest src dest how (suc count) names r s'
          (plan_column-Plans src dest how count name plan s h)
          (plan_columns-Plans src dest how (suc count) names))

  -- When the first loop of `copy_columns` ends, it has one description for each name; the types and the formats of the
  -- columns to be created, which fits_insert_cols reads by one count, are equally many and no more than
  -- the names; and where duplicates are refused, every column is to be created.
  pub plan_columns_lem :
      (src dest how : ℕ) (names : List Text) (s : Store W) {plan : CopyPlan}
      → (plan_columns src dest how names no_plan s).0 ≡ ok plan
      → IsPlan how (length names) plan
  plan_columns_lem src dest how names s {plan} h =
      let start : IsPlan how 0 no_plan = omega arith in
      let found = plan_columns-Plans src dest how 0 names no_plan s start in
      of_Plans how (length names) (plan_columns src dest how names no_plan s) h (
        subst (λ n. Plans how n (plan_columns src dest how names no_plan s))
          (zero-add (length names)) found)
