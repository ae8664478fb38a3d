-- ===== src/Table/Copy/Names.antt =====
-- The loop that lists the names of all columns (Table::copy_columns( dest, how ) in misfits/table.cc).
use misfits.Prelude.{
  ℕ, zero, suc, ◌+◌, ◌≤◌, ◌<◌, ◌≡◌, ◌≢◌, refl, ap, List, [], ◌∷◌, ◌++◌, arith, length, get_elem?,
  ltb, Bool-cases, inl, inr, some, Option-cases, if◌then◌else◌,
}
use misfits.Prelude.Text.{Text}
use misfits.Cfitsio.{Cfitsio}
use misfits.Exception.{Result, ok, throw, undefined, Action, after, pure, ◌>>=◌}
use misfits.Exception.Ends.{Ends}
use misfits.Store.{Store, ColumnInfo, check}
use misfits.File.{move_to}
use misfits.Hdu.{set_as_chdu}
use misfits.Table.{num_columns, colinfo}
use misfits.Table.Copy.{all_names}
use misfits.Table.Layout.Frame.{num_columns-SameColumns}

get_elem?_below :
    (cs : List ColumnInfo) (i : ℕ) (ci : ColumnInfo) → get_elem? cs i ≡ some ci → i < length cs
get_elem?_below [] i ci h = cc
get_elem?_below (d ∷ cs) zero ci h = omega arith
get_elem?_below (d ∷ cs) (suc i) ci h = omega (arith, get_elem?_below cs i ci h)

module _ {W : Type 0} ⦃c : Cfitsio W⦄ where
  num_columns-Ends : (t : ℕ) (s : Store W) → Ends (λ _. Unit) (num_columns t s)
  unfolding num_columns set_as_chdu move_to check ◌>>=◌
  num_columns-Ends t s = ground arith

  defined_failure :
      {A : Type 0} (outcome : Result A × Store W)
      → Ends (λ _. Unit) outcome
      → outcome.0 ≢ throw undefined
  defined_failure (ok a, s) h e = cc
  defined_failure (throw x, s) h e = ground arith

  -- `colinfo` throws std::out_of_range, or there is a column with the number.
  colinfo_then :
      (src idx : ℕ) (next : ColumnInfo → Action (Store W) (List Text)) (s : Store W)
      → ((ci : ColumnInfo) → idx ≤ length (s.columns src) → (next ci s).0 ≢ throw undefined)
      → ((colinfo src idx >>= next) s).0 ≢ throw undefined
  unfolding colinfo ◌>>=◌
  colinfo_then src zero next s rest = λ e. ground arith
  colinfo_then src (suc i) next s rest = elim (Option-cases (get_elem? (s.columns src) i)) [
    | inl e ↦ rw e (λ q. ground arith)
    | inr (ci, e) ↦ rw e (rest ci (omega (arith, get_elem?_below (s.columns src) i ci e)))
  ]

  after_count :
      (src idx : ℕ) (names : List Text) (next : ColumnInfo → Action (Store W) (List Text))
      (counted : Result ℕ) (s : Store W)
      → counted ≢ throw undefined
      → ((ci : ColumnInfo) → idx ≤ length (s.columns src) → (next ci s).0 ≢ throw undefined)
      → (after (λ n. if ltb n idx then pure names else (colinfo src idx >>= next)) (counted, s)).0
        ≢ throw undefined
  unfolding pure
  after_count src idx names next (throw x) s h rest = λ e. h (ground arith)
  after_count src idx names next (ok n) s h rest = elim (Bool-cases (ltb n idx)) [
    | inl past ↦ rw past (λ e. ground arith)
    | inr more ↦ rw more (colinfo_then src idx next s rest)
  ]

  all_names_from :
      (fuel src idx : ℕ) (names : List Text) (s : Store W)
      → idx ≤ length (s.columns src) + 1
      → length (s.columns src) + 2 ≤ idx + fuel
      → (all_names fuel src idx names s).0 ≢ throw undefined
  unfolding all_names ◌>>=◌
  all_names_from zero src idx names s low high = absurd (omega arith)
  all_names_from (suc fuel) src idx names s low high =
      let (r, s') = num_columns src s in
      let same : s'.columns ≡ s.columns = (num_columns-SameColumns src).at s refl in
      let count : length (s'.columns src) ≡ length (s.columns src) =
        ap (λ cols. length (cols src)) same in
      after_count src idx names (λ ci. all_names fuel src (idx + 1) (names ++ (ci.ttype ∷ []))) r s'
        (defined_failure (r, s') (num_columns-Ends src s))
        (λ ci there.
          all_names_from fuel src (idx + 1) (names ++ (ci.ttype ∷ [])) s' (omega (arith, there))
            (omega (arith, count, high)))

  -- The loop that lists the names of all columns of a table needs no more rounds than the table has cached columns, and
  -- one: it ends, or it throws an exception of the program, whatever numbers of columns CFITSIO reports meanwhile.
  pub all_names_enough :
      (src : ℕ) (s : Store W)
      → (all_names (length (s.columns src) + 1) src 1 [] s).0 ≢ throw undefined
  all_names_enough src s =
      all_names_from (length (s.columns src) + 1) src 1 [] s (omega arith) (omega arith)
