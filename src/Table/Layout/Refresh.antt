-- ===== src/Table/Layout/Refresh.antt =====
-- `refresh` lays the columns out, also where it stops half way.
use misfits.Prelude.{
  ℕ, zero, suc, ◌+◌, ◌≡◌, refl, ap, List, [], ◌∷◌, ◌++◌, arith, length, length-append, ◌==◌, true,
  Bool-cases, inl, inr,
}
use misfits.Prelude.Int.{ℤ, pos, ◌+ℤ◌}
use misfits.Cfitsio.{⊤, Cfitsio}
use mathlib.Core.Path.{subst, sym, ◌∙◌}
use misfits.Exception.{lift_result, ◌>>◌, Result, ok, throw, gets, modify, ◌>>=◌}
use misfits.Store.{Store, ColumnInfo, set_columns}
use misfits.ColumnInfo.{init}
use misfits.Table.{push_columns}
use misfits.Table.Layout.Frame.{init-SameColumns}
use misfits.Table.Layout.{IsLaidOut, AllLaidOut, end_offset, IsLaidOut-snoc, end_offset-snoc}

module _ {W : Type 0} ⦃c : Cfitsio W⦄ where
  -- The offset and the number of a description are those that it was asked for with.
  init_result :
      (f : ℕ) (o : ℤ) (n : ℕ) (s : Store W) {ci : ColumnInfo}
      → (init f o n s).0 ≡ ok ci
      → (ci.colnum ≡ n) × (ci.offset ≡ o)
  unfolding init ◌>>=◌
  init_result f o n s h = ground arith

pub update-AllLaidOut :
    {W : Type 0} (t : ℕ) (cs : List ColumnInfo) (s : Store W)
    → AllLaidOut s
    → IsLaidOut 1 (pos 1) cs
    → AllLaidOut (set_columns t cs s)
update-AllLaidOut t cs s h k = record {
  at_table = λ u. elim (Bool-cases (t == u)) [ inl e ↦ rw e k | inr e ↦ rw e (h.at_table u) ];
}

pub same-AllLaidOut :
    {W : Type 0} (s s' : Store W) → s'.columns ≡ s.columns → AllLaidOut s → AllLaidOut s'
same-AllLaidOut s s' e h = record {
  at_table = λ t. subst (λ cols. IsLaidOut 1 (pos 1) (cols t)) (sym e) (h.at_table t);
}

-- All columns are laid out, and table t has `total` of them if the run ended.
abbrev pub Pushed : {W : Type 0} → ℕ → ℕ → Result ⊤ × Store W → Type 0
Pushed total t (r, s) = AllLaidOut s × (r ≡ ok tt → length (s.columns t) ≡ total)

-- The columns of table t end before the number `colnum` and the byte `offset`.
pub record EndsAt {W : Type 0} (t colnum : ℕ) (offset : ℤ) (s : Store W) : Type 0 where
  pub laid : AllLaidOut s
  pub number : colnum ≡ 1 + length (s.columns t)
  pub byte : offset ≡ end_offset (pos 1) (s.columns t)

module _ {W : Type 0} ⦃c : Cfitsio W⦄ where
  pushed-EndsAt :
      (t colnum : ℕ) (offset : ℤ) (ci : ColumnInfo) (s : Store W)
      → EndsAt t colnum offset s
      → (ci.colnum ≡ colnum) × (ci.offset ≡ offset)
      → EndsAt t (colnum + 1) (offset +ℤ ci.nbytes) (set_columns t (s.columns t ++ (ci ∷ [])) s)
  pushed-EndsAt t colnum offset ci s h k =
      let cs = s.columns t ++ (ci ∷ []) in
      let self : (t == t) ≡ true = ground arith in
      record {
        laid = update-AllLaidOut t cs s h.laid (
            IsLaidOut-snoc 1 (pos 1) (s.columns t) ci (h.laid.at_table t) (k.0 ∙ h.number)
              (k.1 ∙ h.byte));
        number = rw self (omega (arith, h.number, length-append (s.columns t) (ci ∷ [])));
        byte =
            rw self
              (ap (λ o. o +ℤ ci.nbytes) h.byte ∙ sym (end_offset-snoc (pos 1) (s.columns t) ci));
      }

  push_step :
      (left t colnum : ℕ) (offset : ℤ) (r : Result ColumnInfo) (s : Store W)
      → EndsAt t colnum offset s
      → ((ci : ColumnInfo) → r ≡ ok ci → (ci.colnum ≡ colnum) × (ci.offset ≡ offset))
      → ((n : ℕ) (o : ℤ) (u : Store W)
          → EndsAt t n o u
          → Pushed (length (u.columns t) + left) t (push_columns left t n o u))
      → Pushed (length (s.columns t) + suc left) t (
          (lift_result r >>= λ ci. do
            columns ← gets (λ s. s.columns t)
            modify (set_columns t (columns ++ (ci ∷ [])))
            push_columns left t (colnum + 1) (offset +ℤ ci.nbytes))
            s)
  unfolding ◌>>=◌
  push_step left t colnum offset (throw e) s h k next = (h.laid, λ q. cc)
  push_step left t colnum offset (ok ci) s h k next =
      let u = set_columns t (s.columns t ++ (ci ∷ [])) s in
      let self : (t == t) ≡ true = ground arith in
      let grown : length (u.columns t) ≡ length (s.columns t) + 1 =
        rw self (length-append (s.columns t) (ci ∷ [])) in
      let (laid, count) =
        next (colnum + 1) (offset +ℤ ci.nbytes) u
          (pushed-EndsAt t colnum offset ci s h (k ci refl)) in
      (laid, λ q. omega (arith, count q, grown))

  pub push_columns-Pushed :
      (left t colnum : ℕ) (offset : ℤ) (s : Store W)
      → EndsAt t colnum offset s
      → Pushed (length (s.columns t) + left) t (push_columns left t colnum offset s)
  unfolding push_columns ◌>>=◌
  push_columns-Pushed zero t colnum offset s h = (h.laid, λ _. omega arith)
  push_columns-Pushed (suc left) t colnum offset s h =
      let file = (s.hdus t).file in
      let (r, s') = init file offset colnum s in
      let e : s'.columns ≡ s.columns = (init-SameColumns file offset colnum).at s refl in
      let h' : EndsAt t colnum offset s' = record {
        laid = same-AllLaidOut s s' e h.laid;
        number = rw e h.number;
        byte = rw e h.byte;
      } in
      let step =
        push_step left t colnum offset r s' h' (λ ci q. init_result file offset colnum s q)
          (push_columns-Pushed left t) in
      subst
        (λ cols. Pushed (length (cols t) + suc left) t (push_columns (suc left) t colnum offset s))
        e step
