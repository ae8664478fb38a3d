-- ===== src/Exception/Keeps.antt =====
-- Predicates on the state that an action does not break, also where it throws, with a rule for each way to
-- build an action. The rules are for `search`.
use mathlib.Core.Path.{subst, sym}
use misfits.Prelude.{◌≡◌, refl, Bool, true, false, Option, none, some, if◌then◌else◌}
use misfits.Exception.{
  Exception, Result, ok, throw, Action, after, pure, raise, gets, lift_result, or_throw, throw_if,
  modify, zoom, ◌>>=◌,
}

-- Where P holds before `m`, it holds after it.
pub record Keeps {S A : Type 0} (P : S → Type 0) (m : Action S A) : Type 0 where
  pub at : (s : S) → P s → P (m s).1

-- In sequence: the second action meets P whatever the first one gives.
module _ {S A B : Type 0} {P : S → Type 0} where
  after-Keeps :
      (f : A → Action S B) (outcome : Result A × S)
      → ((a : A) → Keeps P (f a))
      → P outcome.1
      → P (after f outcome).1
  after-Keeps f (ok a, s) rest h = (rest a).at s h
  after-Keeps f (throw e, s) rest h = h

  pub Keeps-bind :
      (first : Action S A) (f : A → Action S B)
      → Keeps P first
      → ((a : A) → Keeps P (f a))
      → Keeps P (first >>= f)
  unfolding ◌>>=◌
  Keeps-bind first f begin rest = record { at = λ s h. after-Keeps f (first s) rest (begin.at s h) }

module _ {S A : Type 0} {P : S → Type 0} where
  -- What leaves the state alone keeps everything.
  still-Keeps : (m : Action S A) → ((s : S) → (m s).1 ≡ s) → Keeps P m
  still-Keeps m still = record { at = λ s. subst P (sym (still s)) }

  pub Keeps-or_throw : (o : Option A) (e : Exception) → Keeps P (or_throw o e)
  unfolding or_throw
  Keeps-or_throw none e = still-Keeps (or_throw none e) (λ s. refl)
  Keeps-or_throw (some a) e = still-Keeps (or_throw (some a) e) (λ s. refl)

  pub Keeps-lift_result : (r : Result A) → Keeps P (lift_result r)
  unfolding lift_result
  Keeps-lift_result r = still-Keeps (lift_result r) (λ s. refl)

  pub Keeps-gets : (f : S → A) → Keeps P (gets f)
  unfolding gets
  Keeps-gets f = still-Keeps (gets f) (λ s. refl)

  pub Keeps-raise : (e : Exception) → Keeps P (raise {A = A} e)
  unfolding raise
  Keeps-raise e = still-Keeps (raise e) (λ s. refl)

  pub Keeps-pure : (a : A) → Keeps P (pure a)
  unfolding pure
  Keeps-pure a = still-Keeps (pure a) (λ s. refl)

  pub Keeps-if :
      (test : Bool) (m n : Action S A) → Keeps P m → Keeps P n → Keeps P (if test then m else n)
  Keeps-if true m n k l = k
  Keeps-if false m n k l = l

module _ {S : Type 0} {P : S → Type 0} where
  pub Keeps-throw_if : (b : Bool) (e : Exception) → Keeps P (throw_if b e)
  unfolding throw_if
  Keeps-throw_if b e = still-Keeps (throw_if b e) (λ s. refl)

  pub Keeps-modify : (f : S → S) → ((s : S) → P s → P (f s)) → Keeps P (modify f)
  unfolding modify
  Keeps-modify f keep = record { at = keep }

module _ {S A : Type 0} {P Q : S → Type 0} where
  pub Keeps-both : (m : Action S A) → Keeps P m → Keeps Q m → Keeps (λ s. P s × Q s) m
  Keeps-both m k l = record { at = λ s (p, q). (k.at s p, l.at s q) }

-- What an action on a part of the state keeps of the part
module _ {S T A : Type 0} {P : S → Type 0} where
  pub Keeps-zoom :
      (get : T → S) (put : S → T → T) (m : Action S A)
      → ((s : S) (t : T) → get (put s t) ≡ s)
      → Keeps P m
      → Keeps (λ t. P (get t)) (zoom get put m)
  unfolding zoom
  Keeps-zoom get put m got k = record {
    at = λ t h. let s = m (get t) in subst P (sym (got s.1 t)) (k.at (get t) h);
  }

pub ruleset keeps_rules = (
  Keeps-bind, Keeps-if, Keeps-throw_if, Keeps-gets, Keeps-pure, Keeps-raise, Keeps-lift_result,
  Keeps-or_throw,
)
