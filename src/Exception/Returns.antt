-- ===== src/Exception/Returns.antt =====
-- Actions that end without an exception, and what holds then.
use misfits.Prelude.{◌≡◌, Bool, true, false}
use misfits.Exception.{
  Exception, Result, ok, throw, Action, after, pure, gets, modify, throw_if, zoom, ◌>>=◌, ◌>>◌,
}

-- The action ends, and Q holds of its value and of the state that it leaves.
abbrev pub Returns : {A S : Type 0} → (A → S → Type 0) → Result A × S → Type 0
Returns Q (ok a, s) = Q a s
Returns Q (throw e, s) = true ≡ false

module _ {A B S : Type 0} (Q : A → S → Type 0) (R : B → S → Type 0) where
  after-Returns :
      (f : A → Action S B) (r : Result A) (s : S)
      → Returns Q (r, s)
      → ((a : A) (s' : S) → Q a s' → Returns R (f a s'))
      → Returns R (after f (r, s))
  after-Returns f (ok a) s q next = next a s q
  after-Returns f (throw e) s q next = q

  pub bind-Returns :
      (m : Action S A) (f : A → Action S B) (s : S)
      → Returns Q (m s)
      → ((a : A) (s' : S) → Q a s' → Returns R (f a s'))
      → Returns R ((m >>= f) s)
  unfolding ◌>>=◌
  bind-Returns m f s q next = let (r, s') = m s in after-Returns f r s' q next

module _ {A S : Type 0} where
  pub pure-Returns : (Q : A → S → Type 0) (a : A) (s : S) → Q a s → Returns Q (pure a s)
  unfolding pure
  pure-Returns Q a s q = q

  outcome-Returns :
      (Q R : A → S → Type 0) (r : Result A) (s : S)
      → ((a : A) (s : S) → Q a s → R a s)
      → Returns Q (r, s)
      → Returns R (r, s)
  outcome-Returns Q R (ok a) s f q = f a s q
  outcome-Returns Q R (throw e) s f q = q

  pub Returns-weaken :
      (Q R : A → S → Type 0) (m : Action S A) (s : S)
      → ((a : A) (s : S) → Q a s → R a s)
      → Returns Q (m s)
      → Returns R (m s)
  Returns-weaken Q R m s f q = let (r, s') = m s in outcome-Returns Q R r s' f q

  -- An action that begins by asking for a part of the state
  pub gets-Returns :
      {B : Type 0} (Q : A → S → Type 0) (g : S → B) (next : B → Action S A) (s : S)
      → Returns Q (next (g s) s)
      → Returns Q ((gets g >>= next) s)
  unfolding gets ◌>>=◌
  gets-Returns Q g next s q = q

  pub modify-Returns :
      (Q : A → S → Type 0) (g : S → S) (next : Action S A) (s : S)
      → Returns Q (next (g s))
      → Returns Q ((modify g >> next) s)
  unfolding modify ◌>>=◌
  modify-Returns Q g next s q = q

module _ {A S T : Type 0} (Q : A → S → Type 0) (R : A → T → Type 0) where
  Returns-put :
      (put : S → T → T) (t : T) (r : Result A) (s : S)
      → ((a : A) (s : S) → Q a s → R a (put s t))
      → Returns Q (r, s)
      → Returns R (r, put s t)
  Returns-put put t (ok a) s next q = next a s q
  Returns-put put t (throw e) s next q = q

  pub zoom-Returns :
      (get : T → S) (put : S → T → T) (m : Action S A) (t : T)
      → ((a : A) (s : S) → Q a s → R a (put s t))
      → Returns Q (m (get t))
      → Returns R (zoom get put m t)
  unfolding zoom
  zoom-Returns get put m t next q = let (r, s) = m (get t) in Returns-put put t r s next q

module _ {S : Type 0} where
  pub throw_if-Returns :
      (Q : Unit {0} → S → Type 0) (b : Bool) (e : Exception) (s : S)
      → b ≡ false
      → Q tt s
      → Returns Q (throw_if b e s)
  unfolding throw_if
  throw_if-Returns Q b e s passes q = rw passes q
