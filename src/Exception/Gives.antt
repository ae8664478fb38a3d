-- ===== src/Exception/Gives.antt =====
-- What holds of the value of an action and of the state that it leaves, if it does not throw.
use mathlib.Core.Path.{subst}
use misfits.Prelude.{◌≡◌, refl}
use misfits.Exception.Keeps.{Keeps}
use misfits.Exception.{Result, ok, throw, Action, after, pure, gets, modify, zoom, ◌>>=◌, ◌>>◌}

abbrev pub Gives : {A S : Type 0} → (A → S → Type 0) → Result A × S → Type 0
Gives Q (ok a, s) = Q a s
Gives Q (throw e, s) = Unit

module _ {A B S : Type 0} (Q : A → S → Type 0) (R : B → S → Type 0) where
  after-Gives :
      (f : A → Action S B) (r : Result A) (s : S)
      → Gives Q (r, s)
      → ((a : A) (s' : S) → Q a s' → Gives R (f a s'))
      → Gives R (after f (r, s))
  after-Gives f (ok a) s q next = next a s q
  after-Gives f (throw e) s q next = tt

  pub bind-Gives :
      (m : Action S A) (f : A → Action S B) (s : S)
      → Gives Q (m s)
      → ((a : A) (s' : S) → Q a s' → Gives R (f a s'))
      → Gives R ((m >>= f) s)
  unfolding ◌>>=◌
  bind-Gives m f s q next = let (r, s') = m s in after-Gives f r s' q next

module _ {A S T : Type 0} (Q : A → S → Type 0) (R : A → T → Type 0) where
  Gives-put :
      (put : S → T → T) (t : T) (r : Result A) (s : S)
      → ((a : A) (s : S) → Q a s → R a (put s t))
      → Gives Q (r, s)
      → Gives R (r, put s t)
  Gives-put put t (ok a) s next q = next a s q
  Gives-put put t (throw e) s next q = tt

  pub zoom-Gives :
      (get : T → S) (put : S → T → T) (m : Action S A) (t : T)
      → ((a : A) (s : S) → Q a s → R a (put s t))
      → Gives Q (m (get t))
      → Gives R (zoom get put m t)
  unfolding zoom
  zoom-Gives get put m t next q = let (r, s) = m (get t) in Gives-put put t r s next q

module _ {A S : Type 0} where
  outcome-Gives :
      (Q : A → S → Type 0) (r : Result A) (s : S) → ((a : A) → r ≡ ok a → Q a s) → Gives Q (r, s)
  outcome-Gives Q (ok a) s q = q a refl
  outcome-Gives Q (throw e) s q = tt

  -- What holds of each value that the action may give
  pub Gives-intro :
      (Q : A → S → Type 0) (m : Action S A) (s : S)
      → ((a : A) → (m s).0 ≡ ok a → Q a (m s).1)
      → Gives Q (m s)
  Gives-intro Q m s q = let (r, s') = m s in outcome-Gives Q r s' q

  pub outcome-ok :
      (Q : A → S → Type 0) (r : Result A) (s : S) {a : A} → Gives Q (r, s) → r ≡ ok a → Q a s
  outcome-ok Q (ok b) s {a} q e = let same : b ≡ a = cc in subst (λ x. Q x s) same q
  outcome-ok Q (throw x) s q e = cc

  -- What an action that keeps P gives
  pub Keeps-Gives :
      {P : S → Type 0} (m : Action S A) (s : S) → Keeps P m → P s → Gives (λ _ s'. P s') (m s)
  Keeps-Gives m s keep h = Gives-intro (λ _ s'. _) m s (λ a e. keep.at s h)

  pub pure-Gives : (Q : A → S → Type 0) (a : A) (s : S) → Q a s → Gives Q (pure a s)
  unfolding pure
  pure-Gives Q a s q = q

  -- An action that begins by asking for a part of the state, or by setting it
  pub gets-Gives :
      {B : Type 0} (Q : A → S → Type 0) (g : S → B) (next : B → Action S A) (s : S)
      → Gives Q (next (g s) s)
      → Gives Q ((gets g >>= next) s)
  unfolding gets ◌>>=◌
  gets-Gives Q g next s q = q

  pub modify-Gives :
      (Q : A → S → Type 0) (g : S → S) (next : Action S A) (s : S)
      → Gives Q (next (g s))
      → Gives Q ((modify g >> next) s)
  unfolding modify ◌>>=◌
  modify-Gives Q g next s q = q

module _ {A S : Type 0} (Q R : A → S → Type 0) where
  outcome-weaken :
      (r : Result A) (s : S) → ((a : A) (s : S) → Q a s → R a s) → Gives Q (r, s) → Gives R (r, s)
  outcome-weaken (ok a) s f q = f a s q
  outcome-weaken (throw e) s f q = tt

  pub Gives-weaken :
      (m : Action S A) (s : S) → ((a : A) (s : S) → Q a s → R a s) → Gives Q (m s) → Gives R (m s)
  Gives-weaken m s f q = let (r, s') = m s in outcome-weaken r s' f q

module _ {A B D S : Type 0} (Q : D → S → Type 0) where
  after_assoc :
      (n : A → Action S B) (k : B → Action S D) (r : Result A) (s : S)
      → Gives Q (after k (after n (r, s)))
      → Gives Q (after (λ a. n a >>= k) (r, s))
  unfolding ◌>>=◌
  after_assoc n k (ok a) s q = q
  after_assoc n k (throw e) s q = q

  -- Three actions in a row, of which the first two are taken together
  pub assoc-Gives :
      (m : Action S A) (n : A → Action S B) (k : B → Action S D) (s : S)
      → Gives Q (((m >>= n) >>= k) s)
      → Gives Q ((m >>= λ a. n a >>= k) s)
  unfolding ◌>>=◌
  assoc-Gives m n k s q = let (r, s') = m s in after_assoc n k r s' q
