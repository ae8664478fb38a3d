-- ===== src/Exception/Ends.antt =====
-- How an action ends: with a value that has some property, or with a failure that CFITSIO reported.
use misfits.Prelude.{◌≡◌, Bool, true, false, not, ◌==◌}
use misfits.Exception.{Exception, cfitsio, Result, ok, throw, Action, after, zoom, ◌>>=◌}

-- A failure of CFITSIO, with the status that it reported
abbrev pub is_failure : Exception → Bool
is_failure (cfitsio status) = not (status == 0)
is_failure e = false

abbrev pub Ends : {A S : Type 0} → (A → Type 0) → Result A × S → Type 0
Ends Q (ok a, s) = Q a
Ends Q (throw e, s) = is_failure e ≡ true

module _ {A B S : Type 0} (Q : A → Type 0) (R : B → Type 0) where
  after-Ends :
      (f : A → Action S B) (r : Result A) (s : S)
      → Ends Q (r, s)
      → ((a : A) (s' : S) → Q a → Ends R (f a s'))
      → Ends R (after f (r, s))
  after-Ends f (ok a) s q next = next a s q
  after-Ends f (throw e) s q next = q

  -- In sequence, what the first action gives is what the second may rely on.
  pub bind-Ends :
      (m : Action S A) (f : A → Action S B) (s : S)
      → Ends Q (m s)
      → ((a : A) (s' : S) → Q a → Ends R (f a s'))
      → Ends R ((m >>= f) s)
  unfolding ◌>>=◌
  bind-Ends m f s q next = let (r, s') = m s in after-Ends f r s' q next

module _ {A S T : Type 0} (Q : A → Type 0) where
  Ends-anywhere : (r : Result A) (s : S) (t : T) → Ends Q (r, s) → Ends Q (r, t)
  Ends-anywhere (ok a) s t q = q
  Ends-anywhere (throw e) s t q = q

  pub zoom-Ends :
      (get : T → S) (put : S → T → T) (m : Action S A) (t : T)
      → Ends Q (m (get t))
      → Ends Q (zoom get put m t)
  unfolding zoom
  zoom-Ends get put m t q = let (r, s) = m (get t) in Ends-anywhere r s (put s t) q
