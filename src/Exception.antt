-- ===== src/Exception.antt =====
-- misfits/exception.hpp: what the program throws. A method gives back a result and, whether or not it
-- threw, the state that it leaves behind.
pub mod Keeps
pub mod Ends
pub mod Gives
pub mod Returns
pub mod Message
use mathlib.Core.Path.{fun_ext}
use misfits.Prelude.{◌≡◌, refl, ◌⊎◌, inl, inr, ℕ, Bool, Option, none, some, if◌then◌else◌}
use misfits.Prelude.Text.{Text}

-- Exception::Assert carries its message and Exception::CFITSIO the status; std::out_of_range is thrown by
-- `at` of std::vector. `undefined` is no exception: it stands for a run that leaves the defined behaviour
-- of the language, such as a write behind the end of a buffer.
pub data Exception : Type 0 where
  assert : Text → Exception
  cfitsio : ℕ → Exception
  out_of_range : Exception
  undefined : Exception

pub data Result {ℓ} (A : Type ℓ) : Type ℓ where
  ok : A → Result A
  throw : Exception → Result A

abbrev pub Action : Type 0 → Type 0 → Type 0
Action S A = S → Result A × S

module _ {S A : Type 0} where
  unfoldable pub pure : A → Action S A
  pure a s = (ok a, s)

  unfoldable pub raise : Exception → Action S A
  raise e s = (throw e, s)

  unfoldable pub gets : (S → A) → Action S A
  gets f s = (ok (f s), s)

  -- A result of a computation that has no state
  unfoldable pub lift_result : Result A → Action S A
  lift_result r s = (r, s)

  unfoldable pub or_throw : Option A → Exception → Action S A
  or_throw none e s = (throw e, s)
  or_throw (some a) e s = (ok a, s)

  -- An action on a part of the state
  unfoldable pub zoom : {T : Type 0} → (S → T) → (T → S → S) → Action T A → Action S A
  zoom get put m s = let (r, t) = m (get s) in (r, put t s)

module _ {S : Type 0} where
  unfoldable pub modify : (S → S) → Action S Unit
  modify f s = (ok tt, f s)

  unfoldable pub throw_if : Bool → Exception → Action S Unit
  throw_if b e s = (if b then throw e else ok tt, s)

module _ {S A B : Type 0} where
  abbrev pub after : (A → Action S B) → Result A × S → Result B × S
  after f (ok a, s) = f a s
  after f (throw e, s) = (throw e, s)

  -- Opening this opens the actions above too.
  infixl 5 ◌>>=◌ ◌>>◌
  unfoldable pub ◌>>=◌ : Action S A → (A → Action S B) → Action S B
  unfolding pure raise gets lift_result or_throw zoom modify throw_if
  ◌>>=◌ m f s = after f (m s)

  abbrev pub ◌>>◌ : Action S A → Action S B → Action S B
  m >> k = m >>= λ _. k

abbrev pub bind_result : {A B : Type 0} → Result A → (A → Result B) → Result B
bind_result (ok a) f = f a
bind_result (throw e) f = throw e

pub bind_result_assoc :
    {A B C : Type 0} (r : Result A) (f : A → Result B) (g : B → Result C)
    → bind_result (bind_result r f) g ≡ bind_result r (λ a. bind_result (f a) g)
bind_result_assoc (ok a) f g = refl
bind_result_assoc (throw e) f g = refl

module _ {S A B C : Type 0} where
  after_assoc :
      (f : A → Action S B) (g : B → Action S C) (r : Result A) (s : S)
      → after g (after f (r, s)) ≡ after (λ a. f a >>= g) (r, s)
  unfolding ◌>>=◌
  after_assoc f g (ok a) s = refl
  after_assoc f g (throw e) s = refl

  pub bind_assoc :
      (m : Action S A) (f : A → Action S B) (g : B → Action S C)
      → ((m >>= f) >>= g) ≡ (m >>= λ a. f a >>= g)
  unfolding ◌>>=◌
  bind_assoc m f g = fun_ext λ s. let (r, s') = m s in after_assoc f g r s'

module _ {S A B : Type 0} where
  pub pure-bind : (a : A) (f : A → Action S B) → (pure a >>= f) ≡ f a
  unfolding ◌>>=◌
  pure-bind a f = refl

module _ {S : Type 0} where
  after-pure_unit : (r : Result Unit) (s : S) → after (λ _. pure tt) (r, s) ≡ (r, s)
  unfolding pure
  after-pure_unit (ok tt) s = refl
  after-pure_unit (throw e) s = refl

  pub bind-pure_unit : (m : Action S Unit) → (m >> pure tt) ≡ m
  unfolding ◌>>=◌
  bind-pure_unit m = fun_ext λ s. let (r, s') = m s in after-pure_unit r s'

pub Result-cases :
    {A : Type 0} (r : Result A) → ((a : A) × (r ≡ ok a)) ⊎ ((e : Exception) × (r ≡ throw e))
Result-cases (ok a) = inl (a, refl)
Result-cases (throw e) = inr (e, refl)
