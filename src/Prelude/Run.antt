-- ===== src/Prelude/Run.antt =====
-- Go functions that change a state and return a value and an error: a run over a world `W`.
use mathlib.Core.Path.{◌≡◌, refl}
use mathlib.Core.List.{List, [], ◌∷◌}

-- The value and the error of a Go function.
pub data Outcome (E A : Type 0) : Type 0 where
  returned : A → Outcome E A
  failed : E → Outcome E A

abbrev pub Run : Type 0 → Type 0 → Type 0 → Type 0
Run W E A = W → Outcome E A × W

module _ {W E A B : Type 0} where
  unfoldable pub then_do : Outcome E A × W → (A → Run W E B) → Outcome E B × W
  then_do (returned a, w) f = f a w
  then_do (failed e, w) f = (failed e, w)

  infixl 5 ◌>>=◌
  unfoldable pub ◌>>=◌ : Run W E A → (A → Run W E B) → Run W E B
  unfolding then_do
  (m >>= f) w = then_do (m w) f

  pub bind-returned :
      (m : Run W E A) (k : A → Run W E B) (w : W) (a : A)
      → (m w).0 ≡ returned a
      → (m >>= k) w ≡ k a (m w).1
  unfolding ◌>>=◌ then_do
  bind-returned m k w a h = (rw h)

  pub bind-ended :
      (m : Run W E A) (k : A → Run W E B) (w v : W) (a : A)
      → m w ≡ (returned a, v)
      → (m >>= k) w ≡ k a v
  unfolding ◌>>=◌ then_do
  bind-ended m k w v a h = (rw h)

  pub bind-failed :
      (m : Run W E A) (k : A → Run W E B) (w : W) (e : E)
      → (m w).0 ≡ failed e
      → (m >>= k) w ≡ (failed e, (m w).1)
  unfolding ◌>>=◌ then_do
  bind-failed m k w e h = (rw h)

  then_do-returns :
      (r : Outcome E A × W) (k : A → Run W E B) (b : B)
      → (then_do r k).0 ≡ returned b
      → (a : A) × (r.0 ≡ returned a) × ((k a r.1).0 ≡ returned b)
  unfolding then_do
  then_do-returns (returned a, w) k b h = (a, refl, h)
  then_do-returns (failed e, w) k b h = cc

  pub bind-returns :
      (m : Run W E A) (k : A → Run W E B) (w : W) (b : B)
      → ((m >>= k) w).0 ≡ returned b
      → (a : A) × ((m w).0 ≡ returned a) × ((k a (m w).1).0 ≡ returned b)
  unfolding ◌>>=◌
  bind-returns m k w b h = then_do-returns (m w) k b h

  infixl 5 ◌>>◌
  abbrev pub ◌>>◌ : Run W E A → Run W E B → Run W E B
  m >> n = m >>= λ _. n

  -- A run whose outcome is inspected, as Go does with `err`.
  unfoldable pub attempt : Run W E A → (Outcome E A → Run W E B) → Run W E B
  attempt m f w = let r = m w in f r.0 r.1

module _ {W E A : Type 0} where
  abbrev pub done : A → Run W E A
  done a w = (returned a, w)

  abbrev pub fail : E → Run W E A
  fail e w = (failed e, w)

  -- A run that reads the world first.
  abbrev pub with_world : (W → Run W E A) → Run W E A
  with_world f w = f w w

module _ {W E : Type 0} where
  abbrev pub change : (W → W) → Run W E (Unit {0})
  change f w = (returned tt, f w)

  -- A loop of writes that stops at the first error.
  unfoldable pub each : {X : Type 0} → (X → Run W E (Unit {0})) → List X → Run W E (Unit {0})
  each write [] = done tt
  each write (x ∷ xs) = let rest = each write xs in write x >> rest
