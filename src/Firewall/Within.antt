-- ===== src/Firewall/Within.antt =====
-- Runs of the handlers of internal/controller/network/firewall_external.go that write within a
-- budget.
use crossplane_provider_time.Prelude.{
  ℕ, zero, suc, ◌+◌, ◌≤◌, Text, List, [], ◌∷◌, contains, arith, Bool-cases, inl, inr,
}
use crossplane_provider_time.Firewall.{FirewallError, Outcome, returned, failed, Reason}
use crossplane_provider_time.Firewall.World.{World, Handler, then_do, ◌>>=◌, done, fail, call, warn}
use crossplane_provider_time.Firewall.Reconcile.{
  Progress, stopped, ended, remove_unwanted, add_missing, unless_stopped,
}

abbrev pub left : {A : Type 0} → (A → ℕ) → Outcome A → ℕ
left f (returned a) = f a
left f (failed e) = 0

abbrev pub left_of : Progress → ℕ
left_of stopped = 0
left_of (ended n) = n

module _ {S : Type 0} (writes : S → ℕ) where
  -- The writes of a run and the budget that its value leaves are within the budget `n`.
  unfoldable pub IsWithin : {A : Type 0} → (A → ℕ) → ℕ → Handler S A → Type 0
  IsWithin f n m = (w : World S) → writes (m w).1.upstream + left f (m w).0 ≤ writes w.upstream + n

  pub then_do-IsWithin :
      {A B : Type 0} (f : A → ℕ) (g : B → ℕ) (n : ℕ) (r : Outcome A × World S) (k : A → Handler S B)
      → writes r.1.upstream + left f r.0 ≤ n
      → ((a : A) → IsWithin g (f a) (k a))
      → writes (then_do r k).1.upstream + left g (then_do r k).0 ≤ n
  unfolding then_do IsWithin
  then_do-IsWithin f g n (returned a, w) k h l = omega (arith, h, l a w)
  then_do-IsWithin f g n (failed e, w) k h l = h

  pub bind-IsWithin :
      {A B : Type 0} (f : A → ℕ) (g : B → ℕ) (n : ℕ) (m : Handler S A) (k : A → Handler S B)
      → IsWithin f n m
      → ((a : A) → IsWithin g (f a) (k a))
      → IsWithin g n (m >>= k)
  unfolding IsWithin ◌>>=◌
  bind-IsWithin f g n m k h l w = then_do-IsWithin f g _ (m w) k (h w) l

  pub done-IsWithin : {A : Type 0} (f : A → ℕ) (a : A) → IsWithin f (f a) (done a)
  unfolding IsWithin
  done-IsWithin f a w = omega arith

  pub fail-IsWithin : {A : Type 0} (f : A → ℕ) (n : ℕ) (e : FirewallError) → IsWithin f n (fail e)
  unfolding IsWithin
  fail-IsWithin f n e w = omega arith

  pub warn-IsWithin : (r : Reason) (n : ℕ) → IsWithin (λ _. n) n (warn r)
  unfolding IsWithin
  warn-IsWithin r n w = omega arith

  pub left_const : {A : Type 0} (n : ℕ) (o : Outcome A) → left (λ _. n) o ≤ n
  left_const n (returned a) = omega arith
  left_const n (failed e) = omega arith

  pub read-IsWithin :
      {A : Type 0} (n : ℕ) (c : S → Outcome A × S)
      → ((s : S) → writes (c s).1 ≤ writes s)
      → IsWithin (λ _. n) n (call c)
  unfolding IsWithin
  read-IsWithin n c h w = omega (arith, h w.upstream, left_const n (c w.upstream).0)

  pub write-IsWithin :
      {A : Type 0} (n : ℕ) (c : S → Outcome A × S)
      → ((s : S) → writes (c s).1 ≤ suc (writes s))
      → IsWithin (λ _. n) (suc n) (call c)
  unfolding IsWithin
  write-IsWithin n c h w = omega (arith, h w.upstream, left_const n (c w.upstream).0)

  -- A handler that writes at most once.
  unfoldable pub IsWrite : {A : Type 0} → Handler S A → Type 0
  IsWrite m = (n : ℕ) → IsWithin (λ _. n) (suc n) m

  pub weaken :
      {A : Type 0} (f : A → ℕ) (n k : ℕ) (m : Handler S A) → n ≤ k → IsWithin f n m → IsWithin f k m
  unfolding IsWithin
  weaken f n k m le h w = omega (arith, h w)

  module _ {X : Type 0} (key : X → Text) (write : X → Handler S (Unit {0}))
      (once : (x : X) → IsWrite (write x)) where
    pub remove_unwanted-IsWithin :
        (wanted : List Text) (xs : List X) (b : ℕ)
        → IsWithin left_of b (remove_unwanted key write wanted xs b)
    unfolding remove_unwanted IsWrite
    remove_unwanted-IsWithin wanted [] b = done-IsWithin left_of (ended b)
    remove_unwanted-IsWithin wanted (x ∷ xs) zero = done-IsWithin left_of stopped
    remove_unwanted-IsWithin wanted (x ∷ xs) (suc b) = elim (Bool-cases (contains wanted (key x))) [
      | inl t ↦ rw t (remove_unwanted-IsWithin wanted xs (suc b))
      | inr t ↦ rw t (
          bind-IsWithin _ left_of (suc b) (write x) _ (once x b)
            (λ _. remove_unwanted-IsWithin wanted xs b))
    ]

    pub add_missing-IsWithin :
        (have : List Text) (xs : List X) (b : ℕ)
        → IsWithin (λ n. n) b (add_missing key write have xs b)
    unfolding add_missing IsWrite
    add_missing-IsWithin have [] b = done-IsWithin (λ n. n) b
    add_missing-IsWithin have (x ∷ xs) zero = done-IsWithin (λ n. n) zero
    add_missing-IsWithin have (x ∷ xs) (suc b) = elim (Bool-cases (contains have (key x))) [
      | inl t ↦ rw t (add_missing-IsWithin have xs (suc b))
      | inr t ↦ rw t (
          bind-IsWithin _ (λ n. n) (suc b) (write x) _ (once x b)
            (λ _. add_missing-IsWithin have xs b))
    ]

  pub unless_stopped-IsWithin :
      (next : ℕ → Handler S ℕ)
      → ((b : ℕ) → IsWithin (λ n. n) b (next b))
      → (p : Progress) → IsWithin (λ n. n) (left_of p) (unless_stopped next p)
  unfolding unless_stopped
  unless_stopped-IsWithin next h stopped = done-IsWithin (λ n. n) zero
  unless_stopped-IsWithin next h (ended b) = h b
