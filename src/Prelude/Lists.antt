-- ===== src/Prelude/Lists.antt =====
-- Lists measured by native numbers, and the predicates on them that the components share.
use Prim.Native.Nat.{ℕ, suc, ◌+◌}
use mathlib.Core.Path.{◌≡◌, refl, subst}
use mathlib.Core.Logic.{◌⊎◌, inl, inr}
use mathlib.Core.Bool.{Bool, true, false}
use mathlib.Core.Option.{Option, none, some}
use mathlib.Core.List.{List, [], ◌∷◌, ◌++◌}
use native.Mathlib.Omega.{arith}
use crossplane_provider_time.Prelude.Tests.{if◌then◌else◌, Bool-cases}

module _ {ℓ} {A : Type ℓ} where
  abbrev pub length : List A → ℕ
  length [] = 0
  length (x ∷ xs) = suc (length xs)

  -- `append` in a loop that keeps the elements which pass a test.
  abbrev pub keep : (A → Bool) → List A → List A
  keep p [] = []
  keep p (x ∷ xs) = if p x then x ∷ keep p xs else keep p xs

  pub length-append : (xs ys : List A) → length (xs ++ ys) ≡ length xs + length ys
  length-append [] ys = omega arith
  length-append (x ∷ xs) ys = omega (arith, length-append xs ys)

module _ {ℓ κ} {A : Type ℓ} (P : A → Type κ) where
  abbrev pub All : List A → Type κ
  All [] = Unit
  All (x ∷ xs) = P x × All xs

  pub All-append : (xs ys : List A) → All xs → All ys → All (xs ++ ys)
  All-append [] ys _ k = k
  All-append (x ∷ xs) ys (p, h) k = (p, All-append xs ys h k)

module _ {A : Type 0} where
  -- Membership by recursion: which place holds `a`.
  abbrev pub In : A → List A → Type 0
  In a [] = ⊥
  In a (x ∷ xs) = (x ≡ a) ⊎ In a xs

  pub In-keep : (p : A → Bool) (a : A) (xs : List A) → In a (keep p xs) → In a xs × (p a ≡ true)
  In-keep p a [] h = absurd h
  In-keep p a (x ∷ xs) h = elim (Bool-cases (p x)) [
    | inl t ↦ elim (rw t at h) [
      | inl e ↦ (inl e, rw (← e) t)
      | inr m ↦ let r = In-keep p a xs m in (inr r.0, r.1)
    ]
    | inr f ↦ let r = In-keep p a xs (rw f at h) in (inr r.0, r.1)
  ]

  pub keep-In : (p : A → Bool) (a : A) (xs : List A) → In a xs → p a ≡ true → In a (keep p xs)
  keep-In p a [] h t = absurd h
  keep-In p a (x ∷ xs) (inl e) t = rw (e, t) (inl refl)
  keep-In p a (x ∷ xs) (inr m) t = elim (Bool-cases (p x)) [
    | inl q ↦ rw q (inr (keep-In p a xs m t))
    | inr q ↦ rw q (keep-In p a xs m t)
  ]

module _ {A : Type 0} (p : A → Bool) where
  -- A loop that returns at the first element which passes the test.
  abbrev pub find : List A → Option A
  find [] = none
  find (x ∷ xs) = if p x then some x else find xs

  pub find-some : (a : A) (xs : List A) → find xs ≡ some a → In a xs × (p a ≡ true)
  find-some a [] h = cc
  find-some a (x ∷ xs) h = elim (Bool-cases (p x)) [
    | inl t ↦ let k : some x ≡ some a = rw t at h in let e : x ≡ a = cc in (inl e, rw (← e) t)
    | inr f ↦ let r = find-some a xs (rw f at h) in (inr r.0, r.1)
  ]

  pub find-In : (a : A) (xs : List A) → In a xs → p a ≡ true → (b : A) × (find xs ≡ some b)
  find-In a [] h t = absurd h
  find-In a (x ∷ xs) h t = elim (Bool-cases (p x)) [
    | inl u ↦ (x, rw u)
    | inr u ↦ elim h [
      | inl e ↦ let v : p x ≡ true = rw e t in cc
      | inr m ↦ let r = find-In a xs m t in (r.0, rw u r.1)
    ]
  ]

  pub find-none : (a : A) (xs : List A) → find xs ≡ none → In a xs → p a ≡ false
  find-none a xs h m = elim (Bool-cases (p a)) [
    | inl t ↦ let r = find-In a xs m t in cc
    | inr f ↦ f
  ]

pub All-In {κ} : {A : Type 0} (P : A → Type κ) (a : A) (xs : List A) → All P xs → In a xs → P a
All-In P a [] h m = absurd m
All-In P a (x ∷ xs) h (inl e) = subst P e h.0
All-In P a (x ∷ xs) h (inr m) = All-In P a xs h.1 m
