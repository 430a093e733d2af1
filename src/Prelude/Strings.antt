-- ===== src/Prelude/Strings.antt =====
-- A Go string as the list of its code points. For ASCII text these are its bytes.
use Prim.Native.Nat.{ℕ}
use Prim.Native.Char.{code}
use Prim.Native.String.{String}
use mathlib.Core.Path.{◌≡◌, refl}
use mathlib.Core.Logic.{◌↔◌, inl, inr}
use mathlib.Core.Bool.{Bool, true, false, ◌&&◌, ◌||◌}
use mathlib.Core.Option.{Option, none, some}
use mathlib.Core.List.{List, [], ◌∷◌}
use native.Mathlib.Omega.{arith}
use crossplane_provider_time.Prelude.Tests.{◌==◌, ltb, if◌then◌else◌, Bool-cases, or-true}
use crossplane_provider_time.Prelude.Lists.{In}

abbrev pub Text : Type 0
Text = List ℕ

-- The code points of a literal.
abbrev pub lit : String → Text
lit String.[] = []
lit (String.◌∷◌ c s) = code c ∷ lit s

-- Go's `==` on strings.
unfoldable pub same : Text → Text → Bool
same [] [] = true
same (a ∷ s) (b ∷ t) = a == b && same s t
same _ _ = false

pub same_iff : (s t : Text) → (same s t ≡ true) ↔ (s ≡ t)
unfolding same
same_iff [] [] = ((λ _. refl), (λ _. refl))
same_iff [] (b ∷ t) = ((λ h. cc), (λ h. cc))
same_iff (a ∷ s) [] = ((λ h. cc), (λ h. cc))
same_iff (a ∷ s) (b ∷ t) =
    ((λ h. ground (arith, same_iff s t)), (λ h. ground (arith, same_iff s t)))

pub same_refl : (s : Text) → same s s ≡ true
same_refl s = (same_iff s s).1 refl

-- `<` on strings.
unfoldable pub ltb_text : Text → Text → Bool
ltb_text [] [] = false
ltb_text [] (d ∷ t) = true
ltb_text (c ∷ s) [] = false
ltb_text (c ∷ s) (d ∷ t) = if c == d then ltb_text s t else ltb c d

-- A Go map as the list of its pairs, in the order in which a loop meets them.
module _ {V : Type 0} where
  unfoldable pub lookup : Text → List (Text × V) → Option V
  lookup k [] = none
  lookup k ((j, v) ∷ m) = if same j k then some v else lookup k m

-- `slices.Contains` for strings, and the loops that stand for it.
unfoldable pub contains : List Text → Text → Bool
contains [] t = false
contains (s ∷ l) t = same s t || contains l t

contains-In : (l : List Text) (t : Text) → contains l t ≡ true → In t l
unfolding contains
contains-In [] t h = cc
contains-In (s ∷ l) t h = elim (Bool-cases (same s t)) [
  | inl e ↦ inl ((same_iff s t).0 e)
  | inr e ↦ inr (contains-In l t (rw e at h))
]

In-contains : (l : List Text) (t : Text) → In t l → contains l t ≡ true
unfolding contains
In-contains [] t h = absurd h
In-contains (s ∷ l) t (inl e) = rw ((same_iff s t).1 e)
In-contains (s ∷ l) t (inr m) = rw (In-contains l t m) (or-true (same s t))

pub contains_iff : (l : List Text) (t : Text) → (contains l t ≡ true) ↔ In t l
contains_iff l t = (contains-In l t, In-contains l t)

-- `strings.HasPrefix` and `strings.Contains`.
unfoldable pub starts_with : Text → Text → Bool
starts_with s [] = true
starts_with [] (d ∷ t) = false
starts_with (c ∷ s) (d ∷ t) = c == d && starts_with s t

unfoldable pub has_substring : Text → Text → Bool
unfolding starts_with
has_substring [] t = starts_with [] t
has_substring (c ∷ s) t = starts_with (c ∷ s) t || has_substring s t
