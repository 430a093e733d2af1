-- ===== src/Firewall/Split.antt =====
-- Lists of distinct keys, split by membership in a list of keys, for the loops of
-- internal/controller/network/firewall_external.go.
use crossplane_provider_time.Prelude.{
  ℕ, suc, ◌≤◌, ◌≡◌, refl, sym, subst, ap, ◌∙◌, ◌↔◌, ◌⊎◌, inl, inr, Text, List, [], ◌∷◌, ◌++◌, map,
  not, arith, Bool-cases, length, keep, In, contains,
}
use crossplane_provider_time.Firewall.Keys.{IsDistinct}

module _ {X : Type 0} (key : X → Text) where
  -- The elements whose keys are not among the given ones, and those whose keys are.
  abbrev pub outside : List Text → List X → List X
  outside ks xs = keep (λ x. not (contains ks (key x))) xs

  abbrev pub inside : List Text → List X → List X
  inside ks xs = keep (λ x. contains ks (key x)) xs

pub snoc_append {ℓ} :
    {A : Type ℓ} (xs : List A) (x : A) (ys : List A) → (xs ++ x ∷ []) ++ ys ≡ xs ++ x ∷ ys
snoc_append [] x ys = refl
snoc_append (a ∷ xs) x ys = ap (λ l. a ∷ l) (snoc_append xs x ys)

pub map-append :
    {X : Type 0} (f : X → Text) (xs ys : List X) → map f (xs ++ ys) ≡ map f xs ++ map f ys
map-append f [] ys = refl
map-append f (x ∷ xs) ys = ap (λ l. f x ∷ l) (map-append f xs ys)

pub In-append : (k : Text) (ks ls : List Text) → In k (ks ++ ls) ↔ (In k ks ⊎ In k ls)
In-append k [] ls = ((λ m. inr m), elim [ inl m ↦ absurd m | inr m ↦ m ])
In-append k (j ∷ ks) ls = ground (arith, In-append k ks ls)

pub In-map :
    {X : Type 0} (f : X → Text) (k : Text) (xs : List X)
    → In k (map f xs) ↔ ((x : X) × In x xs × (f x ≡ k))
In-map f k xs = (to xs, λ h. from xs h.0 h.1 h.2)
  where
    to : (xs : List _) → In k (map f xs) → (x : _) × In x xs × (f x ≡ k)
    to [] m = absurd m
    to (x ∷ xs) (inl e) = (x, inl refl, e)
    to (x ∷ xs) (inr m) = let r = to xs m in (r.0, inr r.1, r.2)

    from : (xs : List _) (x : _) → In x xs → f x ≡ k → In k (map f xs)
    from [] x m e = absurd m
    from (y ∷ xs) x (inl p) e = inl (ap f p ∙ e)
    from (y ∷ xs) x (inr m) e = inr (from xs x m e)

no : (n : ℕ) → suc n ≤ 0 → ⊥
no n g = omega arith

module _ {X : Type 0} (key : X → Text) where
  pub inside_all :
      (ks : List Text) (xs : List X) → length (outside key ks xs) ≤ 0 → inside key ks xs ≡ xs
  inside_all ks [] h = refl
  inside_all ks (x ∷ xs) h = elim (Bool-cases (contains ks (key x))) [
    | inl t ↦ rw t (ap (λ l. x ∷ l) (inside_all ks xs (rw t at h)))
    | inr t ↦ let g : suc (length (outside key ks xs)) ≤ 0 = (rw t at h) in absurd (no _ g)
  ]

  pub outside_none :
      (ks : List Text) (xs : List X) → length (outside key ks xs) ≤ 0 → outside key ks xs ≡ []
  outside_none ks xs h = nil (outside key ks xs) h
    where
      nil : (l : List X) → length l ≤ 0 → l ≡ []
      nil [] g = refl
      nil (x ∷ l) g = absurd (no _ g)

-- A list of distinct ids without one of its elements.
In-mid : (k : Text) (ks ls : List Text) → In k (ks ++ k ∷ ls)
In-mid k ks ls = (In-append k ks (k ∷ ls)).1 (inr (inl refl))

pub IsDistinct-mid :
    (ks : List Text) (k : Text) (ls : List Text)
    → IsDistinct (ks ++ k ∷ ls)
    → ¬ In k ks × IsDistinct (ks ++ ls)
IsDistinct-mid [] k ls d = ((λ m. m), d.1)
IsDistinct-mid (j ∷ ks) k ls d =
    let rest = IsDistinct-mid ks k ls d.1 in
    (
      elim [
        | inl e ↦ d.0 (subst (λ i. In i (ks ++ k ∷ ls)) (sym e) (In-mid k ks ls))
        | inr m ↦ rest.0 m
      ],
      ((λ m. d.0 (wider m)), rest.1),
    )
  where
    wider : In j (ks ++ ls) → In j (ks ++ k ∷ ls)
    wider m =
        (In-append j ks (k ∷ ls)).1
          (elim ((In-append j ks ls).0 m) [ inl n ↦ inl n | inr n ↦ inr (inr n) ])
