-- ===== src/Location/Table.antt =====
-- The index of internal/controller/shared/azlocation.go from zones to locations.
use crossplane_provider_time.Prelude.{
  ◌≡◌, refl, sym, subst, ap, ◌∙◌, inl, inr, Text, List, [], ◌∷◌, map, some, Bool, true, false, not,
  ◌&&◌, same, same_iff, contains, contains_iff, lookup, In, Bool-cases, arith, and-true,
}
use crossplane_provider_time.Location.{Entry}

-- No two lists of zones of the table overlap.
unfoldable pub disjoint : List Text → List Text → Bool
disjoint [] ws = true
disjoint (z ∷ zs) ws = not (contains ws z) && disjoint zs ws

unfoldable pub free : List Text → List Entry → Bool
free zs [] = true
free zs (e ∷ es) = disjoint zs e.1 && free zs es

unfoldable pub no_overlap : List Entry → Bool
no_overlap [] = true
no_overlap (e ∷ es) = free e.1 es && no_overlap es

disjoint-In : (az : Text) (zs ws : List Text) → disjoint zs ws ≡ true → In az zs → In az ws → ⊥
unfolding disjoint
disjoint-In az [] ws h m n = m
disjoint-In az (z ∷ zs) ws h (inl e) n =
    let c : contains ws z ≡ true = (contains_iff ws z).1 (subst (λ y. In y ws) (sym e) n) in
    let d = (and-true (not (contains ws z)) (disjoint zs ws) h).0 in ground (arith, c, d)
disjoint-In az (z ∷ zs) ws h (inr m) n =
    disjoint-In az zs ws (and-true (not (contains ws z)) (disjoint zs ws) h).1 m n

free-In :
    (az : Text) (zs : List Text) (es : List Entry) (e : Entry)
    → free zs es ≡ true
    → In az zs
    → In e es
    → In az e.1
    → ⊥
unfolding free
free-In az zs [] e h m i n = i
free-In az zs (x ∷ es) e h m (inl p) n =
    disjoint-In az zs x.1 (and-true (disjoint zs x.1) (free zs es) h).0 m
      (subst (λ y. In az y.1) (sym p) n)
free-In az zs (x ∷ es) e h m (inr i) n =
    free-In az zs es e (and-true (disjoint zs x.1) (free zs es) h).1 m i n

pub owner :
    (az : Text) (es : List Entry) (e e' : Entry)
    → no_overlap es ≡ true
    → In e es
    → In e' es
    → In az e.1
    → In az e'.1
    → e ≡ e'
unfolding no_overlap
owner az [] e e' h i j m n = absurd i
owner az (x ∷ es) e e' h (inl p) (inl q) m n = sym p ∙ q
owner az (x ∷ es) e e' h (inl p) (inr j) m n = absurd (
    free-In az x.1 es e' (and-true (free x.1 es) (no_overlap es) h).0
      (subst (λ y. In az y.1) (sym p) m) j n)
owner az (x ∷ es) e e' h (inr i) (inl q) m n = absurd (
    free-In az x.1 es e (and-true (free x.1 es) (no_overlap es) h).0
      (subst (λ y. In az y.1) (sym q) n) i m)
owner az (x ∷ es) e e' h (inr i) (inr j) m n =
    owner az es e e' (and-true (free x.1 es) (no_overlap es) h).1 i j m n

-- No name stands twice in the table.
unfoldable pub fresh_names : List Entry → Bool
fresh_names [] = true
fresh_names (e ∷ es) = not (contains (map (λ x. x.0) es) e.0) && fresh_names es

In-name : (e : Entry) (es : List Entry) → In e es → In e.0 (map (λ x. x.0) es)
In-name e [] m = m
In-name e (x ∷ es) (inl p) = inl (ap (λ y. y.0) p)
In-name e (x ∷ es) (inr m) = inr (In-name e es m)

pub lookup-In : (es : List Entry) (e : Entry) → lookup e.0 es ≡ some e.1 → In e es
unfolding lookup
lookup-In [] e h = cc
lookup-In ((l, zs) ∷ es) (k, ws) h = elim (Bool-cases (same l k)) [
  | inl t ↦
      let p : l ≡ k = (same_iff l k).0 t in
      let g : some zs ≡ some ws = (rw t at h) in let q : zs ≡ ws = cc in inl (rw (p, q) refl)
  | inr f ↦ inr (lookup-In es (k, ws) (rw f at h))
]

pub In-lookup :
    (es : List Entry) (e : Entry) → fresh_names es ≡ true → In e es → lookup e.0 es ≡ some e.1
unfolding lookup fresh_names
In-lookup [] e h m = absurd m
In-lookup ((l, zs) ∷ es) e h (inl p) =
    subst (λ y. lookup y.0 ((l, zs) ∷ es) ≡ some y.1) p (rw ((same_iff l l).1 refl) refl)
In-lookup ((l, zs) ∷ es) e h (inr m) = elim (Bool-cases (same l e.0)) [
  | inl t ↦
      let n = subst (λ y. In y (map (λ x. x.0) es)) (sym ((same_iff l e.0).0 t)) (In-name e es m) in
      let c : contains (map (λ x. x.0) es) l ≡ true = (contains_iff (map (λ x. x.0) es) l).1 n in
      let d = (and-true (not (contains (map (λ x. x.0) es) l)) (fresh_names es) h).0 in
      absurd (clash _ c d)
  | inr f ↦
      rw f (In-lookup es e (and-true (not (contains (map (λ x. x.0) es) l)) (fresh_names es) h).1 m)
]
  where
    clash : (b : Bool) → b ≡ true → not b ≡ true → ⊥
    clash true p q = cc
    clash false p q = cc
