-- ===== src/Resolver/Configurator/Order.antt =====
-- The comparison and the stable sort of resolver/select_configurator.go.
use crossplane_provider_time.Prelude.{
  ◌≡◌, ◌↔◌, ◌⊎◌, inl, inr, Bool, true, false, List, [], ◌∷◌, arith, In, All, Bool-cases,
}
use crossplane_provider_time.Prelude.Int.{ℤ, ltb_ℤ, eq_ℤ_iff}
use crossplane_provider_time.Resolver.Configurator.{
  ConfiguratorEntry, lex, less, insert, sort_stable,
}

-- `lex` keeps the laws of a strict order whose ties are comparable.
lex_asym : (a b : ℤ) (r r' : Bool) → (r ≡ true → r' ≡ false) → lex a b r ≡ true → lex b a r' ≡ false
unfolding lex
lex_asym a b r r' h k = ground arith

lex_trans :
    (a b c : ℤ) (r s t : Bool)
    → (r ≡ false → s ≡ false → t ≡ false)
    → lex a b r ≡ false
    → lex b c s ≡ false
    → lex a c t ≡ false
unfolding lex
lex_trans a b c r s t h k l = ground arith

lex_antisym :
    (a b : ℤ) (r s : Bool) → lex a b r ≡ false → lex b a s ≡ false → (r ≡ false) × (s ≡ false)
unfolding lex
lex_antisym a b r s h k = ground arith

ltb_asym : (a b : ℤ) → ltb_ℤ a b ≡ true → ltb_ℤ b a ≡ false
ltb_asym a b h = ground arith

ltb_trans : (a b c : ℤ) → ltb_ℤ a b ≡ false → ltb_ℤ b c ≡ false → ltb_ℤ a c ≡ false
ltb_trans a b c h k = ground arith

pub less_asym : (a b : ConfiguratorEntry) → less a b ≡ true → less b a ≡ false
unfolding less
less_asym a b =
    lex_asym _ _ _ _ (lex_asym _ _ _ _ (lex_asym _ _ _ _ (ltb_asym a.upstream_id b.upstream_id)))

pub less_trans :
    (a b c : ConfiguratorEntry) → less a b ≡ false → less b c ≡ false → less a c ≡ false
unfolding less
less_trans a b c = lex_trans _ _ _ _ _ _ (
    lex_trans _ _ _ _ _ _
      (lex_trans _ _ _ _ _ _ (ltb_trans a.upstream_id b.upstream_id c.upstream_id)))

-- Two entries of which neither is less have the same id.
pub less_antisym :
    (a b : ConfiguratorEntry) → less a b ≡ false → less b a ≡ false → a.upstream_id ≡ b.upstream_id
unfolding less
less_antisym a b h k =
    let r = lex_antisym _ _ _ _ h k in
    let s = lex_antisym _ _ _ _ r.0 r.1 in
    let t = lex_antisym _ _ _ _ s.0 s.1 in ground (arith, eq_ℤ_iff a.upstream_id b.upstream_id)

In-insert :
    (x a : ConfiguratorEntry) (l : List ConfiguratorEntry) → In a (insert x l) ↔ ((x ≡ a) ⊎ In a l)
unfolding insert
In-insert x a [] = ((λ h. h), (λ h. h))
In-insert x a (y ∷ ys) =
    let ih = In-insert x a ys in
    elim (Bool-cases (less y x)) [
      | inl t ↦ rw t (
        (λ h. elim h [
          | inl e ↦ inr (inl e)
          | inr i ↦ elim (ih.0 i) [ inl e ↦ inl e | inr j ↦ inr (inr j) ]
        ]),
        (λ h. elim h [
          | inl e ↦ inr (ih.1 (inl e))
          | inr i ↦ elim i [ inl e ↦ inl e | inr j ↦ inr (ih.1 (inr j)) ]
        ]),
      )
      | inr f ↦ rw f ((λ h. h), (λ h. h))
    ]

-- Sorting keeps the elements.
pub In-sort_stable :
    (a : ConfiguratorEntry) (l : List ConfiguratorEntry) → In a (sort_stable l) ↔ In a l
unfolding sort_stable
In-sort_stable a [] = ((λ h. h), (λ h. h))
In-sort_stable a (x ∷ xs) =
    let i = In-insert x a (sort_stable xs) in
    let ih = In-sort_stable a xs in
    (
      (λ h. elim (i.0 h) [ inl e ↦ inl e | inr j ↦ inr (ih.0 j) ]),
      (λ h. i.1 (elim h [ inl e ↦ inl e | inr j ↦ inr (ih.1 j) ])),
    )

-- No element is less than the one at the head.
abbrev pub LeastFirst : List ConfiguratorEntry → Type 0
LeastFirst [] = Unit
LeastFirst (x ∷ xs) = All (λ y. less y x ≡ false) (x ∷ xs)

less_irrefl : (x : ConfiguratorEntry) → less x x ≡ false
less_irrefl x = elim (Bool-cases (less x x)) [ inl t ↦ less_asym x x t | inr f ↦ f ]

All-insert :
    (P : ConfiguratorEntry → Type 0) (x : ConfiguratorEntry) (l : List ConfiguratorEntry)
    → P x
    → All P l
    → All P (insert x l)
unfolding insert
All-insert P x [] p h = (p, tt)
All-insert P x (y ∷ ys) p h = elim (Bool-cases (less y x)) [
  | inl t ↦ rw t (h.0, All-insert P x ys p h.1)
  | inr f ↦ rw f (p, h)
]

All-least :
    (x y : ConfiguratorEntry) (l : List ConfiguratorEntry)
    → less y x ≡ false
    → All (λ z. less z y ≡ false) l
    → All (λ z. less z x ≡ false) l
All-least x y [] h k = tt
All-least x y (z ∷ zs) h k = (less_trans z y x k.0 h, All-least x y zs h k.1)

insert-LeastFirst :
    (x : ConfiguratorEntry) (l : List ConfiguratorEntry) → LeastFirst l → LeastFirst (insert x l)
unfolding insert
insert-LeastFirst x [] h = (less_irrefl x, tt)
insert-LeastFirst x (y ∷ ys) h = elim (Bool-cases (less y x)) [
  | inl t ↦ rw t (h.0, All-insert (λ z. less z y ≡ false) x ys (less_asym y x t) h.1)
  | inr f ↦ rw f (less_irrefl x, All-least x y (y ∷ ys) f h)
]

pub sort_stable-LeastFirst : (l : List ConfiguratorEntry) → LeastFirst (sort_stable l)
unfolding sort_stable
sort_stable-LeastFirst [] = tt
sort_stable-LeastFirst (x ∷ xs) = insert-LeastFirst x (sort_stable xs) (sort_stable-LeastFirst xs)
