-- ===== src/Firewall/Merge.antt =====
-- The keys of what the loops of internal/controller/network/firewall_external.go keep and add.
use crossplane_provider_time.Prelude.{
  ℕ, ◌≡◌, refl, subst, ◌↔◌, ◌⊎◌, inl, inr, Text, List, [], ◌∷◌, ◌++◌, map, Bool, true, false, not,
  arith, Bool-cases, All, In, In-keep, keep-In, contains, contains_iff,
}
use crossplane_provider_time.Firewall.{Rule, Firewall}
use crossplane_provider_time.Firewall.Desired.{
  keys, ltb_text, insert_key, sort_keys, sorted_values, rule_key, desired_rule, desired_from,
  desired_rule_set,
}
use crossplane_provider_time.Firewall.Keys.{SameKeys}
use crossplane_provider_time.Firewall.Split.{outside, inside, In-append, In-map}

module _ {V : Type 0} (f : V → Text) where
  abbrev value_keys : List (Text × V) → List Text
  value_keys m = map f (map (λ p. p.1) m)

  In-insert_key :
      (k : Text) (p : Text × V) (m : List (Text × V))
      → In k (value_keys (insert_key p m)) ↔ ((f p.1 ≡ k) ⊎ In k (value_keys m))
  unfolding insert_key
  In-insert_key k p [] = ((λ h. h), (λ h. h))
  In-insert_key k p (q ∷ m) = elim (Bool-cases (ltb_text q.0 p.0)) [
    | inl t ↦ rw t (ground (arith, In-insert_key k p m))
    | inr t ↦ rw t ((λ h. h), (λ h. h))
  ]

  In-sort_keys :
      (k : Text) (m : List (Text × V)) → In k (value_keys (sort_keys m)) ↔ In k (value_keys m)
  unfolding sort_keys
  In-sort_keys k [] = ((λ h. h), (λ h. h))
  In-sort_keys k (p ∷ m) = ground (arith, In-insert_key k p (sort_keys m), In-sort_keys k m)

  value_keys_eq : (m : List (Text × V)) → All (λ p. f p.1 ≡ p.0) m → value_keys m ≡ keys m
  value_keys_eq [] h = refl
  value_keys_eq (p ∷ m) h = rw (h.0, value_keys_eq m h.1) refl

  pub SameKeys-sorted_values :
      (m : List (Text × V)) → All (λ p. f p.1 ≡ p.0) m → SameKeys (map f (sorted_values m)) (keys m)
  unfolding sorted_values
  SameKeys-sorted_values m h k =
      subst (λ l. In k (value_keys (sort_keys m)) ↔ In k l) (value_keys_eq m h) (In-sort_keys k m)

module _ {X Y : Type 0} (f : X → Text) (g : Y → Text) where
  -- What is wanted of the old, with what is missing, is what is wanted.
  pub SameKeys-merge :
      (wanted : List Text) (xs : List X) (ys : List Y)
      → SameKeys (map g ys) wanted
      → SameKeys wanted (map f (inside f wanted xs) ++ map g (outside g (map f xs) ys))
  SameKeys-merge wanted xs ys h k = (
    (λ m. (In-append k old new).1 (elim (Bool-cases (contains (map f xs) k)) [
      | inl t ↦
          let (x, n, e) = (In-map f k xs).0 ((contains_iff (map f xs) k).0 t) in
          inl (
            (In-map f k _).1 (
              x,
              keep-In (λ z. contains wanted (f z)) x xs n (rw e ((contains_iff wanted k).1 m)),
              e,
            ))
      | inr t ↦
          let (y, n, e) = (In-map g k ys).0 ((h k).1 m) in
          inr (
            (In-map g k _).1
              (y, keep-In (λ z. not (contains (map f xs) (g z))) y ys n (rw (e, t)), e))
    ])),
    (λ m. elim ((In-append k old new).0 m) [
      | inl n ↦
          let (x, i, e) = (In-map f k _).0 n in
          (contains_iff wanted k).0 (
            subst (λ j. contains wanted j ≡ true) e (In-keep (λ z. contains wanted (f z)) x xs i).1)
      | inr n ↦
          let (y, i, e) = (In-map g k _).0 n in
          (h k).0
            ((In-map g k ys).1 (y, (In-keep (λ z. not (contains (map f xs) (g z))) y ys i).0, e))
    ]),
  )
    where
      old : List Text
      old = map f (inside f wanted xs)

      new : List Text
      new = map g (outside g (map f xs) ys)

module _ (lower : ℕ → ℕ) where
  desired_from-keyed :
      (rs : List Rule) (out : List (Text × Rule)) (dup : Bool)
      → All (λ p. rule_key lower p.1 ≡ p.0) out
      → All (λ p. rule_key lower p.1 ≡ p.0) (desired_from lower out dup rs).0
  unfolding desired_from
  desired_from-keyed [] out dup h = h
  desired_from-keyed (r ∷ rs) out dup h =
      elim (Bool-cases (contains (keys out) (rule_key lower (desired_rule lower r)))) [
        | inl t ↦ rw t (desired_from-keyed rs out true h)
        | inr t ↦ rw t (desired_from-keyed rs _ dup (refl, h))
      ]

  pub SameKeys-desired :
      (cr : Firewall)
      → SameKeys
          (map (rule_key lower) (sorted_values (desired_rule_set lower cr).0))
          (keys (desired_rule_set lower cr).0)
  unfolding desired_rule_set
  SameKeys-desired cr =
      SameKeys-sorted_values (rule_key lower) _ (desired_from-keyed cr.spec.rules [] false tt)
