-- ===== src/Firewall/Attachments.antt =====
-- The desired attachments of internal/controller/network/firewall_external.go: each has its key, and
-- each key once.
use crossplane_provider_time.Prelude.{
  ◌≡◌, ◌≢◌, refl, inl, inr, Text, List, [], ◌∷◌, map, Bool-cases, true, All, In, same, same_iff,
}
use crossplane_provider_time.Firewall.{ServiceAttachment, FirewallResource, Firewall}
use crossplane_provider_time.Firewall.Desired.{
  keys, attach_key, resource_key, sorted_values, remove_key, attach_from, desired_attach_set,
  attach_converged,
}
use crossplane_provider_time.Firewall.Keys.{IsDistinct, SameKeys, converged_iff}
use crossplane_provider_time.Firewall.Merge.{SameKeys-sorted_values}

module _ {V : Type 0} where
  remove_key-All :
      (P : Text × V → Type 0) (k : Text) (m : List (Text × V)) → All P m → All P (remove_key k m)
  unfolding remove_key
  remove_key-All P k [] h = tt
  remove_key-All P k ((j, v) ∷ m) h = elim (Bool-cases (same j k)) [
    | inl t ↦ rw t (remove_key-All P k m h.1)
    | inr f ↦ rw f (h.0, remove_key-All P k m h.1)
  ]

  In-remove_key :
      (x k : Text) (m : List (Text × V)) → In x (keys (remove_key k m)) → In x (keys m) × (k ≢ x)
  unfolding remove_key
  In-remove_key x k [] h = absurd h
  In-remove_key x k ((j, v) ∷ m) h = elim (Bool-cases (same j k)) [
    | inl t ↦ let r = In-remove_key x k m (rw t at h) in (inr r.0, r.1)
    | inr f ↦ elim (rw f at h) [
      | inl e ↦ (inl e, λ q. (let p : j ≡ k = cc in let t = (same_iff j k).1 p in cc))
      | inr n ↦ let r = In-remove_key x k m n in (inr r.0, r.1)
    ]
  ]

  remove_key-IsDistinct :
      (k : Text) (m : List (Text × V)) → IsDistinct (keys m) → IsDistinct (keys (remove_key k m))
  unfolding remove_key
  remove_key-IsDistinct k [] d = tt
  remove_key-IsDistinct k ((j, v) ∷ m) d = elim (Bool-cases (same j k)) [
    | inl t ↦ rw t (remove_key-IsDistinct k m d.1)
    | inr f ↦ rw f ((λ n. d.0 (In-remove_key j k m n).0), remove_key-IsDistinct k m d.1)
  ]

attach_from-keyed :
    (m : List (Text × ServiceAttachment)) (l : List ServiceAttachment)
    → All (λ p. attach_key p.1 ≡ p.0) m
    → All (λ p. attach_key p.1 ≡ p.0) (attach_from m l)
unfolding attach_from
attach_from-keyed m [] h = h
attach_from-keyed m (a ∷ l) h =
    attach_from-keyed ((attach_key a, a) ∷ remove_key (attach_key a) m) l
      (refl, remove_key-All (λ p. attach_key p.1 ≡ p.0) (attach_key a) m h)

attach_from-IsDistinct :
    (m : List (Text × ServiceAttachment)) (l : List ServiceAttachment)
    → IsDistinct (keys m)
    → IsDistinct (keys (attach_from m l))
unfolding attach_from
attach_from-IsDistinct m [] d = d
attach_from-IsDistinct m (a ∷ l) d =
    attach_from-IsDistinct ((attach_key a, a) ∷ remove_key (attach_key a) m) l (
      (λ n. (In-remove_key (attach_key a) (attach_key a) m n).1 refl),
      remove_key-IsDistinct (attach_key a) m d,
    )

pub SameKeys-attachments :
    (cr : Firewall)
    → SameKeys
        (map attach_key (sorted_values (desired_attach_set cr)))
        (keys (desired_attach_set cr))
unfolding desired_attach_set
SameKeys-attachments cr =
    SameKeys-sorted_values attach_key _ (attach_from-keyed [] cr.spec.attached_services tt)

-- Where no two resources upstream have one key, converged attachments have the desired keys.
pub attach_converged-SameKeys :
    (cr : Firewall) (observed : List FirewallResource)
    → IsDistinct (map resource_key observed)
    → attach_converged (desired_attach_set cr) observed ≡ true
    → SameKeys (keys (desired_attach_set cr)) (map resource_key observed)
unfolding attach_converged desired_attach_set
attach_converged-SameKeys cr observed d h =
    (converged_iff (desired_attach_set cr) (map resource_key observed)
        (attach_from-IsDistinct [] cr.spec.attached_services tt) d).0
      h
