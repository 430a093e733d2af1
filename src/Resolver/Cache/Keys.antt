-- ===== src/Resolver/Cache/Keys.antt =====
-- The keyed store of resolver/cache.go, and its bounds on the TTL.
use crossplane_provider_time.Prelude.{
  ℕ, ◌≤◌, ◌≡◌, refl, ◌↔◌, true, none, some, List, [], ◌∷◌, arith, if◌then◌else◌, same_iff,
}
use crossplane_provider_time.Prelude.Int.{ℤ, pos}
use crossplane_provider_time.Resolver.Cache.{
  DimensionKind, CacheKey, CacheEntry, Cache, min_ttl, max_ttl, new_cache, same_kind, same_key,
  find_key, delete_key, store,
}

-- The TTL of a cache lies between a minute and an hour, whatever was asked for.
pub new_cache_ttl : (t : ℤ) → (min_ttl ≤ (new_cache t).ttl) × ((new_cache t).ttl ≤ max_ttl)
unfolding new_cache
new_cache_ttl t = (ground arith, ground arith)

-- A TTL in that range is taken as it is.
pub new_cache_ttl_in_range : (n : ℕ) → min_ttl ≤ n → n ≤ max_ttl → (new_cache (pos n)).ttl ≡ n
unfolding new_cache
new_cache_ttl_in_range n h k = ground arith

same_kind_iff : (a b : DimensionKind) → (same_kind a b ≡ true) ↔ (a ≡ b)
same_kind_iff a b = ground arith

same_key_fields :
    (a b : CacheKey)
    → (same_key a b ≡ true) ↔ (
        (a.pc.kind ≡ b.pc.kind)
        × (a.pc.name ≡ b.pc.name)
        × (a.pc.namespace ≡ b.pc.namespace)
        × (a.dim.name ≡ b.dim.name)
        × (a.dim.kind ≡ b.dim.kind))
unfolding same_key
same_key_fields a b = ground (
  arith,
  same_iff a.pc.kind b.pc.kind,
  same_iff a.pc.name b.pc.name,
  same_iff a.pc.namespace b.pc.namespace,
  same_iff a.dim.name b.dim.name,
)

pub same_key_iff : (a b : CacheKey) → (same_key a b ≡ true) ↔ (a ≡ b)
same_key_iff a b = (
  (λ h.
      let (p, q, r, s, t) = (same_key_fields a b).0 h in
      λ i. record {
        pc = record { kind = p i; name = q i; namespace = r i };
        dim = record { name = s i; kind = t i };
      }),
  (λ e. rw e ((same_key_fields b b).1 (refl, refl, refl, refl, refl))),
)

pub find_key-delete_key :
    (k j : CacheKey) (m : List (CacheKey × CacheEntry))
    → find_key j (delete_key k m) ≡ (if same_key k j then none else find_key j m)
unfolding find_key delete_key
find_key-delete_key k j [] = ground arith
find_key-delete_key k j ((i, e) ∷ m) =
    ground (arith, same_key_iff i k, same_key_iff i j, same_key_iff k j, find_key-delete_key k j m)

pub find_key-store :
    (k j : CacheKey) (e : CacheEntry) (c : Cache)
    → find_key j (store k e c).entries ≡ (if same_key k j then some e else find_key j c.entries)
unfolding store
find_key-store k j e c = unfold find_key in ground (arith, find_key-delete_key k j c.entries)
