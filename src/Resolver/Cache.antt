-- ===== src/Resolver/Cache.antt =====
-- internal/controller/shared/resolver/cache.go and `clampTTL` of resolver.go: the catalog cache.
-- Times are nanoseconds. The model runs one call at a time: `singleflight.Group.Do`, which is not
-- part of the repository, then runs its function once.
pub mod Keys
pub mod Call
pub mod Trace
mod Tests
use crossplane_provider_time.Prelude.{
  ℕ, ◌+◌, ◌*◌, ◌^◌, Text, Bool, true, false, not, ◌&&◌, Option, none, some, List, [], ◌∷◌,
  if◌then◌else◌, same, keep, ltb, leb,
}
use crossplane_provider_time.Prelude.Int.{ℤ, pos, pos_part, ltb_ℤ}
use crossplane_provider_time.Resolver.Errors.{
  ResolverError, catalog_unauthorized, catalog_transient, Result, ok, err,
}
use crossplane_provider_time.Resolver.Slug.{PresetEntry}
use crossplane_provider_time.Resolver.Configurator.{ConfiguratorEntry}

pub record PcRef : Type 0 where
  pub kind : Text
  pub name : Text
  pub namespace : Text

pub data DimensionKind : Type 0 where
  preset configurator enum : DimensionKind

pub record Dimension : Type 0 where
  pub name : Text
  pub kind : DimensionKind

pub record CacheKey : Type 0 where
  pub pc : PcRef
  pub dim : Dimension

-- What a fetcher returns: one of the three slices.
pub data Payload : Type 0 where
  presets : List PresetEntry → Payload
  configurators : List ConfiguratorEntry → Payload
  values : List Text → Payload

-- A payload, or the sticky error.
pub record CacheEntry : Type 0 where
  pub outcome : Result Payload
  pub fetched_at : ℕ

pub record Cache : Type 0 where
  pub entries : List (CacheKey × CacheEntry)
  pub ttl : ℕ

abbrev pub minute : ℕ
minute = 60 * 1000000000

abbrev pub min_ttl : ℕ
min_ttl = minute

abbrev pub max_ttl : ℕ
max_ttl = 60 * minute

abbrev pub default_ttl : ℕ
default_ttl = 5 * minute

unfoldable pub clamp_ttl : ℤ → ℕ
clamp_ttl t =
    if not (ltb_ℤ (pos 0) t)
    then default_ttl
    else if ltb_ℤ t (pos min_ttl)
    then min_ttl
    else if ltb_ℤ (pos max_ttl) t
    then max_ttl
    else pos_part t

-- `newCache`, with `Options.TTL`.
pub new_cache : ℤ → Cache
unfolding clamp_ttl
new_cache ttl = record { entries = []; ttl = clamp_ttl ttl }

abbrev pub same_kind : DimensionKind → DimensionKind → Bool
same_kind preset preset = true
same_kind configurator configurator = true
same_kind enum enum = true
same_kind _ _ = false

-- Go's `==` on keys.
unfoldable pub same_key : CacheKey → CacheKey → Bool
same_key a b =
    same a.pc.kind b.pc.kind
    && same a.pc.name b.pc.name
    && same a.pc.namespace b.pc.namespace
    && same a.dim.name b.dim.name
    && same_kind a.dim.kind b.dim.kind

unfoldable pub find_key : CacheKey → List (CacheKey × CacheEntry) → Option CacheEntry
find_key k [] = none
find_key k ((j, e) ∷ m) = if same_key j k then some e else find_key k m

-- `entries[key] = …` and `delete(entries, key)`.
unfoldable pub delete_key : CacheKey → List (CacheKey × CacheEntry) → List (CacheKey × CacheEntry)
delete_key k [] = []
delete_key k ((j, e) ∷ m) = if same_key j k then delete_key k m else (j, e) ∷ delete_key k m

unfoldable pub store : CacheKey → CacheEntry → Cache → Cache
unfolding delete_key
store k e c = record c { entries = (k, e) ∷ delete_key k c.entries }

unfoldable pub invalidate : CacheKey → Cache → Cache
unfolding delete_key
invalidate k c = record c { entries = delete_key k c.entries }

-- `c.now().Sub(e.fetchedAt) >= c.ttl`
unfoldable pub expired : Cache → CacheEntry → ℕ → Bool
expired c e now = leb (e.fetched_at + c.ttl) now

abbrev pub is_empty_slice : Payload → Bool
is_empty_slice (presets []) = true
is_empty_slice (configurators []) = true
is_empty_slice (values []) = true
is_empty_slice _ = false

abbrev pub is_unauthorized : ResolverError → Bool
is_unauthorized (catalog_unauthorized _ _) = true
is_unauthorized _ = false

-- The answer that the cache holds for a key at a time, if it is fresh.
fresh_of : Cache → ℕ → Option CacheEntry → Option (Result Payload)
fresh_of c now none = none
fresh_of c now (some e) = if expired c e now then none else some e.outcome

unfoldable pub fresh : Cache → CacheKey → ℕ → Option (Result Payload)
unfolding fresh_of find_key expired
fresh c k now = fresh_of c now (find_key k c.entries)

-- What is done with the outcome of a fetch, at the time when it is stored.
pub settle : CacheKey → ℕ → Result Payload → Cache → Cache × Result Payload
settle k stored_at (err x) c =
    if is_unauthorized x
    then (store k (record { outcome = err x; fetched_at = stored_at }) c, err x)
    else (c, err x)
settle k stored_at (ok p) c =
    if is_empty_slice p
    then (c, err (catalog_transient none []))
    else (store k (record { outcome = ok p; fetched_at = stored_at }) c, ok p)

-- The times at which one call reads the clock: on the fast path, again inside of `Do`, and when
-- the outcome is stored.
pub record Times : Type 0 where
  pub first : ℕ
  pub again : ℕ
  pub stored : ℕ

-- The new cache, the answer, and whether the fetcher was called.
pub record Reply : Type 0 where
  pub cache : Cache
  pub answer : Result Payload
  pub fetched : Bool

abbrev called : Cache × Result Payload → Reply
called (c, r) = record { cache = c; answer = r; fetched = true }

slow_path : CacheKey → Times → Result Payload → Cache → Option (Result Payload) → Reply
slow_path k t outcome c (some r) = record { cache = c; answer = r; fetched = false }
slow_path k t outcome c none = called (settle k t.stored outcome c)

fast_path : CacheKey → Times → Result Payload → Cache → Option (Result Payload) → Reply
unfolding slow_path
fast_path k t outcome c (some r) = record { cache = c; answer = r; fetched = false }
fast_path k t outcome c none = slow_path k t outcome c (fresh c k t.again)

-- `outcome` is what the fetcher returns if it is called.
unfoldable pub get_or_fetch : CacheKey → Times → Result Payload → Cache → Reply
unfolding fast_path slow_path settle
get_or_fetch k t outcome c = fast_path k t outcome c (fresh c k t.first)
