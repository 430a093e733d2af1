-- ===== src/Resolver/Lookup/Errors.antt =====
-- What becomes of a failing catalog request: `classifyUpstream` of resolver/dimensions.go, the
-- cache, and internal/controller/shared/map_resolver_error.go; and what `Resolve` does to the cache.
use crossplane_provider_time.Prelude.{
  ℕ, ◌≤◌, ◌≡◌, ◌↔◌, ◌⊎◌, inl, inr, ap, Text, true, Option, none, some, arith, Bool-cases, lookup,
}
use crossplane_provider_time.Resolver.Errors.{
  ResolverError, preset_not_found, preset_ambiguous, no_configurator_available,
  dimension_value_not_found, catalog_unauthorized, catalog_transient, Result, err,
}
use crossplane_provider_time.Resolver.Cache.{
  PcRef, Dimension, CacheKey, Payload, Cache, Times, store, fresh, is_unauthorized, get_or_fetch,
  same_kind,
}
use crossplane_provider_time.Resolver.Cache.Call.{
  IsSound, get_or_fetch-stores, get_or_fetch-drops, get_or_fetch-IsSound,
}
use crossplane_provider_time.Resolver.Lookup.{
  Fetcher, DimensionDef, default_registry, run_fetcher, Response, status_of, classify_upstream,
  ResolveInput, resolve_known, resolve,
}

-- The reasons of the `Synced=False` condition.
pub data ConditionReason : Type 0 where
  preset_not_found_reason preset_ambiguous_reason no_configurator_available_reason : ConditionReason
  dimension_value_not_found_reason catalog_unauthorized_reason : ConditionReason
  catalog_transient_reason api_error : ConditionReason

-- `MapResolverErrorToCondition`, without the message.
pub map_resolver_error : ResolverError → ConditionReason
map_resolver_error (preset_not_found _ _ _ _) = preset_not_found_reason
map_resolver_error (preset_ambiguous _ _ _ _) = preset_ambiguous_reason
map_resolver_error (no_configurator_available _ _ _ _) = no_configurator_available_reason
map_resolver_error (dimension_value_not_found _ _ _) = dimension_value_not_found_reason
map_resolver_error (catalog_unauthorized _ _) = catalog_unauthorized_reason
map_resolver_error (catalog_transient _ _) = catalog_transient_reason
map_resolver_error _ = api_error

abbrev pub IsDenied : Option Response → Type 0
IsDenied r = (status_of r ≡ 401) ⊎ (status_of r ≡ 403)

abbrev pub IsOutage : Option Response → Type 0
IsOutage r = (status_of r ≡ 0) ⊎ (500 ≤ status_of r)

is_unauthorized-classify_upstream :
    (r : Option Response) → (is_unauthorized (classify_upstream r) ≡ true) ↔ IsDenied r
unfolding classify_upstream
is_unauthorized-classify_upstream r = ground arith

-- A failing catalog request reports the denial of the catalog exactly at the status 401 or 403,
-- and a transient failure exactly at a status of 500 or more or without a response.
pub map_resolver_error-classify_upstream :
    (r : Option Response)
    → ((map_resolver_error (classify_upstream r) ≡ catalog_unauthorized_reason) ↔ IsDenied r)
      × ((map_resolver_error (classify_upstream r) ≡ catalog_transient_reason) ↔ IsOutage r)
unfolding map_resolver_error classify_upstream
map_resolver_error-classify_upstream r = (ground arith, ground arith)

-- A failure that is not a denial is not kept: a call without a fresh entry fetches, passes the
-- error on, and leaves the cache as it was.
pub get_or_fetch-outage :
    (k : CacheKey) (t : Times) (r : Option Response) (c : Cache)
    → fresh c k t.first ≡ none
    → fresh c k t.again ≡ none
    → ¬ IsDenied r
    → get_or_fetch k t (err (classify_upstream r)) c
      ≡ record { cache = c; answer = err (classify_upstream r); fetched = true }
get_or_fetch-outage k t r c f g h =
    get_or_fetch-drops k t (err (classify_upstream r)) c f g
      (λ u. h ((is_unauthorized-classify_upstream r).0 u))

-- A denial is kept: a call without a fresh entry stores the error for the next calls.
pub get_or_fetch-denied :
    (k : CacheKey) (t : Times) (r : Option Response) (c : Cache)
    → fresh c k t.first ≡ none
    → fresh c k t.again ≡ none
    → IsDenied r
    → (get_or_fetch k t (err (classify_upstream r)) c).cache
      ≡ store k (record { outcome = err (classify_upstream r); fetched_at = t.stored }) c
get_or_fetch-denied k t r c f g h =
    ap (λ x. x.cache)
      (get_or_fetch-stores k t (err (classify_upstream r)) c f g
        ((is_unauthorized-classify_upstream r).1 h))

module _ (lower : ℕ → ℕ) (quote : Text → Text) (client : Fetcher → Result Payload) where
  resolve_known-IsSound :
      (pc : PcRef) (dim : Dimension) (i : ResolveInput) (t : Times) (c : Cache)
      (o : Option DimensionDef)
      → IsSound c
      → IsSound (resolve_known lower quote client pc dim i t c o).0
  unfolding resolve_known
  resolve_known-IsSound pc dim i t c none h = h
  resolve_known-IsSound pc dim i t c (some d) h = elim (Bool-cases (same_kind d.kind dim.kind)) [
    | inl s ↦
        rw s
          (get_or_fetch-IsSound (record { pc = pc; dim = dim }) t (run_fetcher client d.fetch) c h)
    | inr f ↦ rw f h
  ]

  -- `Resolve` keeps the cache sound, whatever the dimension, the input and the upstream: it holds
  -- only payloads with entries and denials of a catalog.
  pub resolve-IsSound :
      (pc : PcRef) (dim : Dimension) (i : ResolveInput) (t : Times) (c : Cache)
      → IsSound c
      → IsSound (resolve lower quote client pc dim i t c).0
  unfolding resolve
  resolve-IsSound pc dim i t c h =
      resolve_known-IsSound pc dim i t c (lookup dim.name default_registry) h
