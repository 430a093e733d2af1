-- ===== src/Resolver/Lookup/Tests.antt =====
-- Runs of resolver/resolve.go, and its theorems at a concrete catalog.
use crossplane_provider_time.Prelude.{
  ℕ, ◌≡◌, refl, ◌↔◌, Text, lit, Option, some, List, [], ◌∷◌, same, lookup,
}
use crossplane_provider_time.Prelude.Int.{pos}
use crossplane_provider_time.Resolver.Errors.{Result, ok}
use crossplane_provider_time.Resolver.Slug.{PresetEntry, slug_run}
use crossplane_provider_time.Resolver.Cache.{
  PcRef, preset, Dimension, CacheKey, Payload, presets, Cache, minute, Times, store, fresh, expired,
  find_key, same_key, get_or_fetch,
}
use crossplane_provider_time.Resolver.Cache.Call.{IsSound}
use crossplane_provider_time.Resolver.Lookup.{
  Fetcher, DimensionDef, default_registry, run_fetcher, Response, classify_upstream, PresetInput,
  by_slug, preset_output, zoned, located, stamp, resolve_slug, resolve_preset, dispatch_kind,
  dispatch, resolve_known, resolve,
}
use crossplane_provider_time.Resolver.Lookup.Placement.{IsPlaced, resolve-IsPlaced}
use crossplane_provider_time.Resolver.Lookup.Errors.{
  map_resolver_error, catalog_unauthorized_reason, catalog_transient_reason, IsDenied, IsOutage,
  map_resolver_error-classify_upstream, resolve-IsSound,
}

abbrev same_case : ℕ → ℕ
same_case c = c

abbrev no_quote : Text → Text
no_quote s = s

abbrev entry : ℕ → Text → Text → PresetEntry
entry id desc_short location = record {
  upstream_id = pos id;
  desc_short = desc_short;
  location = location;
  disk_gb = pos 15;
  storage_class = [];
  zone = location;
}

abbrev client : Fetcher → Result Payload
client f = ok (presets (entry 1 (lit "r1") (lit "ru-1") ∷ entry 2 (lit "r1") (lit "ru-3") ∷ []))

abbrev pc : PcRef
pc = record { kind = lit "ProviderConfig"; name = lit "a"; namespace = lit "team" }

abbrev routers : Dimension
routers = record { name = lit "RouterPreset"; kind = preset }

abbrev input : PresetInput
input = record { slug = lit "r1"; zone = lit "ru-3"; location = [] }

abbrev at : ℕ → Times
at n = record { first = n; again = n; stored = n }

abbrev empty : Cache
empty = record { entries = []; ttl = minute }

lookup_run : Unit {0}
unfolding zoned located stamp resolve_slug resolve_preset dispatch_kind dispatch resolve_known
    resolve default_registry lookup same get_or_fetch store fresh expired find_key same_key slug_run
    classify_upstream
lookup_run = tt

zone_decides :
    (resolve same_case no_quote client pc routers (by_slug input) (at 5) empty).1
    ≡ ok (preset_output (pos 2))
unfolding lookup_run
zone_decides = refl

resolve-IsPlaced_example :
    (d : DimensionDef) × (lookup routers.name default_registry ≡ some d)
    × (entries : List PresetEntry) × ((get_or_fetch
          (record { pc = pc; dim = routers })
          (at 5)
          (run_fetcher client d.fetch)
          empty).answer
        ≡ ok (presets entries))
    × (e : PresetEntry) × IsPlaced same_case no_quote input entries (pos 2) e
resolve-IsPlaced_example =
    resolve-IsPlaced same_case no_quote client pc routers input (at 5) empty (pos 2) zone_decides

resolve-IsSound_example :
    IsSound (resolve same_case no_quote client pc routers (by_slug input) (at 5) empty).0
resolve-IsSound_example =
    resolve-IsSound same_case no_quote client pc routers (by_slug input) (at 5) empty tt

abbrev bad_gateway : Option Response
bad_gateway = some (record { status_code = 502; header = λ h. h })

abbrev key : CacheKey
key = record { pc = pc; dim = routers }

map_resolver_error-classify_upstream_example :
    ((map_resolver_error (classify_upstream bad_gateway) ≡ catalog_unauthorized_reason)
      ↔ IsDenied bad_gateway)
    × ((map_resolver_error (classify_upstream bad_gateway) ≡ catalog_transient_reason)
        ↔ IsOutage bad_gateway)
map_resolver_error-classify_upstream_example = map_resolver_error-classify_upstream bad_gateway
