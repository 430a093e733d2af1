-- ===== src/Resolver/Lookup.antt =====
-- internal/controller/shared/resolver/resolve.go, with the registry and `classifyUpstream` of
-- dimensions.go: the one operation that the controllers call. `lower` and `quote` are
-- `unicode.ToLower` and `%q` of the Go library, `client` the outcomes of the wired fetchers.
pub mod Placement
pub mod Listed
pub mod Errors
mod Tests
use crossplane_provider_time.Prelude.{
  ℕ, ◌≤◌, Text, lit, Bool, true, false, not, ◌&&◌, ◌||◌, Option, none, some, List, [], ◌∷◌,
  if◌then◌else◌, same, keep, lookup, contains, leb, ◌==◌,
}
use crossplane_provider_time.Prelude.Int.{ℤ}
use crossplane_provider_time.Resolver.Errors.{
  ResolverError, preset_not_found, dimension_value_not_found, catalog_unauthorized,
  catalog_transient, catalog_http, invalid_input, unknown_dimension, dimension_fetcher_unwired,
  Result, ok, err, ◌>>=◌,
}
use crossplane_provider_time.Resolver.Slug.{PresetEntry, is_empty, match_preset_slug}
use crossplane_provider_time.Resolver.Size.{PresetBySizeInput, match_preset_by_size}
use crossplane_provider_time.Resolver.Configurator.{
  ConfiguratorInput, ConfiguratorOutput, select_configurator,
}
use crossplane_provider_time.Resolver.Cache.{
  PcRef, DimensionKind, preset, configurator, enum, Dimension, CacheKey, Payload, presets,
  configurators, values, Cache, Times, same_kind, get_or_fetch, invalidate,
}

-- The fetch functions of dimensions.go, by name.
pub data Fetcher : Type 0 where
  container_registry_presets s3_bucket_presets server_presets server_os_images : Fetcher
  k8s_master_presets k8s_worker_presets k8s_versions server_configurators : Fetcher
  k8s_master_configurators k8s_worker_configurators router_presets unwired : Fetcher

pub record DimensionDef : Type 0 where
  pub kind : DimensionKind
  pub fetch : Fetcher

abbrev def : DimensionKind → Fetcher → DimensionDef
def k f = record { kind = k; fetch = f }

unfoldable pub default_registry : List (Text × DimensionDef)
default_registry =
    (lit "ContainerRegistryPreset", def preset container_registry_presets)
    ∷ (lit "S3BucketPreset", def preset s3_bucket_presets)
    ∷ (lit "ServerPreset", def preset server_presets)
    ∷ (lit "ServerOSImage", def preset server_os_images)
    ∷ (lit "KubernetesMasterPreset", def preset k8s_master_presets)
    ∷ (lit "KubernetesWorkerPreset", def preset k8s_worker_presets)
    ∷ (lit "KubernetesVersion", def enum k8s_versions)
    ∷ (lit "ServerConfigurator", def configurator server_configurators)
    ∷ (lit "KubernetesMasterConfigurator", def configurator k8s_master_configurators)
    ∷ (lit "KubernetesWorkerConfigurator", def configurator k8s_worker_configurators)
    ∷ (lit "RouterPreset", def preset router_presets)
    ∷ (lit "KubernetesNetworkDriver", def enum unwired)
    ∷ (lit "AvailabilityZone", def enum unwired)
    ∷ []

-- `fetchUnwired` for the stubs, and what the client gives for the rest.
abbrev run_fetcher : (Fetcher → Result Payload) → Fetcher → Result Payload
run_fetcher client unwired = err dimension_fetcher_unwired
run_fetcher client f = client f

-- A response of the upstream: its status and its headers.
pub record Response : Type 0 where
  pub status_code : ℕ
  pub header : Text → Text

abbrev upstream_request_id_headers : List Text
upstream_request_id_headers =
    lit "X-Request-Id" ∷ lit "X-Trace-Id" ∷ lit "X-Correlation-Id" ∷ lit "Request-Id" ∷ []

first_header : (Text → Text) → List Text → Text
first_header header [] = []
first_header header (h ∷ hs) =
    let rest = first_header header hs in if is_empty (header h) then rest else header h

request_id_from_response : Option Response → Text
unfolding first_header
request_id_from_response none = []
request_id_from_response (some r) = first_header r.header upstream_request_id_headers

abbrev status_of : Option Response → ℕ
status_of none = 0
status_of (some r) = r.status_code

unfoldable pub classify_upstream : Option Response → ResolverError
unfolding request_id_from_response
classify_upstream resp =
    let status = status_of resp in
    let rid = request_id_from_response resp in
    if status == 401 || status == 403
    then catalog_unauthorized status rid
    else if leb 500 status || status == 0
    then catalog_transient (some status) rid
    else catalog_http status rid

pub record PresetInput : Type 0 where
  pub slug : Text
  pub zone : Text
  pub location : Text

-- `ResolveInput`; `other` is a value of any other type.
pub data ResolveInput : Type 0 where
  by_slug : PresetInput → ResolveInput
  by_size : PresetBySizeInput → ResolveInput
  by_configurator : ConfiguratorInput → ResolveInput
  by_value : Text → ResolveInput
  other : ResolveInput

-- `ResolveOutput`. An enum that misses also returns its valid values, which the error carries.
pub data ResolveOutput : Type 0 where
  preset_output : ℤ → ResolveOutput
  configurator_output : ConfiguratorOutput → ResolveOutput
  enum_output : ResolveOutput

-- The filter by zone, and the one by location: an entry that names none passes.
abbrev admits : Text → Text → Bool
admits wanted had = is_empty had || same had wanted

pub zoned : Text → List PresetEntry → List PresetEntry
zoned zone entries = if is_empty zone then entries else keep (λ e. admits zone e.zone) entries

pub located : Text → List PresetEntry → List PresetEntry
located location entries =
    if is_empty location then entries else keep (λ e. admits location e.location) entries

-- The location is put into a not-found error.
stamp : Text → Result ℤ → Result ℤ
stamp location (ok id) = ok id
stamp location (err (preset_not_found slug valid d l)) =
    err (preset_not_found slug valid d (if is_empty location then l else location))
stamp location (err x) = err x

abbrev preset_result : Result ℤ → Result ResolveOutput
preset_result r = r >>= λ id. ok (preset_output id)

module _ (lower : ℕ → ℕ) (quote : Text → Text) where
  resolve_slug : PresetInput → List PresetEntry → Text → Result ℤ
  resolve_slug i entries name =
      stamp i.location
        (match_preset_slug lower i.slug (located i.location (zoned i.zone entries)) name)

  resolve_preset : ResolveInput → List PresetEntry → Text → Result ResolveOutput
  resolve_preset (by_slug i) entries name = preset_result (resolve_slug i entries name)
  resolve_preset (by_size i) entries name =
      preset_result (match_preset_by_size quote i entries name)
  resolve_preset _ entries name = err invalid_input

  resolve_enum : Text → List Text → Text → Result ResolveOutput
  resolve_enum value valid name =
      if contains valid value
      then ok enum_output
      else err (dimension_value_not_found value valid name)

  dispatch_kind : DimensionKind → Text → Payload → ResolveInput → Result ResolveOutput
  dispatch_kind preset name (presets entries) i = resolve_preset i entries name
  dispatch_kind configurator name (configurators entries) (by_configurator i) =
      select_configurator lower i name entries >>= λ o. ok (configurator_output o)
  dispatch_kind enum name (values valid) (by_value v) = resolve_enum v valid name
  dispatch_kind _ _ _ _ = err invalid_input

  -- The `switch` on the kind, on a payload that was fetched or cached.
  pub dispatch : Dimension → ResolveInput → Payload → Result ResolveOutput
  dispatch dim input payload = dispatch_kind dim.kind dim.name payload input

  -- The new cache, and the result.
  abbrev Resolved : Type 0
  Resolved = Cache × Result ResolveOutput

  resolve_known :
      (Fetcher → Result Payload)
      → PcRef
      → Dimension
      → ResolveInput
      → Times
      → Cache
      → Option DimensionDef
      → Resolved
  resolve_known client pc dim input t c none = (c, err (unknown_dimension dim.name))
  resolve_known client pc dim input t c (some d) =
      if not (same_kind d.kind dim.kind)
      then (c, err invalid_input)
      else (let r = get_or_fetch (record { pc = pc; dim = dim }) t (run_fetcher client d.fetch) c in
          (r.cache, r.answer >>= dispatch dim input))

  pub resolve :
      (Fetcher → Result Payload) → PcRef → Dimension → ResolveInput → Times → Cache → Resolved
  resolve client pc dim input t c =
      resolve_known client pc dim input t c (lookup dim.name default_registry)
