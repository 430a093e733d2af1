-- ===== src/Resolver/Lookup/Listed.antt =====
-- A value resolves only if the catalog lists it: `Resolve` of resolver/resolve.go, for an enum.
use crossplane_provider_time.Prelude.{
  ℕ, ◌≡◌, refl, inl, inr, ap, Text, Option, none, some, List, In, Bool-cases, contains,
  contains_iff, lookup,
}
use crossplane_provider_time.Resolver.Errors.{
  Result, ok, err, ◌>>=◌, invalid_input, dimension_value_not_found,
}
use crossplane_provider_time.Resolver.Cache.{
  PcRef, DimensionKind, preset, configurator, enum, Dimension, Payload, presets, configurators,
  values, Cache, Times, get_or_fetch, same_kind,
}
use crossplane_provider_time.Resolver.Lookup.{
  Fetcher, DimensionDef, default_registry, run_fetcher, by_value, ResolveOutput, resolve_enum,
  resolve_preset, dispatch_kind, dispatch, resolve_known, resolve,
}

module _ (lower : ℕ → ℕ) (quote : Text → Text) where
  resolve_enum-In :
      (v : Text) (valid : List Text) (name : Text) (o : ResolveOutput)
      → resolve_enum lower quote v valid name ≡ ok o
      → In v valid
  unfolding resolve_enum
  resolve_enum-In v valid name o h = elim (Bool-cases (contains valid v)) [
    | inl t ↦ (contains_iff valid v).0 t
    | inr f ↦ let g : err (dimension_value_not_found v valid name) ≡ ok o = (rw f at h) in cc
  ]

  dispatch_kind-values :
      (k : DimensionKind) (name : Text) (p : Payload) (v : Text) (o : ResolveOutput)
      → dispatch_kind lower quote k name p (by_value v) ≡ ok o
      → (valid : List Text) × (p ≡ values valid) × In v valid
  unfolding dispatch_kind resolve_preset
  dispatch_kind-values preset name (presets c) v o h = cc
  dispatch_kind-values preset name (configurators c) v o h = cc
  dispatch_kind-values preset name (values l) v o h = cc
  dispatch_kind-values configurator name (presets c) v o h = cc
  dispatch_kind-values configurator name (configurators c) v o h = cc
  dispatch_kind-values configurator name (values l) v o h = cc
  dispatch_kind-values enum name (presets c) v o h = cc
  dispatch_kind-values enum name (configurators c) v o h = cc
  dispatch_kind-values enum name (values l) v o h = (l, refl, resolve_enum-In v l name o h)

  bind-ok :
      (r : Result Payload) (dim : Dimension) (v : Text) (o : ResolveOutput)
      → (r >>= dispatch lower quote dim (by_value v)) ≡ ok o
      → (valid : List Text) × (r ≡ ok (values valid)) × In v valid
  unfolding dispatch
  bind-ok (ok p) dim v o h =
      let (valid, e, m) = dispatch_kind-values dim.kind dim.name p v o h in (valid, ap ok e, m)
  bind-ok (err x) dim v o h = cc

  -- The answer that the cache or the fetcher of a dimension gives lists the value.
  pub IsListed : (Fetcher → Result Payload) → PcRef → Dimension → Times → Cache → Text → Type 0
  IsListed client pc dim t c v =
      (d : DimensionDef) × (lookup dim.name default_registry ≡ some d)
      × (valid : List Text) × ((get_or_fetch (record { pc = pc; dim = dim }) t
            (run_fetcher client d.fetch) c).answer
          ≡ ok (values valid))
      × In v valid

  resolve_known-IsListed :
      (client : Fetcher → Result Payload) (pc : PcRef) (dim : Dimension) (v : Text) (t : Times)
      (c : Cache) (r : Option DimensionDef) (o : ResolveOutput)
      → lookup dim.name default_registry ≡ r
      → (resolve_known lower quote client pc dim (by_value v) t c r).1 ≡ ok o
      → IsListed client pc dim t c v
  unfolding resolve_known IsListed
  resolve_known-IsListed client pc dim v t c none o e h = cc
  resolve_known-IsListed client pc dim v t c (some d) o e h =
      elim (Bool-cases (same_kind d.kind dim.kind)) [
        | inl s ↦ let r = bind-ok _ dim v o (rw s at h) in (d, e, r.0, r.1, r.2)
        | inr f ↦ let g : err invalid_input ≡ ok o = (rw f at h) in cc
      ]

  -- A value that resolves is listed in the payload that the cache or the fetcher of its dimension
  -- gives.
  pub resolve-IsListed :
      (client : Fetcher → Result Payload) (pc : PcRef) (dim : Dimension) (v : Text) (t : Times)
      (c : Cache) (o : ResolveOutput)
      → (resolve lower quote client pc dim (by_value v) t c).1 ≡ ok o
      → IsListed client pc dim t c v
  unfolding resolve
  resolve-IsListed client pc dim v t c o h =
      resolve_known-IsListed client pc dim v t c (lookup dim.name default_registry) o refl h
