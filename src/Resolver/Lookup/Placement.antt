-- ===== src/Resolver/Lookup/Placement.antt =====
-- A slug resolves only to a preset that may be placed where it was asked for: `Resolve` of
-- resolver/resolve.go.
use crossplane_provider_time.Prelude.{
  ℕ, ◌≡◌, refl, inl, inr, ap, Text, true, Option, none, some, List, [], arith, same_iff, In,
  In-keep, Bool-cases, lookup,
}
use crossplane_provider_time.Prelude.Int.{ℤ}
use crossplane_provider_time.Resolver.Errors.{Result, ok, err, ◌>>=◌, invalid_input}
use crossplane_provider_time.Resolver.Slug.{PresetEntry, is_empty, normalize}
use crossplane_provider_time.Resolver.Slug.Match.{Names, match_preset_slug-Names}
use crossplane_provider_time.Resolver.Size.Laws.{is_empty_iff}
use crossplane_provider_time.Resolver.Cache.{
  PcRef, DimensionKind, preset, configurator, enum, Dimension, Payload, presets, configurators,
  values, Cache, Times, get_or_fetch, same_kind,
}
use crossplane_provider_time.Resolver.Lookup.{
  Fetcher, DimensionDef, default_registry, run_fetcher, PresetInput, by_slug, preset_output, admits,
  zoned, located, stamp, preset_result, resolve_slug, resolve_preset, dispatch_kind, dispatch,
  resolve_known, resolve,
}

-- Nothing was asked for, or the entry names nothing, or it names what was asked for.
pub data Suits (wanted had : Text) : Type 0 where
  unasked : wanted ≡ [] → Suits wanted had
  unnamed : had ≡ [] → Suits wanted had
  named : had ≡ wanted → Suits wanted had

admits-Suits : (wanted had : Text) → admits wanted had ≡ true → Suits wanted had
admits-Suits wanted had h = elim (Bool-cases (is_empty had)) [
  | inl t ↦ unnamed ((is_empty_iff had).0 t)
  | inr f ↦ named ((same_iff had wanted).0 (rw f at h))
]

In-zoned :
    (zone : Text) (e : PresetEntry) (l : List PresetEntry)
    → In e (zoned zone l)
    → In e l × Suits zone e.zone
unfolding zoned
In-zoned zone e l m = elim (Bool-cases (is_empty zone)) [
  | inl t ↦ (rw t at m, unasked ((is_empty_iff zone).0 t))
  | inr f ↦
      let r = In-keep (λ x. admits zone x.zone) e l (rw f at m) in
      (r.0, admits-Suits zone e.zone r.1)
]

In-located :
    (location : Text) (e : PresetEntry) (l : List PresetEntry)
    → In e (located location l)
    → In e l × Suits location e.location
unfolding located
In-located location e l m = elim (Bool-cases (is_empty location)) [
  | inl t ↦ (rw t at m, unasked ((is_empty_iff location).0 t))
  | inr f ↦
      let r = In-keep (λ x. admits location x.location) e l (rw f at m) in
      (r.0, admits-Suits location e.location r.1)
]

stamp-ok : (location : Text) (r : Result ℤ) (id : ℤ) → stamp location r ≡ ok id → r ≡ ok id
unfolding stamp
stamp-ok location (ok n) id h = h
stamp-ok location (err x) id h = ground arith

module _ (lower : ℕ → ℕ) (quote : Text → Text) where
  -- An entry of the catalog that the input may be resolved to, with this id.
  pub record IsPlaced (i : PresetInput) (entries : List PresetEntry) (id : ℤ) (e : PresetEntry)
      : Type 0 where
    pub listed : In e entries
    pub has_id : e.upstream_id ≡ id
    pub in_zone : Suits i.zone e.zone
    pub in_location : Suits i.location e.location
    pub is_named : Names lower (normalize lower i.slug) e

  resolve_slug-IsPlaced :
      (i : PresetInput) (entries : List PresetEntry) (name : Text) (id : ℤ)
      → resolve_slug lower quote i entries name ≡ ok id
      → (e : PresetEntry) × IsPlaced i entries id e
  unfolding resolve_slug
  resolve_slug-IsPlaced i entries name id h =
      let (e, m, p, n) =
        match_preset_slug-Names lower i.slug (located i.location (zoned i.zone entries)) name id
          (stamp-ok i.location _ id h) in
      let l = In-located i.location e (zoned i.zone entries) m in
      let z = In-zoned i.zone e entries l.0 in
      (e, record { listed = z.0; has_id = p; in_zone = z.1; in_location = l.1; is_named = n })

  preset_result-ok : (r : Result ℤ) (id : ℤ) → preset_result r ≡ ok (preset_output id) → r ≡ ok id
  preset_result-ok (ok n) id h = cc
  preset_result-ok (err x) id h = cc

  dispatch_kind-presets :
      (k : DimensionKind) (name : Text) (p : Payload) (i : PresetInput) (id : ℤ)
      → dispatch_kind lower quote k name p (by_slug i) ≡ ok (preset_output id)
      → (entries : List PresetEntry) × (p ≡ presets entries)
        × (resolve_slug lower quote i entries name ≡ ok id)
  unfolding dispatch_kind resolve_preset
  dispatch_kind-presets preset name (presets entries) i id h =
      (entries, refl, preset_result-ok _ id h)
  dispatch_kind-presets preset name (configurators c) i id h = cc
  dispatch_kind-presets preset name (values v) i id h = cc
  dispatch_kind-presets configurator name (presets c) i id h = cc
  dispatch_kind-presets configurator name (configurators c) i id h = cc
  dispatch_kind-presets configurator name (values v) i id h = cc
  dispatch_kind-presets enum name (presets c) i id h = cc
  dispatch_kind-presets enum name (configurators c) i id h = cc
  dispatch_kind-presets enum name (values v) i id h = cc

  -- The answer on which a result rests.
  bind-ok :
      (r : Result Payload) (dim : Dimension) (i : PresetInput) (id : ℤ)
      → (r >>= dispatch lower quote dim (by_slug i)) ≡ ok (preset_output id)
      → (entries : List PresetEntry) × (r ≡ ok (presets entries))
        × (e : PresetEntry) × IsPlaced i entries id e
  unfolding dispatch
  bind-ok (ok p) dim i id h =
      let (entries, eq, s) = dispatch_kind-presets dim.kind dim.name p i id h in
      let (e, placed) = resolve_slug-IsPlaced i entries dim.name id s in
      (entries, ap ok eq, e, placed)
  bind-ok (err x) dim i id h = cc

  resolve_known-IsPlaced :
      (client : Fetcher → Result Payload) (pc : PcRef) (dim : Dimension) (i : PresetInput)
      (t : Times) (c : Cache) (o : Option DimensionDef) (id : ℤ)
      → (resolve_known lower quote client pc dim (by_slug i) t c o).1 ≡ ok (preset_output id)
      → (d : DimensionDef) × (o ≡ some d)
        × (entries : List PresetEntry) × ((get_or_fetch
              (record { pc = pc; dim = dim })
              t
              (run_fetcher client d.fetch)
              c).answer
            ≡ ok (presets entries))
        × (e : PresetEntry) × IsPlaced i entries id e
  unfolding resolve_known
  resolve_known-IsPlaced client pc dim i t c none id h = cc
  resolve_known-IsPlaced client pc dim i t c (some d) id h =
      elim (Bool-cases (same_kind d.kind dim.kind)) [
        | inl s ↦ let r = bind-ok _ dim i id (rw s at h) in (d, refl, r.0, r.1, r.2, r.3)
        | inr f ↦ let g : err invalid_input ≡ ok (preset_output id) = (rw f at h) in cc
      ]

  -- A slug that resolves is served from the payload that the cache or the fetcher of its dimension
  -- gives, and only to an entry of that payload whose zone and location are those that were asked
  -- for, where something was asked for and the entry names one, and which the slug names.
  pub resolve-IsPlaced :
      (client : Fetcher → Result Payload) (pc : PcRef) (dim : Dimension) (i : PresetInput)
      (t : Times) (c : Cache) (id : ℤ)
      → (resolve lower quote client pc dim (by_slug i) t c).1 ≡ ok (preset_output id)
      → (d : DimensionDef) × (lookup dim.name default_registry ≡ some d)
        × (entries : List PresetEntry) × ((get_or_fetch
              (record { pc = pc; dim = dim })
              t
              (run_fetcher client d.fetch)
              c).answer
            ≡ ok (presets entries))
        × (e : PresetEntry) × IsPlaced i entries id e
  unfolding resolve
  resolve-IsPlaced client pc dim i t c id h =
      resolve_known-IsPlaced client pc dim i t c (lookup dim.name default_registry) id h
