-- ===== src/Location/Index.antt =====
-- What the index of internal/controller/shared/azlocation.go holds: `AZToLocation` inverts
-- `LocationZones`.
use crossplane_provider_time.Prelude.{
  ◌≡◌, refl, sym, subst, ap, ◌∙◌, ◌↔◌, ◌⊎◌, inl, inr, Text, List, [], ◌∷◌, Option, none, some, true,
  same, same_iff, contains, lookup, In, Bool-cases, Option-cases,
}
use crossplane_provider_time.Location.{
  Entry, static_locations, found, index_zones, index_locations, build_az_to_location, or_unknown,
  az_to_location, zones_of, location_zones,
}
use crossplane_provider_time.Location.Table.{
  disjoint, free, no_overlap, owner, fresh_names, lookup-In, In-lookup,
}

-- The order in which the loop meets the table.
abbrev pub IsOrder : List Entry → Type 0
IsOrder order = (e : Entry) → In e order ↔ In e static_locations

abbrev HasKey : Text → List (Text × Text) → Type 0
HasKey az m = (l : Text) × (lookup az m ≡ some l)

lookup-cons :
    (az z l k : Text) (m : List (Text × Text))
    → lookup az ((z, l) ∷ m) ≡ some k
    → ((z ≡ az) × (l ≡ k)) ⊎ (lookup az m ≡ some k)
unfolding lookup
lookup-cons az z l k m h = elim (Bool-cases (same z az)) [
  | inl t ↦ let g : some l ≡ some k = (rw t at h) in inl ((same_iff z az).0 t, cc)
  | inr f ↦ inr (rw f at h)
]

lookup-nil : (az l : Text) → lookup az [] ≡ some l → ⊥
unfolding lookup
lookup-nil az l h = cc

cons-HasKey :
    (az z l : Text) (m : List (Text × Text)) → (z ≡ az) ⊎ HasKey az m → HasKey az ((z, l) ∷ m)
unfolding lookup
cons-HasKey az z l m h = elim (Bool-cases (same z az)) [
  | inl t ↦ (l, rw t refl)
  | inr f ↦ elim h [ inl e ↦ let t = (same_iff z az).1 e in cc | inr (k, e) ↦ (k, rw f e) ]
]

index_zones-some :
    (az l k : Text) (zs : List Text) (m : List (Text × Text))
    → lookup az (index_zones l zs m) ≡ some k
    → (In az zs × (l ≡ k)) ⊎ (lookup az m ≡ some k)
unfolding index_zones
index_zones-some az l k [] m h = inr h
index_zones-some az l k (z ∷ zs) m h = elim (index_zones-some az l k zs ((z, l) ∷ m) h) [
  | inl (i, e) ↦ inl (inr i, e)
  | inr g ↦ elim (lookup-cons az z l k m g) [ inl (p, e) ↦ inl (inl p, e) | inr g' ↦ inr g' ]
]

index_zones-HasKey :
    (az l : Text) (zs : List Text) (m : List (Text × Text))
    → In az zs ⊎ HasKey az m
    → HasKey az (index_zones l zs m)
unfolding index_zones
index_zones-HasKey az l [] m (inl i) = absurd i
index_zones-HasKey az l [] m (inr h) = h
index_zones-HasKey az l (z ∷ zs) m (inl (inl e)) =
    index_zones-HasKey az l zs ((z, l) ∷ m) (inr (cons-HasKey az z l m (inl e)))
index_zones-HasKey az l (z ∷ zs) m (inl (inr i)) = index_zones-HasKey az l zs ((z, l) ∷ m) (inl i)
index_zones-HasKey az l (z ∷ zs) m (inr h) =
    index_zones-HasKey az l zs ((z, l) ∷ m) (inr (cons-HasKey az z l m (inr h)))

-- An entry of the list that has the zone.
abbrev Owner : Text → List Entry → Type 0
Owner az es = (e : Entry) × In e es × In az e.1

index_locations-some :
    (az k : Text) (es : List Entry) (m : List (Text × Text))
    → lookup az (index_locations es m) ≡ some k
    → ((e : Entry) × In e es × In az e.1 × (e.0 ≡ k)) ⊎ (lookup az m ≡ some k)
unfolding index_locations
index_locations-some az k [] m h = inr h
index_locations-some az k ((l, zs) ∷ es) m h =
    elim (index_locations-some az k es (index_zones l zs m) h) [
      | inl (e, i, n, p) ↦ inl (e, inr i, n, p)
      | inr g ↦ elim (index_zones-some az l k zs m g) [
        | inl (n, p) ↦ inl ((l, zs), inl refl, n, p)
        | inr g' ↦ inr g'
      ]
    ]

index_locations-HasKey :
    (az : Text) (es : List Entry) (m : List (Text × Text))
    → Owner az es ⊎ HasKey az m
    → HasKey az (index_locations es m)
unfolding index_locations
index_locations-HasKey az [] m (inl o) = absurd o.1
index_locations-HasKey az [] m (inr h) = h
index_locations-HasKey az (x ∷ es) m (inl (e, inl p, n)) =
    index_locations-HasKey az es (index_zones x.0 x.1 m)
      (inr (index_zones-HasKey az x.0 x.1 m (inl (subst (λ y. In az y.1) (sym p) n))))
index_locations-HasKey az (x ∷ es) m (inl (e, inr i, n)) =
    index_locations-HasKey az es (index_zones x.0 x.1 m) (inl (e, i, n))
index_locations-HasKey az (x ∷ es) m (inr h) =
    index_locations-HasKey az es (index_zones x.0 x.1 m)
      (inr (index_zones-HasKey az x.0 x.1 m (inr h)))

static_no_overlap : no_overlap static_locations ≡ true
unfolding no_overlap free disjoint static_locations contains same
static_no_overlap = refl

static_fresh_names : fresh_names static_locations ≡ true
unfolding fresh_names static_locations contains same
static_fresh_names = refl

-- The zones of a location are those of its entry.
location_zones_iff :
    (az l : Text)
    → In az (location_zones l) ↔ ((e : Entry) × In e static_locations × In az e.1 × (e.0 ≡ l))
unfolding location_zones zones_of
location_zones_iff az l = (
  elim (Option-cases (lookup l static_locations)) [
    | inl n ↦ (λ m. absurd (rw n at m))
    | inr (zs, e) ↦ (λ m. ((l, zs), lookup-In static_locations (l, zs) e, (rw e at m), refl))
  ],
  (λ (e, i, n, p).
      let q = In-lookup static_locations e static_fresh_names i in
      subst (λ y. In az (zones_of (lookup y static_locations))) p (rw q n)),
)

or_unknown-found : (az l : Text) (o : Option Text) → (or_unknown az o ≡ found l) ↔ (o ≡ some l)
unfolding or_unknown
or_unknown-found az l none = ((λ h. cc), (λ h. cc))
or_unknown-found az l (some k) = ((λ h. cc), (λ h. cc))

-- `AZToLocation` inverts `LocationZones`, in whatever order the table is met when the index is
-- built: it answers with a location exactly if the zone is one of the location's zones.
pub az_to_location_iff :
    (order : List Entry) (az l : Text)
    → IsOrder order
    → (az_to_location order az ≡ found l) ↔ In az (location_zones l)
unfolding az_to_location build_az_to_location
az_to_location_iff order az l o = (
  (λ h. elim (index_locations-some az l order [] ((or_unknown-found az l _).0 h)) [
    | inl (e, i, n, p) ↦ (location_zones_iff az l).1 (e, (o e).0 i, n, p)
    | inr g ↦ absurd (lookup-nil az l g)
  ]),
  (λ m.
      let (e, i, n, p) = (location_zones_iff az l).0 m in
      let (k, g) = index_locations-HasKey az order [] (inl (e, (o e).1 i, n)) in
      (or_unknown-found az l _).1 (
        g
        ∙ ap some (elim (index_locations-some az k order [] g) [
          | inl (e', i', n', p') ↦
              sym p'
              ∙ ap (λ y. y.0)
                  (owner az static_locations e' e static_no_overlap ((o e').0 i') i n' n)
              ∙ p
          | inr g' ↦ absurd (lookup-nil az k g')
        ]))),
)
