-- ===== src/Location/Placement.antt =====
-- `ResolvePlacement` of internal/controller/shared/azlocation.go.
use crossplane_provider_time.Prelude.{
  ◌≡◌, refl, sym, subst, ap, ◌⊎◌, inl, inr, Text, List, [], ◌∷◌, Option, some, contains,
  contains_iff, lookup, In, Bool-cases, same,
}
use crossplane_provider_time.Location.{
  Entry, Place, static_locations, Located, found, refused, unknown_zone, or_unknown, index_zones,
  index_locations, build_az_to_location, az_to_location, location_zones, zones_of, single_zone,
  default_zone_for_location, check_zone, with_zone, with_location, place, or_empty,
  resolve_placement,
}
use crossplane_provider_time.Location.Index.{IsOrder, az_to_location_iff}

-- A place that agrees with what was asked for, where something was asked for; an empty text is
-- nothing.
pub record IsPlace (asked : Text) (asked_zone : Option Text) (l z : Text) : Type 0 where
  pub zone : In z (location_zones l)
  pub location : (asked ≡ []) ⊎ (asked ≡ l)
  pub az : (or_empty asked_zone ≡ []) ⊎ (or_empty asked_zone ≡ z)

abbrev place_or : Place → Located Place → Place
place_or q (found p) = p
place_or q (refused e) = q

pair_eq :
    (a b c d : Text) → ◌≡◌ {A = Located Place} (found (a, b)) (found (c, d)) → (a ≡ c) × (b ≡ d)
pair_eq a b c d h =
    let p : ◌≡◌ {A = Place} (a, b) (c, d) = ap (place_or (a, b)) h in
    (ap (λ x. x.0) p, ap (λ x. x.1) p)

single_zone-found : (l z : Text) (zs : List Text) → single_zone l zs ≡ found z → zs ≡ z ∷ []
unfolding single_zone
single_zone-found l z [] h = cc
single_zone-found l z (x ∷ []) h = let e : x ≡ z = cc in ap (λ y. y ∷ []) e
single_zone-found l z (x ∷ y ∷ zs) h = cc

check_zone-found :
    (location az l z : Text) (zs : List Text)
    → check_zone location az zs ≡ found (l, z)
    → In az zs × (location ≡ l) × (az ≡ z)
unfolding check_zone
check_zone-found location az l z [] h = cc
check_zone-found location az l z (x ∷ zs) h = elim (Bool-cases (contains (x ∷ zs) az)) [
  | inl t ↦
      let p = pair_eq location az l z (rw t at h) in ((contains_iff (x ∷ zs) az).0 t, p.0, p.1)
  | inr f ↦ let g = rw f at h in cc
]

with_zone-found :
    (location l z : Text) (r : Located Text)
    → with_zone location r ≡ found (l, z)
    → (location ≡ l) × (r ≡ found z)
unfolding with_zone
with_zone-found location l z (refused e) h = cc
with_zone-found location l z (found y) h = let p = pair_eq location y l z h in (p.0, ap found p.1)

with_location-found :
    (az l z : Text) (r : Located Text)
    → with_location az r ≡ found (l, z)
    → (az ≡ z) × (r ≡ found l)
unfolding with_location
with_location-found az l z (refused e) h = cc
with_location-found az l z (found y) h = let p = pair_eq y az l z h in (p.1, ap found p.0)

no_zone_of_none : (z : Text) → ¬ In z (location_zones [])
unfolding location_zones zones_of static_locations lookup same
no_zone_of_none z m = m

empty_is_unknown : az_to_location static_locations [] ≡ refused (unknown_zone [])
unfolding az_to_location build_az_to_location static_locations lookup same index_zones
    index_locations or_unknown
empty_is_unknown = refl

no_empty_zone : (l : Text) → ¬ In [] (location_zones l)
no_empty_zone l m =
    let h = (az_to_location_iff static_locations [] l (λ e. ((λ i. i), (λ i. i)))).1 m in
    let g = empty_is_unknown in cc

module _ (order : List Entry) (is_order : IsOrder order) where
  place-IsPlace :
      (location az l z : Text)
      → place order location az ≡ found (l, z)
      → In z (location_zones l) × ((location ≡ []) ⊎ (location ≡ l)) × ((az ≡ []) ⊎ (az ≡ z))
  unfolding place default_zone_for_location
  place-IsPlace [] [] l z h = cc
  place-IsPlace [] (c ∷ az) l z h =
      let (p, e) = with_location-found (c ∷ az) l z _ h in
      (
        subst (λ y. In y (location_zones l)) p ((az_to_location_iff order (c ∷ az) l is_order).0 e),
        inl refl,
        inr p,
      )
  place-IsPlace (c ∷ location) [] l z h =
      let (p, e) = with_zone-found (c ∷ location) l z _ h in
      let q = single_zone-found (c ∷ location) z _ e in
      (subst (λ y. In z (location_zones y)) p (subst (In z) (sym q) (inl refl)), inr p, inl refl)
  place-IsPlace (c ∷ location) (d ∷ az) l z h =
      let (m, p, q) = check_zone-found (c ∷ location) (d ∷ az) l z _ h in
      (
        subst (λ y. In z (location_zones y)) p
            (subst (λ y. In y (location_zones (c ∷ location))) q m),
        inr p,
        inr q,
      )

  -- The place that `ResolvePlacement` gives is a zone with its own location, and agrees with the
  -- location and the zone that were asked for, where they were, in whatever order the table is met
  -- when the index is built.
  pub resolve_placement-IsPlace :
      (location : Text) (az : Option Text) (l z : Text)
      → resolve_placement order location az ≡ found (l, z)
      → IsPlace location az l z
  unfolding resolve_placement
  resolve_placement-IsPlace location az l z h =
      let r = place-IsPlace location (or_empty az) l z h in
      record { zone = r.0; location = r.1; az = r.2 }

  place-both :
      (l z : Text)
      → ¬ (l ≡ [])
      → ¬ (z ≡ [])
      → In z (location_zones l)
      → place order l z ≡ found (l, z)
  unfolding place check_zone
  place-both [] z p q m = absurd (p refl)
  place-both (c ∷ l) [] p q m = absurd (q refl)
  place-both (c ∷ l) (d ∷ z) p q m = checked (location_zones (c ∷ l)) m
    where
      checked :
          (zs : List Text) → In (d ∷ z) zs → check_zone (c ∷ l) (d ∷ z) zs ≡ found (c ∷ l, d ∷ z)
      checked [] n = absurd n
      checked (x ∷ zs) n = rw ((contains_iff (x ∷ zs) (d ∷ z)).1 n) refl

  -- The place is a fixed point: to ask for the location and the zone that were found finds them
  -- again, in whatever order the table is met when the index is built.
  pub resolve_placement-again :
      (location : Text) (az : Option Text) (l z : Text)
      → resolve_placement order location az ≡ found (l, z)
      → resolve_placement order l (some z) ≡ found (l, z)
  unfolding resolve_placement
  resolve_placement-again location az l z h =
      let m = (place-IsPlace location (or_empty az) l z h).0 in
      place-both l z (λ e. no_zone_of_none z (subst (λ y. In z (location_zones y)) e m))
        (λ e. no_empty_zone l (subst (λ y. In y (location_zones l)) e m)) m
