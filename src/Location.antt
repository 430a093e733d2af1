-- ===== src/Location.antt =====
-- internal/controller/shared/azlocation.go: the static table of locations and availability zones,
-- and `ResolvePlacement`.
use crossplane_provider_time.Prelude.{
  Text, lit, List, [], ◌∷◌, Option, none, some, Bool, true, false, if◌then◌else◌, same, contains,
  lookup,
}
pub mod Table
pub mod Index
pub mod Placement
mod Tests

-- A location with its zones.
abbrev pub Entry : Type 0
Entry = Text × List Text

unfoldable pub static_locations : List Entry
static_locations =
    (lit "ru-1", lit "spb-1" ∷ lit "spb-2" ∷ lit "spb-3" ∷ lit "spb-4" ∷ lit "spb-5" ∷ [])
    ∷ (lit "ru-2", lit "nsk-1" ∷ [])
    ∷ (lit "ru-3", lit "msk-1" ∷ [])
    ∷ (lit "nl-1", lit "ams-1" ∷ [])
    ∷ (lit "de-1", lit "fra-1" ∷ [])
    ∷ (lit "kz-1", lit "ala-1" ∷ [])
    ∷ (lit "us-4", lit "us-4" ∷ [])
    ∷ (lit "pl-1", lit "pl-1" ∷ [])
    ∷ []

-- The errors of this file, with what their texts name. The list of the zones of an ambiguous
-- location is sorted in its text; here it stands in the order of the table.
pub data LocationError : Type 0 where
  unknown_zone : Text → LocationError
  no_zones : Text → LocationError
  many_zones : Text → List Text → LocationError
  unknown_location : Text → LocationError
  foreign_zone : (zone location : Text) → List Text → LocationError
  location_required : LocationError

pub data Located (A : Type 0) : Type 0 where
  found : A → Located A
  refused : LocationError → Located A

-- The inner loop of `buildAZToLocation`; a later entry takes the place of an earlier one.
unfoldable pub index_zones : Text → List Text → List (Text × Text) → List (Text × Text)
index_zones location [] m = m
index_zones location (az ∷ zones) m = index_zones location zones ((az, location) ∷ m)

unfoldable pub index_locations : List Entry → List (Text × Text) → List (Text × Text)
unfolding index_zones
index_locations [] m = m
index_locations ((location, zones) ∷ entries) m =
    index_locations entries (index_zones location zones m)

-- The loop over the map meets the entries in any order, `order`.
unfoldable pub build_az_to_location : List Entry → List (Text × Text)
unfolding index_locations
build_az_to_location order = index_locations order []

unfoldable pub or_unknown : Text → Option Text → Located Text
or_unknown az none = refused (unknown_zone az)
or_unknown az (some location) = found location

unfoldable pub az_to_location : List Entry → Text → Located Text
unfolding or_unknown
az_to_location order az = or_unknown az (lookup az (build_az_to_location order))

unfoldable pub zones_of : Option (List Text) → List Text
zones_of none = []
zones_of (some zones) = zones

unfoldable pub location_zones : Text → List Text
unfolding zones_of
location_zones location = zones_of (lookup location static_locations)

unfoldable pub single_zone : Text → List Text → Located Text
single_zone location [] = refused (no_zones location)
single_zone location (zone ∷ []) = found zone
single_zone location (zone ∷ zone' ∷ zones) = refused (many_zones location (zone ∷ zone' ∷ zones))

unfoldable pub default_zone_for_location : Text → Located Text
unfolding single_zone
default_zone_for_location location = single_zone location (location_zones location)

-- The location and the zone.
abbrev pub Place : Type 0
Place = Text × Text

-- Both are set.
unfoldable pub check_zone : Text → Text → List Text → Located Place
check_zone location az [] = refused (unknown_location location)
check_zone location az (z ∷ zones) =
    if contains (z ∷ zones) az
    then found (location, az)
    else refused (foreign_zone az location (z ∷ zones))

unfoldable pub with_zone : Text → Located Text → Located Place
with_zone location (refused e) = refused e
with_zone location (found zone) = found (location, zone)

unfoldable pub with_location : Text → Located Text → Located Place
with_location az (refused e) = refused e
with_location az (found location) = found (location, az)

-- An absent or an empty zone is none.
unfoldable pub place : List Entry → Text → Text → Located Place
place order [] [] = refused location_required
place order [] (c ∷ az) = with_location (c ∷ az) (az_to_location order (c ∷ az))
place order (c ∷ location) [] = with_zone (c ∷ location) (default_zone_for_location (c ∷ location))
place order (c ∷ location) (d ∷ az) =
    check_zone (c ∷ location) (d ∷ az) (location_zones (c ∷ location))

unfoldable pub or_empty : Option Text → Text
or_empty none = []
or_empty (some az) = az

unfoldable pub resolve_placement : List Entry → Text → Option Text → Located Place
unfolding place or_empty
resolve_placement order location az = place order location (or_empty az)

-- What a run at a concrete place has to see through.
unfoldable pub location_run : Unit {0}
unfolding same contains lookup static_locations index_zones index_locations build_az_to_location
    or_unknown az_to_location zones_of location_zones single_zone default_zone_for_location
    check_zone with_zone with_location place or_empty resolve_placement
location_run = tt
