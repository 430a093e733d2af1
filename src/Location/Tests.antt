-- ===== src/Location/Tests.antt =====
-- Runs of internal/controller/shared/azlocation.go, and its theorems at concrete places.
use crossplane_provider_time.Prelude.{◌≡◌, refl, ◌↔◌, lit, [], none, some, In}
use crossplane_provider_time.Location.{
  location_run, static_locations, found, refused, many_zones, az_to_location, location_zones,
  resolve_placement,
}
use crossplane_provider_time.Location.Index.{IsOrder, az_to_location_iff}
use crossplane_provider_time.Location.Placement.{
  IsPlace, resolve_placement-IsPlace, resolve_placement-again,
}

table-IsOrder : IsOrder static_locations
table-IsOrder e = ((λ i. i), (λ i. i))

spb_is_in_ru_1 :
    resolve_placement static_locations [] (some (lit "spb-3")) ≡ found (lit "ru-1", lit "spb-3")
unfolding location_run
spb_is_in_ru_1 = refl

nl_has_one_zone :
    resolve_placement static_locations (lit "nl-1") none ≡ found (lit "nl-1", lit "ams-1")
unfolding location_run
nl_has_one_zone = refl

ru_1_has_many_zones :
    resolve_placement static_locations (lit "ru-1") none
    ≡ refused (many_zones (lit "ru-1") (location_zones (lit "ru-1")))
unfolding location_run
ru_1_has_many_zones = refl

az_to_location_iff_example :
    (az_to_location static_locations (lit "msk-1") ≡ found (lit "ru-3"))
    ↔ In (lit "msk-1") (location_zones (lit "ru-3"))
az_to_location_iff_example =
    az_to_location_iff static_locations (lit "msk-1") (lit "ru-3") table-IsOrder

resolve_placement-IsPlace_example : IsPlace [] (some (lit "spb-3")) (lit "ru-1") (lit "spb-3")
resolve_placement-IsPlace_example =
    resolve_placement-IsPlace static_locations table-IsOrder [] (some (lit "spb-3")) (lit "ru-1")
      (lit "spb-3") spb_is_in_ru_1

resolve_placement-again_example :
    resolve_placement static_locations (lit "ru-1") (some (lit "spb-3"))
    ≡ found (lit "ru-1", lit "spb-3")
resolve_placement-again_example =
    resolve_placement-again static_locations table-IsOrder [] (some (lit "spb-3")) (lit "ru-1")
      (lit "spb-3") spb_is_in_ru_1
