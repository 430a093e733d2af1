-- ===== src/Resolver/Size/Tests.antt =====
-- Runs of resolver/match_size.go, and its theorems at a concrete catalog.
use crossplane_provider_time.Prelude.{◌≡◌, refl, ◌↔◌, Text, lit, List, [], ◌∷◌, ◌++◌, In, same, map}
use crossplane_provider_time.Prelude.Int.{ℤ, pos}
use crossplane_provider_time.Resolver.Errors.{ok, err, preset_not_found}
use crossplane_provider_time.Resolver.Slug.{PresetEntry, is_empty}
use crossplane_provider_time.Resolver.Size.{
  PresetBySizeInput, conclude, describe_entry, size_slug, match_preset_by_size,
}
use crossplane_provider_time.Resolver.Size.Laws.{
  Fits, IsOnly, FitsNone, match_preset_by_size_unique, match_preset_by_size-not_found_iff,
}

abbrev plain_quote : Text → Text
plain_quote s = lit "'" ++ s ++ lit "'"

abbrev entry : ℤ → ℤ → Text → PresetEntry
entry id size class = record {
  upstream_id = id;
  desc_short = [];
  location = lit "ru-1";
  disk_gb = size;
  storage_class = class;
  zone = [];
}

abbrev catalog : List PresetEntry
catalog = entry (pos 4) (pos 10) (lit "hot") ∷ entry (pos 5) (pos 10) (lit "cold") ∷ []

abbrev cold_ten : PresetBySizeInput
cold_ten = record { disk_gb = pos 10; location = []; storage_class = lit "cold" }

cold_is_found : match_preset_by_size plain_quote cold_ten catalog [] ≡ ok (pos 5)
unfolding match_preset_by_size conclude is_empty same
cold_is_found = refl

match_preset_by_size_unique_example :
    (e : PresetEntry) × In e catalog
    × Fits cold_ten e
    × (e.upstream_id ≡ pos 5)
    × IsOnly cold_ten e catalog
match_preset_by_size_unique_example =
    match_preset_by_size_unique plain_quote cold_ten [] catalog (pos 5) cold_is_found

match_preset_by_size-not_found_iff_example : FitsNone cold_ten catalog ↔ (
    match_preset_by_size plain_quote cold_ten catalog []
    ≡ err (preset_not_found (size_slug plain_quote cold_ten) (map describe_entry catalog) [] []))
match_preset_by_size-not_found_iff_example =
    match_preset_by_size-not_found_iff plain_quote cold_ten [] catalog
