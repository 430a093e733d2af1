-- ===== src/Resolver/Size.antt =====
-- internal/controller/shared/resolver/match_size.go: the search of a preset by its disk size.
-- `quote` stands for the verb `%q` of the Go library.
pub mod Laws
mod Tests
use crossplane_provider_time.Prelude.{
  ℕ, Text, lit, Bool, true, false, not, ◌&&◌, ◌||◌, List, [], ◌∷◌, ◌++◌, map, if◌then◌else◌, same,
  keep,
}
use crossplane_provider_time.Prelude.Int.{ℤ, eq_ℤ}
use crossplane_provider_time.Prelude.Decimal.{print_int}
use crossplane_provider_time.Resolver.Errors.{Result, ok, err, preset_not_found, preset_ambiguous}
use crossplane_provider_time.Resolver.Slug.{PresetEntry, is_empty}

pub record PresetBySizeInput : Type 0 where
  pub disk_gb : ℤ
  pub location : Text
  pub storage_class : Text

pub describe_entry : PresetEntry → Text
describe_entry e =
    if not (is_empty e.storage_class) && not (is_empty e.location)
    then print_int e.disk_gb ++ lit "GB/" ++ e.location ++ lit "/" ++ e.storage_class
    else if not (is_empty e.location)
    then print_int e.disk_gb ++ lit "GB/" ++ e.location
    else if not (is_empty e.storage_class)
    then print_int e.disk_gb ++ lit "GB/" ++ e.storage_class
    else print_int e.disk_gb ++ lit "GB"

-- The three `continue`s of the loop.
pub fits : PresetBySizeInput → PresetEntry → Bool
fits i e =
    if not (eq_ℤ e.disk_gb i.disk_gb)
    then false
    else if not (is_empty i.location) && not (same e.location i.location)
    then false
    else if not (is_empty i.storage_class) && not (same e.storage_class i.storage_class)
    then false
    else true

module _ (quote : Text → Text) where
  pub size_slug : PresetBySizeInput → Text
  size_slug i =
      lit "size="
      ++ print_int i.disk_gb
      ++ lit "GB,location="
      ++ quote i.location
      ++ lit ",storageClass="
      ++ quote i.storage_class

  conclude : PresetBySizeInput → List PresetEntry → Text → List PresetEntry → Result ℤ
  conclude i entries dimension_id [] =
      err (preset_not_found (size_slug i) (map describe_entry entries) dimension_id [])
  conclude i entries dimension_id (e ∷ []) = ok e.upstream_id
  conclude i entries dimension_id (e ∷ e' ∷ es) = err (
      preset_ambiguous (size_slug i) (map (λ m. m.upstream_id) (e ∷ e' ∷ es)) dimension_id
        (lit "narrow with location and/or storageClass"))

  unfoldable pub match_preset_by_size : PresetBySizeInput → List PresetEntry → Text → Result ℤ
  unfolding conclude fits
  match_preset_by_size i entries dimension_id =
      conclude i entries dimension_id (keep (fits i) entries)
