-- ===== src/Resolver/Slug/Tests.antt =====
-- Runs of resolver/slug.go, and the theorems about it at concrete catalogs.
use crossplane_provider_time.Prelude.{
  ℕ, ◌+◌, ◌≡◌, refl, ◌↔◌, Text, lit, List, [], ◌∷◌, ◌&&◌, inl, inr, arith, leb, if◌then◌else◌, In,
}
use crossplane_provider_time.Prelude.Int.{pos}
use crossplane_provider_time.Resolver.Errors.{ok, err, preset_not_found, preset_ambiguous}
use crossplane_provider_time.Resolver.Slug.{
  PresetEntry, normalize, slug_with_id, match_preset_slug, valid_slugs, slug_run,
}
use crossplane_provider_time.Resolver.Slug.Normal.{IsLower, IsSlug, normalize-IsSlug}
use crossplane_provider_time.Resolver.Slug.Explicit.{match_preset_slug-slug_with_id}
use crossplane_provider_time.Resolver.Slug.Match.{
  NamesNone, Names, match_preset_slug-Names, match_preset_slug-not_found_iff,
}
use crossplane_provider_time.Resolver.Slug.Hint.{HasSlug, match_preset_slug-hint}

-- `unicode.ToLower` on ASCII.
abbrev ascii_lower : ℕ → ℕ
ascii_lower c = if leb b'A' c && leb c b'Z' then c + 32 else c

ascii_lower-IsLower : IsLower ascii_lower
ascii_lower-IsLower = record { word_fixed = λ c w. ground arith; dash_fixed = refl }

abbrev entry : ℕ → Text → Text → PresetEntry
entry id desc_short location = record {
  upstream_id = pos id;
  desc_short = desc_short;
  location = location;
  disk_gb = pos 15;
  storage_class = [];
  zone = [];
}

abbrev twins : List PresetEntry
twins = entry 199 (lit "SSD 15") (lit "ru-1") ∷ entry 200 (lit "ssd-15") (lit "ru-1") ∷ []

abbrev catalog : List PresetEntry
catalog = entry 7 (lit "SSD 15") (lit "ru-1") ∷ entry 8 (lit "ssd-25") (lit "ru-1") ∷ []

normalize_test : normalize ascii_lower (lit "  SSD 15.. NVMe- ") ≡ lit "ssd-15-nvme"
unfolding slug_run
normalize_test = refl

matched_by_full : match_preset_slug ascii_lower (lit "ssd-15-ru-1") catalog [] ≡ ok (pos 7)
unfolding slug_run
matched_by_full = refl

matched_by_short : match_preset_slug ascii_lower (lit "SSD-25") catalog [] ≡ ok (pos 8)
unfolding slug_run
matched_by_short = refl

ambiguous :
    match_preset_slug ascii_lower (lit "ssd-15") twins []
    ≡ err (preset_ambiguous (lit "ssd-15") (pos 199 ∷ pos 200 ∷ []) [] (lit "ssd-15-ru-1-199"))
unfolding slug_run
ambiguous = refl

-- The hint may name an entry that is none of those that collide.
stray : List PresetEntry
stray =
    entry 1 (lit "a-b") (lit "c") ∷ entry 2 (lit "a") (lit "b") ∷ entry 3 (lit "a") (lit "b") ∷ []

stray_hint :
    match_preset_slug ascii_lower (lit "a-b") stray []
    ≡ err (preset_ambiguous (lit "a-b") (pos 2 ∷ pos 3 ∷ []) [] (lit "a-b-c-1"))
unfolding slug_run stray
stray_hint = refl

match_preset_slug-slug_with_id_example :
    match_preset_slug ascii_lower
      (slug_with_id ascii_lower (lit "ssd-15") (lit "ru-1") (pos 200))
      twins
      []
    ≡ ok (pos 200)
unfolding slug_run
match_preset_slug-slug_with_id_example =
    match_preset_slug-slug_with_id ascii_lower ascii_lower-IsLower
      (entry 200 (lit "ssd-15") (lit "ru-1")) 200 twins [] (inr (inl refl)) refl (omega arith) refl

match_preset_slug-Names_example :
    (e : PresetEntry) × In e catalog
    × (e.upstream_id ≡ pos 8)
    × Names ascii_lower (normalize ascii_lower (lit "SSD-25")) e
match_preset_slug-Names_example =
    match_preset_slug-Names ascii_lower (lit "SSD-25") catalog [] (pos 8) matched_by_short

match_preset_slug-not_found_iff_example :
    NamesNone ascii_lower (normalize ascii_lower (lit "hdd")) catalog ↔ (
      match_preset_slug ascii_lower (lit "hdd") catalog []
      ≡ err (
          preset_not_found
            (normalize ascii_lower (lit "hdd"))
            (valid_slugs ascii_lower catalog)
            []
            []))
match_preset_slug-not_found_iff_example =
    match_preset_slug-not_found_iff ascii_lower (lit "hdd") catalog []

match_preset_slug-hint_example :
    (e : PresetEntry) × In e twins
    × HasSlug ascii_lower (normalize ascii_lower (lit "ssd-15")) e
    × (match_preset_slug ascii_lower (lit "ssd-15-ru-1-199") twins [] ≡ ok e.upstream_id)
unfolding slug_run
match_preset_slug-hint_example =
    match_preset_slug-hint ascii_lower (lit "ssd-15") (lit "ssd-15") [] [] (lit "ssd-15-ru-1-199")
      (pos 199 ∷ pos 200 ∷ []) twins ascii_lower-IsLower
      ((199, refl, omega arith), ((200, refl, omega arith), tt)) refl ambiguous

normalize-IsSlug_example : IsSlug (normalize ascii_lower (lit "-- SSD  15 --"))
normalize-IsSlug_example = normalize-IsSlug ascii_lower (lit "-- SSD  15 --")
