-- ===== src/Resolver/Slug.antt =====
-- internal/controller/shared/resolver/slug.go: the slug of a preset, and the search of a preset by
-- its slug. `lower` stands for `unicode.ToLower` of the Go library, on code points.
pub mod Normal
pub mod Explicit
pub mod Match
pub mod Hint
mod Tests
use mathlib.Core.Option
use crossplane_provider_time.Prelude.{
  ℕ, ◌≤◌, ◌<◌, ◌+◌, Text, Bool, true, false, ◌&&◌, ◌||◌, not, Option, none, some, List, [], ◌∷◌,
  ◌++◌, map, ltb, leb, ◌==◌, if◌then◌else◌, same, keep, find, length,
}
use crossplane_provider_time.Prelude.Int.{ℤ, eq_ℤ, pos}
use crossplane_provider_time.Prelude.Decimal.{print_int, parse_int}
use crossplane_provider_time.Resolver.Errors.{Result, ok, err, preset_not_found, preset_ambiguous}

pub record PresetEntry : Type 0 where
  pub upstream_id : ℤ
  pub desc_short : Text
  pub location : Text
  pub disk_gb : ℤ
  pub storage_class : Text
  pub zone : Text

abbrev pub dash : ℕ
dash = b'-'

abbrev pub is_word : ℕ → Bool
is_word c = leb b'a' c && leb c b'z' || leb b'0' c && leb c b'9'

trim_step : ℕ → Text → Text
trim_step c [] = if c == dash then [] else c ∷ []
trim_step c (d ∷ t) = c ∷ d ∷ t

-- `strings.TrimRight(s, "-")`
trim_right : Text → Text
unfolding trim_step
trim_right [] = []
trim_right (c ∷ s) = trim_step c (trim_right s)

unfoldable pub is_empty : Text → Bool
is_empty [] = true
is_empty (_ ∷ _) = false

split_step : ℕ → Text → Option (Text × Text) → Option (Text × Text)
split_step c s none = if c == dash then some ([], s) else none
split_step c s (some (before, behind)) = some (c ∷ before, behind)

-- The last `-` of a text: what stands before it, and what behind.
split_last : Text → Option (Text × Text)
unfolding split_step
split_last [] = none
split_last (c ∷ s) = split_step c s (split_last s)

split_at : Text × Text → Option (Text × ℤ)
split_at (base, suffix) =
    if is_empty base || is_empty suffix
    then none
    else if ltb 18 (length suffix)
    then none
    else elim (parse_int suffix) [ none ↦ none | some id ↦ some (base, id) ]

-- `splitDisambiguator`; `none` is `(s, 0, false)`.
pub split_disambiguator : Text → Option (Text × ℤ)
split_disambiguator s = elim (split_last s) [ none ↦ none | some p ↦ split_at p ]

module _ (lower : ℕ → ℕ) where
  -- The loop of `normalize`, with `prevDash`.
  normalize_from : Bool → Text → Text
  normalize_from prev_dash [] = []
  normalize_from prev_dash (r ∷ s) =
      let c = lower r in
      let word = c ∷ normalize_from false s in
      let more = normalize_from true s in
      if is_word c then word else if prev_dash then more else dash ∷ more

  unfoldable pub normalize : Text → Text
  unfolding normalize_from trim_right
  normalize s = trim_right (normalize_from true s)

  unfoldable pub slugify : Text → Text → Text
  unfolding is_empty
  slugify desc_short location =
      let short = normalize desc_short in
      let loc = normalize location in
      if is_empty short && is_empty loc
      then []
      else if is_empty loc
      then short
      else if is_empty short
      then loc
      else short ++ dash ∷ loc

  unfoldable pub slug_with_id : Text → Text → ℤ → Text
  unfolding is_empty
  slug_with_id desc_short location id =
      let base = slugify desc_short location in
      if is_empty base then print_int id else base ++ dash ∷ print_int id

  unfoldable pub entry_slug : PresetEntry → Text
  entry_slug e = slugify e.desc_short e.location

  simplified_slug : PresetEntry → Text
  simplified_slug e =
      if not (is_empty e.location) && not (is_empty (normalize e.desc_short))
      then normalize e.desc_short
      else entry_slug e

  -- Step 1: the entry of the explicit form `<base>-<id>`.
  pub is_explicit : Text → ℤ → PresetEntry → Bool
  is_explicit base id e = eq_ℤ e.upstream_id id && same (entry_slug e) base

  abbrev find_base : List PresetEntry → Text × ℤ → Option ℤ
  find_base entries (base, id) =
      Option.map (λ e. e.upstream_id) (find (is_explicit base id) entries)

  find_split : List PresetEntry → Option (Text × ℤ) → Option ℤ
  find_split entries none = none
  find_split entries (some split) = find_base entries split

  find_explicit : Text → List PresetEntry → Option ℤ
  unfolding is_explicit find_split
  find_explicit slug entries = find_split entries (split_disambiguator slug)

  -- Steps 2 and 3: the full slug, and the bare short slug where no entry has the full one.
  abbrev pub by_full : Text → List PresetEntry → List PresetEntry
  by_full slug entries = keep (λ e. same (entry_slug e) slug) entries

  abbrev pub by_short : Text → List PresetEntry → List PresetEntry
  by_short slug entries = keep (λ e. same (normalize e.desc_short) slug) entries

  or_short : Text → List PresetEntry → List PresetEntry → List PresetEntry
  or_short slug entries [] = by_short slug entries
  or_short slug entries (e ∷ es) = e ∷ es

  pub slug_matches : Text → List PresetEntry → List PresetEntry
  unfolding or_short
  slug_matches slug entries = or_short slug entries (by_full slug entries)

  abbrev collides : Text → PresetEntry → Bool
  collides slug e = same (entry_slug e) slug || same (normalize e.desc_short) slug

  abbrev hint_of : Option PresetEntry → Text
  hint_of none = []
  hint_of (some e) = slug_with_id e.desc_short e.location e.upstream_id

  -- The suggested explicit form: that of the first entry with the full or the short slug.
  first_hint : Text → List PresetEntry → Text
  first_hint slug entries = hint_of (find (collides slug) entries)

  -- The slugs that the not-found answer lists.
  pub valid_slugs : List PresetEntry → List Text
  unfolding simplified_slug
  valid_slugs entries = keep (λ s. not (is_empty s)) (map simplified_slug entries)

  -- The `switch` on the number of matches.
  pub conclude : Text → Text → List PresetEntry → List PresetEntry → Result ℤ
  conclude slug dimension_id entries [] =
      err (preset_not_found slug (valid_slugs entries) dimension_id [])
  conclude slug dimension_id entries (e ∷ []) = ok e.upstream_id
  conclude slug dimension_id entries (e ∷ e' ∷ es) = err (
      preset_ambiguous slug (map (λ m. m.upstream_id) (e ∷ e' ∷ es)) dimension_id
        (first_hint slug entries))

  -- An explicit form that names an entry is answered first.
  pub answer : Text → Text → List PresetEntry → Option ℤ → Result ℤ
  answer slug dimension_id entries (some id) = ok id
  answer slug dimension_id entries none =
      conclude slug dimension_id entries (slug_matches slug entries)

  unfoldable pub match_preset_slug : Text → List PresetEntry → Text → Result ℤ
  unfolding answer find_explicit conclude slug_matches first_hint
  match_preset_slug slug entries dimension_id =
      let s = normalize slug in answer s dimension_id entries (find_explicit s entries)

-- What a run at concrete inputs has to see through.
unfoldable pub slug_run : Unit {0}
unfolding normalize slugify slug_with_id entry_slug match_preset_slug is_empty split_disambiguator
    split_at split_last split_step print_int parse_int same
slug_run = tt
