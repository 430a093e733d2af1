-- ===== src/Resolver/Configurator.antt =====
-- internal/controller/shared/resolver/select_configurator.go: the choice of a configurator by
-- filters, tags, sizes and the tightest fit. `lower` stands for `unicode.ToLower`, which
-- `strings.ToLower` applies to each code point. A Go map is the list of its pairs in the order of
-- one run's loop; the reason that an error names may depend on that order, the answer does not.
pub mod Eligible
pub mod Stages
pub mod Order
pub mod Choice
mod Tests
use crossplane_provider_time.Prelude.{
  ℕ, ◌-◌, ◌^◌, ◌%◌, Text, lit, Bool, true, false, not, ◌&&◌, ◌||◌, Option, none, some, List, [],
  ◌∷◌, map, if◌then◌else◌, same, keep, lookup, contains, has_substring, ◌==◌,
}
use crossplane_provider_time.Prelude.Int.{ℤ, pos, eq_ℤ, ltb_ℤ, sub64, abs}
use crossplane_provider_time.Resolver.Errors.{
  FilterValue, text, flag, int, Reason, no_reason, no_entries, missing_filter, filter_differs,
  missing_tag, axis_not_supported, axis_outside, axis_not_aligned, only_promo,
  ConfiguratorRejection, no_configurator_available, Result, ok, err, invalid_input, ◌>>=◌,
}

pub record CapacityBound : Type 0 where
  pub min : ℤ
  pub step : ℤ
  pub max : ℤ

pub record ConfiguratorEntry : Type 0 where
  pub upstream_id : ℤ
  pub filters : List (Text × FilterValue)
  pub bounds : List (Text × CapacityBound)
  pub tags : List Text

pub record ConfiguratorInput : Type 0 where
  pub filters : List (Text × FilterValue)
  pub sizing : List (Text × ℤ)
  pub require_tags : List Text

pub record ConfiguratorOutput : Type 0 where
  pub upstream_id : ℤ
  pub locked_sizing : List (Text × ℤ)

-- `==` on two values of type `any`.
unfoldable pub same_value : FilterValue → FilterValue → Bool
same_value (text s) (text t) = same s t
same_value (flag true) (flag b) = b
same_value (flag false) (flag b) = not b
same_value (int a) (int b) = eq_ℤ a b
same_value _ _ = false

filter_reason : Text → FilterValue → Option FilterValue → Option Reason
filter_reason k wanted none = some (missing_filter k)
filter_reason k wanted (some had) =
    if same_value had wanted then none else some (filter_differs k had wanted)

-- The three tests: `none` lets the entry pass.
pub match_filters : List (Text × FilterValue) → List (Text × FilterValue) → Option Reason
match_filters have [] = none
match_filters have ((k, wanted) ∷ want) =
    let rest = match_filters have want in
    elim (filter_reason k wanted (lookup k have)) [ none ↦ rest | some reason ↦ some reason ]

pub match_tags_from : List Text → List Text → List Text → Option Reason
match_tags_from all have [] = none
match_tags_from all have (w ∷ want) =
    let rest = match_tags_from all have want in
    if contains have w then rest else some (missing_tag w all)

match_tags : List Text → List Text → Option Reason
unfolding match_tags_from
match_tags have want = match_tags_from want have want

axis_reason : Text → ℤ → Option CapacityBound → Option Reason
axis_reason axis v none = some (axis_not_supported axis)
axis_reason axis v (some b) =
    if ltb_ℤ v b.min || ltb_ℤ b.max v
    then some (axis_outside axis v b.min b.max)
    else if ltb_ℤ (pos 0) b.step && not (abs (sub64 v b.min) % abs b.step == 0)
    then some (axis_not_aligned axis v b.step b.min)
    else none

pub match_sizing : List (Text × CapacityBound) → List (Text × ℤ) → Option Reason
match_sizing bounds [] = none
match_sizing bounds ((axis, v) ∷ sizing) =
    let rest = match_sizing bounds sizing in
    elim (axis_reason axis v (lookup axis bounds)) [ none ↦ rest | some reason ↦ some reason ]

abbrev pub promo_tag_markers : List Text
promo_tag_markers = lit "discount" ∷ lit "promo" ∷ lit "sale" ∷ lit "legacy" ∷ lit "2022" ∷ []

abbrev pub any_marker : Text → List Text → Bool
any_marker t [] = false
any_marker t (m ∷ ms) = has_substring t m || any_marker t ms

-- One filter loop: the entries that pass, and the first rejection.
passes : (ConfiguratorEntry → Option Reason) → ConfiguratorEntry → Bool
passes test e = elim (test e) [ none ↦ true | some _ ↦ false ]

first_rejected :
    (ConfiguratorEntry → Option Reason) → List ConfiguratorEntry → ConfiguratorRejection
first_rejected test [] = record { upstream_id = pos 0; reason = no_reason }
first_rejected test (e ∷ es) =
    let rest = first_rejected test es in
    elim (test e) [
      | none ↦ rest
      | some reason ↦ record { upstream_id = e.upstream_id; reason = reason }
    ]

-- The largest value of an axis; an axis that is absent sorts last.
abbrev bound_or_last : Option CapacityBound → ℤ
bound_or_last none = pos (2 ^ 63 - 1)
bound_or_last (some b) = b.max

max_bound : List (Text × CapacityBound) → Text → ℤ
max_bound bounds axis = bound_or_last (lookup axis bounds)

-- One round of the comparison: the first axis that differs decides.
lex : ℤ → ℤ → Bool → Bool
lex a b rest = if eq_ℤ a b then rest else ltb_ℤ a b

pub less : ConfiguratorEntry → ConfiguratorEntry → Bool
less a b = lex (max_bound a.bounds (lit "cpu")) (max_bound b.bounds (lit "cpu")) (
    lex (max_bound a.bounds (lit "ramMB")) (max_bound b.bounds (lit "ramMB")) (
      lex (max_bound a.bounds (lit "diskGB")) (max_bound b.bounds (lit "diskGB"))
        (ltb_ℤ a.upstream_id b.upstream_id)))

-- `sort.SliceStable`: an element goes before the later ones that are not less.
insert : ConfiguratorEntry → List ConfiguratorEntry → List ConfiguratorEntry
insert x [] = x ∷ []
insert x (y ∷ ys) = let rest = insert x ys in if less y x then y ∷ rest else x ∷ y ∷ ys

pub sort_stable : List ConfiguratorEntry → List ConfiguratorEntry
sort_stable [] = []
sort_stable (x ∷ xs) = insert x (sort_stable xs)

module _ (lower : ℕ → ℕ) where
  is_promo_tags : List Text → Bool
  is_promo_tags [] = false
  is_promo_tags (t ∷ ts) = any_marker (map lower t) promo_tag_markers || is_promo_tags ts

  pub is_promo_entry : ConfiguratorEntry → Bool
  unfolding is_promo_tags
  is_promo_entry e = is_promo_tags e.tags

abbrev first_id : List ConfiguratorEntry → ℤ
first_id [] = pos 0
first_id (e ∷ es) = e.upstream_id

module _ (input : ConfiguratorInput) (dimension_id : Text) where
  reject : ConfiguratorRejection → Result (List ConfiguratorEntry)
  reject r = err (no_configurator_available input.filters input.sizing r dimension_id)

  or_reject : ConfiguratorRejection → List ConfiguratorEntry → Result (List ConfiguratorEntry)
  or_reject r [] = reject r
  or_reject r (e ∷ es) = ok (e ∷ es)

  stage :
      (ConfiguratorEntry → Option Reason) → List ConfiguratorEntry → Result (List ConfiguratorEntry)
  stage test entries = or_reject (first_rejected test entries) (keep (passes test) entries)

  some_entries : List ConfiguratorEntry → Result (List ConfiguratorEntry)
  some_entries entries = or_reject (record { upstream_id = pos 0; reason = no_entries }) entries

  tag_stage : List Text → List ConfiguratorEntry → Result (List ConfiguratorEntry)
  tag_stage [] entries = ok entries
  tag_stage (t ∷ ts) entries = stage (λ e. match_tags e.tags (t ∷ ts)) entries

  -- `survivors[0]`, which would panic on an empty list; `candidates` gives none.
  choose : List ConfiguratorEntry → Result ConfiguratorOutput
  choose [] = err invalid_input
  choose (e ∷ es) = ok (record { upstream_id = e.upstream_id; locked_sizing = input.sizing })

module _ (lower : ℕ → ℕ) (input : ConfiguratorInput) (dimension_id : Text) where
  -- Only the entries of a standard family; `survivors` is not empty.
  standard_stage : List ConfiguratorEntry → Result (List ConfiguratorEntry)
  standard_stage survivors =
      let promo = keep (is_promo_entry lower) survivors in
      or_reject input dimension_id
        (record {
          upstream_id = first_id promo;
          reason = only_promo (map (λ e. e.upstream_id) promo);
        })
        (keep (λ e. not (is_promo_entry lower e)) survivors)

  -- Steps 1 to 2b: the entries from which the choice is made.
  pub candidates : List ConfiguratorEntry → Result (List ConfiguratorEntry)
  candidates entries = do
    all ← some_entries input dimension_id entries
    filtered ← stage input dimension_id (λ e. match_filters e.filters input.filters) all
    tagged ← tag_stage input dimension_id input.require_tags filtered
    survivors ← stage input dimension_id (λ e. match_sizing e.bounds input.sizing) tagged
    standard_stage survivors

  pub select_configurator : List ConfiguratorEntry → Result ConfiguratorOutput
  select_configurator entries = do
    standard ← candidates entries
    choose input dimension_id (sort_stable standard)
