-- ===== src/Resolver/Configurator/Eligible.antt =====
-- Which configurators are eligible, and that the filter steps of resolver/select_configurator.go
-- keep exactly these.
use crossplane_provider_time.Prelude.{
  ℕ, ◌%◌, ◌≡◌, refl, ◌↔◌, inl, inr, Text, true, false, Option, none, some, List, [], ◌∷◌, arith,
  same_iff, In, All, lookup, contains, contains_iff, Bool-cases, Option-cases, subst, sym,
}
use crossplane_provider_time.Prelude.Int.{ℤ, pos, eq_ℤ_iff, ltb_ℤ, ◌≤ℤ◌, ◌<ℤ◌, sub64, abs}
use crossplane_provider_time.Resolver.Errors.{FilterValue, text, flag, int}
use crossplane_provider_time.Resolver.Configurator.{
  CapacityBound, ConfiguratorEntry, ConfiguratorInput, same_value, filter_reason, match_filters,
  match_tags_from, axis_reason, match_sizing, is_promo_entry,
}

-- The entry has the wanted value under the wanted key.
abbrev pub HasFilter : List (Text × FilterValue) → Text × FilterValue → Type 0
HasFilter have (k, wanted) = lookup k have ≡ some wanted

-- The value lies within the bounds and on the step, counted from the lower bound.
pub record Admits (b : CapacityBound) (v : ℤ) : Type 0 where
  pub above : b.min ≤ℤ v
  pub below : v ≤ℤ b.max
  pub aligned : pos 0 <ℤ b.step → abs (sub64 v b.min) % abs b.step ≡ 0

-- The entry offers the axis, and admits the value on it.
abbrev pub InBound : List (Text × CapacityBound) → Text × ℤ → Type 0
InBound bounds (axis, v) = (b : CapacityBound) × (lookup axis bounds ≡ some b) × Admits b v

pub record IsEligible (lower : ℕ → ℕ) (input : ConfiguratorInput) (e : ConfiguratorEntry)
    : Type 0 where
  pub filters : All (HasFilter e.filters) input.filters
  pub tags : All (λ t. In t e.tags) input.require_tags
  pub sizing : All (InBound e.bounds) input.sizing
  pub standard : is_promo_entry lower e ≡ false

same_value_iff : (a b : FilterValue) → (same_value a b ≡ true) ↔ (a ≡ b)
unfolding same_value
same_value_iff (text s) (text t) = ground (arith, same_iff s t)
same_value_iff (flag true) (flag b) = ground arith
same_value_iff (flag false) (flag b) = ground arith
same_value_iff (int a) (int b) = ground (arith, eq_ℤ_iff a b)
same_value_iff (text s) (flag b) = ground arith
same_value_iff (text s) (int b) = ground arith
same_value_iff (flag true) (text b) = ground arith
same_value_iff (flag true) (int b) = ground arith
same_value_iff (flag false) (text b) = ground arith
same_value_iff (flag false) (int b) = ground arith
same_value_iff (int s) (text b) = ground arith
same_value_iff (int s) (flag b) = ground arith

filter_reason_iff :
    (k : Text) (w : FilterValue) (o : Option FilterValue)
    → (filter_reason k w o ≡ none) ↔ (o ≡ some w)
unfolding filter_reason
filter_reason_iff k w none = ground arith
filter_reason_iff k w (some h) = ground (arith, same_value_iff h w)

pub match_filters_iff :
    (have want : List (Text × FilterValue))
    → (match_filters have want ≡ none) ↔ All (HasFilter have) want
unfolding match_filters
match_filters_iff have [] = ((λ _. tt), (λ _. refl))
match_filters_iff have ((k, w) ∷ want) =
    ground (arith, filter_reason_iff k w (lookup k have), match_filters_iff have want)

pub match_tags_from_iff :
    (all have want : List Text) → (match_tags_from all have want ≡ none) ↔ All (λ t. In t have) want
unfolding match_tags_from
match_tags_from_iff all have [] = ((λ _. tt), (λ _. refl))
match_tags_from_iff all have (w ∷ want) =
    let tag = contains_iff have w in
    let ih = match_tags_from_iff all have want in
    elim (Bool-cases (contains have w)) [
      | inl t ↦ rw t ((λ h. (tag.0 t, ih.0 h)), (λ h. ih.1 h.1))
      | inr f ↦ rw f ((λ h. cc), (λ h. let t = tag.1 h.0 in cc))
    ]

reason_of_bound-Admits :
    (axis : Text) (v : ℤ) (b : CapacityBound) → axis_reason axis v (some b) ≡ none → Admits b v
unfolding axis_reason
reason_of_bound-Admits axis v b h = record {
  above = ground arith;
  below = ground arith;
  aligned = λ p. ground arith;
}

Admits-reason_of_bound :
    (axis : Text) (v : ℤ) (b : CapacityBound) → Admits b v → axis_reason axis v (some b) ≡ none
unfolding axis_reason
Admits-reason_of_bound axis v b a = elim (Bool-cases (ltb_ℤ (pos 0) b.step)) [
  | inl t ↦ let k = a.aligned (ground arith) in ground arith
  | inr f ↦ ground arith
]

axis_reason_iff :
    (axis : Text) (v : ℤ) (o : Option CapacityBound)
    → (axis_reason axis v o ≡ none) ↔ ((b : CapacityBound) × (o ≡ some b) × Admits b v)
axis_reason_iff axis v none = (unfold axis_reason in (λ h. cc), (λ h. let e = h.1 in cc))
axis_reason_iff axis v (some b) = (
  (λ h. (b, refl, reason_of_bound-Admits axis v b h)),
  (λ h.
      let p = h.1 in
      let e : b ≡ h.0 = cc in
      Admits-reason_of_bound axis v b (subst (λ c. Admits c v) (sym e) h.2)),
)

pub match_sizing_iff :
    (bounds : List (Text × CapacityBound)) (sizing : List (Text × ℤ))
    → (match_sizing bounds sizing ≡ none) ↔ All (InBound bounds) sizing
unfolding match_sizing
match_sizing_iff bounds [] = ((λ _. tt), (λ _. refl))
match_sizing_iff bounds ((axis, v) ∷ sizing) =
    let here = axis_reason_iff axis v (lookup axis bounds) in
    let ih = match_sizing_iff bounds sizing in
    elim (Option-cases (axis_reason axis v (lookup axis bounds))) [
      | inl n ↦ rw (n, match_sizing) ((λ h. (here.0 n, ih.0 h)), (λ h. ih.1 h.1))
      | inr (r, e) ↦ rw (e, match_sizing) ((λ h. cc), (λ h. let n = here.1 h.0 in cc))
    ]
