-- ===== src/Resolver/Configurator/Tests.antt =====
-- Runs of resolver/select_configurator.go, and its theorems at a concrete catalog.
use crossplane_provider_time.Prelude.{
  ℕ, ◌≡◌, refl, ◌↔◌, inl, inr, Text, lit, List, [], ◌∷◌, arith, In, lookup, contains, has_substring,
  same,
}
use crossplane_provider_time.Prelude.Int.{pos, sub64}
use crossplane_provider_time.Resolver.Errors.{ok, text}
use crossplane_provider_time.Resolver.Configurator.{
  CapacityBound, ConfiguratorEntry, ConfiguratorInput, ConfiguratorOutput, same_value,
  filter_reason, match_filters, match_tags_from, match_tags, axis_reason, match_sizing, passes,
  first_rejected, is_promo_tags, is_promo_entry, or_reject, reject, stage, some_entries, tag_stage,
  standard_stage, candidates, lex, less, insert, max_bound, sort_stable, choose,
  select_configurator,
}
use crossplane_provider_time.Resolver.Configurator.Eligible.{IsEligible}
use crossplane_provider_time.Resolver.Configurator.Choice.{
  IsTightest, select_configurator-IsTightest, select_configurator-total, select_configurator-order,
}

abbrev same_case : ℕ → ℕ
same_case c = c

abbrev cpu_up_to : ℕ → List (Text × CapacityBound)
cpu_up_to n = (lit "cpu", record { min = pos 1; step = pos 2; max = pos n }) ∷ []

abbrev entry : ℕ → ℕ → Text → ConfiguratorEntry
entry id max tag = record {
  upstream_id = pos id;
  filters = (lit "location", text (lit "ru-1")) ∷ [];
  bounds = cpu_up_to max;
  tags = tag ∷ [];
}

abbrev small : ConfiguratorEntry
small = entry 12 9 (lit "ssd_2019")

abbrev catalog : List ConfiguratorEntry
catalog = entry 11 31 (lit "ssd_2019") ∷ small ∷ entry 13 5 (lit "discount35") ∷ []

abbrev input : ConfiguratorInput
input = record {
  filters = (lit "location", text (lit "ru-1")) ∷ [];
  sizing = (lit "cpu", pos 3) ∷ [];
  require_tags = [];
}

abbrev output : ConfiguratorOutput
output = record { upstream_id = pos 12; locked_sizing = (lit "cpu", pos 3) ∷ [] }

select_run : Unit {0}
unfolding same_value filter_reason match_filters match_tags_from match_tags axis_reason match_sizing
    passes first_rejected is_promo_tags is_promo_entry or_reject reject stage some_entries tag_stage
    standard_stage candidates lex less insert max_bound sort_stable choose select_configurator
    lookup contains has_substring same sub64
select_run = tt

tightest_is_chosen : select_configurator same_case input [] catalog ≡ ok output
unfolding select_run
tightest_is_chosen = refl

select_configurator-IsTightest_example :
    (e : ConfiguratorEntry) × IsTightest same_case input [] catalog e
    × (pos 12 ≡ e.upstream_id)
    × ((lit "cpu", pos 3) ∷ [] ≡ input.sizing)
select_configurator-IsTightest_example =
    select_configurator-IsTightest same_case input [] catalog output tightest_is_chosen

small-IsEligible : IsEligible same_case input small
unfolding select_run
small-IsEligible = record {
  filters = (refl, tt);
  tags = tt;
  sizing = (
    (
      record { min = pos 1; step = pos 2; max = pos 9 },
      refl,
      record { above = omega arith; below = omega arith; aligned = λ _. refl },
    ),
    tt,
  );
  standard = refl;
}

select_configurator-total_example :
    (out : ConfiguratorOutput) × (select_configurator same_case input [] catalog ≡ ok out)
select_configurator-total_example =
    select_configurator-total same_case input [] catalog small (inr (inl refl)) small-IsEligible

abbrev doubled : List ConfiguratorEntry
doubled = small ∷ catalog

catalog-doubled : (x : ConfiguratorEntry) → In x catalog ↔ In x doubled
catalog-doubled x = ((λ h. inr h), (λ h. elim h [ inl e ↦ inr (inl e) | inr i ↦ i ]))

select_configurator-order_example : select_configurator same_case input [] doubled ≡ ok output
select_configurator-order_example =
    select_configurator-order same_case input [] catalog doubled output catalog-doubled
      tightest_is_chosen
