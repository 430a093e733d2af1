-- ===== src/Firewall/Tests.antt =====
-- Runs of internal/controller/network/firewall_external.go at a small upstream, and the theorems at
-- it.
use crossplane_provider_time.Prelude.{
  ◌≤◌, ◌≡◌, refl, subst, ◌↔◌, ◌⊎◌, inl, inr, Text, lit, List, [], ◌∷◌, map, true, false, none, same,
  same_iff, arith, In, contains,
}
use crossplane_provider_time.Firewall.{
  Rule, FirewallParameters, Firewall, FirewallResource, duplicate_rule, invalid_configuration,
  returned,
}
use crossplane_provider_time.Firewall.World.{World, attempt, ◌>>=◌}
use crossplane_provider_time.Firewall.Desired.{
  keys, rule_key, payload_key, desired_rule, desired_from, desired_rule_set, rules_converged,
  sorted_values, sort_keys, insert_key, ltb_text, text_or_empty, converged, all_wanted,
  default_if_empty, effective_policy, resource_key, attach_converged, desired_attach_set,
  attach_from,
}
use crossplane_provider_time.Firewall.Reconcile.{reconcile_rules}
use crossplane_provider_time.Firewall.External.{
  observe, observe_id, observe_group, up_to_date, ExternalObservation, create, update,
}
use crossplane_provider_time.Firewall.Keys.{IsDistinct, SameKeys, rules_converged_iff}
use crossplane_provider_time.Firewall.Budget.{update_within_budget}
use crossplane_provider_time.Firewall.Converge.{ids}
use crossplane_provider_time.Firewall.Reach.{changes, HasReached, reconcile_rules-HasReached}
use crossplane_provider_time.Firewall.Outcomes.{
  IsRefused, duplicate-IsRefused, IsUnknown, IsRead, observe-gone,
}
use crossplane_provider_time.Firewall.Idle.{IsReadOnly, update-unchanged}
use crossplane_provider_time.Firewall.Sample.{
  plain, untrimmed, rule, payload, Store, store_api, store_api-IsFaithful, store_api-IsMetered,
}

abbrev spec : Text → List Rule → FirewallParameters
spec policy rules = record {
  name = lit "web";
  description = none;
  policy = policy;
  rules = rules;
  attached_services = [];
}

abbrev firewall : Text → Text → List Rule → Firewall
firewall name policy rules = record {
  external_name = name;
  spec = spec policy rules;
  status = record {
    id = none;
    policy = none;
    rule_count = none;
    attached_count = none;
    created_at = none;
    updated_at = none;
    rules = [];
    attached_services = [];
  };
  ready = none;
  synced = none;
}

abbrev http : Rule
http = rule (lit "80") (lit "0.0.0.0/0")

abbrev https : Rule
https = rule (lit "443") (lit "0.0.0.0/0")

abbrev ssh : Rule
ssh = rule (lit "22") (lit "10.0.0.0/8")

-- The rules for ssh and http are there; those for http and https are wanted.
abbrev before : Store
before = record { rules = payload (lit "1") ssh ∷ payload (lit "2") http ∷ []; writes = 0 }

abbrev world : Firewall → World Store
world cr = record { cr = cr; recorder = true; events = []; upstream = before }

abbrev web : Firewall
web = firewall (lit "g") [] (http ∷ https ∷ [])

-- What a run at concrete inputs has to see through.
unfoldable rule_run : Unit {0}
unfolding same ltb_text text_or_empty default_if_empty rule_key payload_key desired_rule
    desired_from desired_rule_set sorted_values sort_keys insert_key contains
rule_run = tt

one_id : ¬ In (lit "1") (lit "2" ∷ [])
one_id (inl e) =
    let c = (same_iff (lit "2") (lit "1")).1 e in
    let d : same (lit "2") (lit "1") ≡ false = unfold same in refl in cc
one_id (inr m) = m

no_ids_twice : IsDistinct (ids before.rules)
no_ids_twice = (one_id, ((λ m. m), tt))

-- Two changes: the rule for ssh goes, the one for https comes.
two_changes : changes plain (λ s. s.rules) web (world web) ≡ 2
unfolding rule_run
two_changes = refl

two_are_within : changes plain (λ s. s.rules) web (world web) ≤ 8
two_are_within = omega (arith, two_changes)

reconcile_rules-HasReached_example :
    HasReached plain
      (λ s. s.rules)
      web
      (reconcile_rules store_api plain web (lit "g") 8 (world web))
reconcile_rules-HasReached_example =
    reconcile_rules-HasReached store_api plain (lit "g") (λ s. s.rules) store_api-IsFaithful web 8
      (world web) no_ids_twice two_are_within

update_within_budget_example : (update store_api plain untrimmed (world web)).1.upstream.writes ≤ 9
update_within_budget_example =
    update_within_budget store_api (λ s. s.writes) store_api-IsMetered plain untrimmed (world web)

-- Two rules with one key.
abbrev twice : Firewall
twice = firewall (lit "g") [] (http ∷ http ∷ [])

twice-not-IsDistinct : ¬ IsDistinct (map (rule_key plain) twice.spec.rules)
twice-not-IsDistinct d = d.0 (inl refl)

duplicate-IsRefused_example :
    IsRefused invalid_configuration duplicate_rule before
      (create store_api plain untrimmed (world twice))
    × IsRefused invalid_configuration duplicate_rule before
        (update store_api plain untrimmed (world twice))
duplicate-IsRefused_example =
    duplicate-IsRefused store_api plain untrimmed (world twice) twice-not-IsDistinct

rules_converged_iff_example :
    (rules_converged plain (desired_rule_set plain web).0 (payload (lit "1") http ∷ []) ≡ true)
    ↔ SameKeys
        (keys (desired_rule_set plain web).0)
        (map (payload_key plain) (payload (lit "1") http ∷ []))
rules_converged_iff_example =
    rules_converged_iff plain web (payload (lit "1") http ∷ []) ((λ m. m), tt)

-- Two rules upstream with one key hide that a desired rule is missing.
hidden_by_a_repeat :
    rules_converged plain
      (desired_rule_set plain web).0
      (payload (lit "1") http ∷ payload (lit "2") http ∷ [])
    ≡ true
unfolding rule_run rules_converged converged all_wanted
hidden_by_a_repeat = refl

abbrev lost : Firewall
lost = firewall (lit "x") [] []

abbrev nothing : ExternalObservation
nothing = record { resource_exists = false; up_to_date = false }

lost_is_observed : (observe store_api plain untrimmed (world lost)).0 ≡ returned nothing
unfolding observe observe_id observe_group attempt same
lost_is_observed = refl

observe-gone_example :
    IsUnknown store_api plain untrimmed (lit "x") before nothing
    ⊎ IsRead store_api plain untrimmed lost (lit "x") before nothing
observe-gone_example = observe-gone store_api plain untrimmed (world lost) nothing lost_is_observed

-- What is upstream, as it is to be.
abbrev kept : Firewall
kept = firewall (lit "g") [] (ssh ∷ http ∷ [])

abbrev settled : ExternalObservation
settled = record { resource_exists = true; up_to_date = true }

kept_is_observed : (observe store_api plain untrimmed (world kept)).0 ≡ returned settled
unfolding rule_run observe observe_id observe_group attempt up_to_date rules_converged converged
    all_wanted effective_policy attach_converged desired_attach_set attach_from ◌>>=◌
kept_is_observed = refl

store_api-IsReadOnly : IsReadOnly store_api
store_api-IsReadOnly = record {
  group = λ id s. refl;
  rules = λ id s. refl;
  resources = λ id s. refl;
}

other_keys : same (rule_key plain http) (rule_key plain ssh) ≡ false
unfolding rule_run
other_keys = refl

keys_once : IsDistinct (map (payload_key plain) before.rules)
unfolding payload_key
keys_once = (
  (λ m. elim m [
    | inl e ↦
        let t = (same_iff (rule_key plain http) (rule_key plain ssh)).1 e in
        let f = other_keys in cc
    | inr n ↦ n
  ]),
  ((λ m. m), tt),
)

update-unchanged_example : update store_api plain untrimmed (world kept) ≡ (returned tt, world kept)
update-unchanged_example =
    update-unchanged store_api plain untrimmed store_api-IsReadOnly (world kept) settled
      kept_is_observed refl
      (λ l e.
        let q : before.rules ≡ l = cc in
        subst (λ k. IsDistinct (map (payload_key plain) k)) q keys_once)
      (λ l e.
        let q : ◌≡◌ {A = List FirewallResource} [] l = cc in
        subst (λ k. IsDistinct (map resource_key k)) q tt)
