-- ===== src/Firewall/Outcomes.antt =====
-- What the handlers of internal/controller/network/firewall_external.go refuse, and what they make
-- of a missing group.
use crossplane_provider_time.Prelude.{
  ℕ, List, ◌≡◌, refl, ◌⊎◌, inl, inr, Text, [], ◌∷◌, map, some, true, false, Bool-cases,
}
use crossplane_provider_time.Firewall.{
  Firewall, FirewallApi, FirewallGroup, RulePayload, FirewallResource, invalid_configuration,
  immutable_field, not_found, duplicate_rule, api_failure, conflict, available, Outcome, returned,
  failed, FirewallError, Reason,
}
use crossplane_provider_time.Firewall.World.{
  modify, set_ready, World, call, bind-returns, ◌>>=◌, attempt,
}
use crossplane_provider_time.Firewall.Desired.{rule_key, desired_rule_set}
use crossplane_provider_time.Firewall.External.{
  create, update, reject_duplicate, observe, ExternalObservation, populate_status, observe_id,
  observe_group, up_to_date,
}
use crossplane_provider_time.Firewall.Keys.{IsDistinct, desired_rule_set-duplicate_iff}

-- The handler refuses: it reports the reason and the error, and leaves the upstream in the state.
pub record IsRefused {S : Type 0} (reason : Reason) (e : FirewallError) (s : S)
    (r : Outcome (Unit {0}) × World S) : Type 0 where
  pub error : r.0 ≡ failed e
  pub condition : r.1.cr.synced ≡ some reason
  pub upstream : r.1.upstream ≡ s

module _ {S : Type 0} (api : FirewallApi S) (lower : ℕ → ℕ) (trim : Text → Text) where
  refused :
      (w : World S) → IsRefused invalid_configuration duplicate_rule w.upstream (reject_duplicate w)
  unfolding reject_duplicate ◌>>=◌
  refused w = record { error = refl; condition = refl; upstream = refl }

  has_duplicate :
      (cr : Firewall)
      → ¬ IsDistinct (map (rule_key lower) cr.spec.rules)
      → (desired_rule_set lower cr).1 ≡ true
  has_duplicate cr h = elim (Bool-cases (desired_rule_set lower cr).1) [
    | inl t ↦ t
    | inr f ↦ absurd (h ((desired_rule_set-duplicate_iff lower cr).0 f))
  ]

  -- A specification in which two rules have one key is refused by `Create` and by `Update`, before
  -- any call of the upstream, with the reason of an invalid configuration.
  pub duplicate-IsRefused :
      (w : World S)
      → ¬ IsDistinct (map (rule_key lower) w.cr.spec.rules)
      → IsRefused invalid_configuration duplicate_rule w.upstream (create api lower trim w)
        × IsRefused invalid_configuration duplicate_rule w.upstream (update api lower trim w)
  unfolding create update
  duplicate-IsRefused w h = let t = has_duplicate w.cr h in rw t (refused w, refused w)

  -- The group `id` and what belongs to it were read, one after the other, from the state on.
  pub record IsRead (cr : Firewall) (id : Text) (s : S) (o : ExternalObservation) : Type 0 where
    pub group : FirewallGroup
    pub rules : List RulePayload
    pub resources : List FirewallResource
    pub group_is_read : (api.get_firewall_group id s).0 ≡ returned group
    pub rules_are_read :
        (api.list_firewall_rules cr.external_name (api.get_firewall_group id s).1).0
        ≡ returned rules
    pub resources_are_read :
        (api.list_firewall_resources cr.external_name
          (api.list_firewall_rules cr.external_name (api.get_firewall_group id s).1).1).0
        ≡ returned resources
    pub is_there : o ≡ record {
      resource_exists = true;
      up_to_date = up_to_date api lower trim cr group rules resources;
    }

  -- The upstream has no group `id`.
  pub record IsUnknown (id : Text) (s : S) (o : ExternalObservation) : Type 0 where
    pub unknown : (id ≡ []) ⊎ ((api.get_firewall_group id s).0 ≡ failed not_found)
    pub is_missing : o ≡ record { resource_exists = false; up_to_date = false }

  done-value : {A : Type 0} → (a b : A) → ◌≡◌ {A = Outcome A} (returned a) (returned b) → b ≡ a
  done-value a b e = cc

  observed_after :
      (cr : Firewall) (id : Text) (g : FirewallGroup) (w v : World S) (o : ExternalObservation)
      → v.upstream ≡ (api.get_firewall_group id w.upstream).1
      → (api.get_firewall_group id w.upstream).0 ≡ returned g
      → (observe_group api lower trim cr (returned g) v).0 ≡ returned o
      → IsRead cr id w.upstream o
  unfolding observe_group
  observed_after cr id g w v o q r h =
      let (rules, listed, h1) =
        bind-returns (call (api.list_firewall_rules cr.external_name)) _ v o h in
      let v1 = (call (api.list_firewall_rules cr.external_name) v).1 in
      let (resources, attached, h2) =
        bind-returns (call (api.list_firewall_resources cr.external_name)) _ v1 o h1 in
      let v2 = (call (api.list_firewall_resources cr.external_name) v1).1 in
      let (x, stored, h3) = bind-returns (modify (populate_status g rules resources)) _ v2 o h2 in
      let v3 = (modify (populate_status g rules resources) v2).1 in
      let (y, said, h4) = bind-returns (set_ready available) _ v3 o h3 in
      record {
        group = g;
        rules = rules;
        resources = resources;
        group_is_read = r;
        rules_are_read = rw (← q) listed;
        resources_are_read = rw (← q) attached;
        is_there = done-value _ o h4;
      }

  observed_from :
      (cr : Firewall) (id : Text) (r : Outcome FirewallGroup) (w v : World S)
      (o : ExternalObservation)
      → v.upstream ≡ (api.get_firewall_group id w.upstream).1
      → (api.get_firewall_group id w.upstream).0 ≡ r
      → (observe_group api lower trim cr r v).0 ≡ returned o
      → IsUnknown id w.upstream o ⊎ IsRead cr id w.upstream o
  unfolding observe_group
  observed_from cr id (failed not_found) w v o q e h =
      inl (record { unknown = inr e; is_missing = done-value _ o h })
  observed_from cr id (returned g) w v o q e h = inr (observed_after cr id g w v o q e h)
  observed_from cr id (failed (api_failure m)) w v o q e h = cc
  observed_from cr id (failed duplicate_rule) w v o q e h = cc
  observed_from cr id (failed (conflict a b c)) w v o q e h = cc
  observed_from cr id (failed (immutable_field m)) w v o q e h = cc

  observe_id-observes :
      (cr : Firewall) (id : Text) (w : World S) (o : ExternalObservation)
      → (observe_id api lower trim cr id w).0 ≡ returned o
      → IsUnknown id w.upstream o ⊎ IsRead cr id w.upstream o
  unfolding observe_id attempt
  observe_id-observes cr [] w o h =
      inl (record { unknown = inl refl; is_missing = done-value _ o h })
  observe_id-observes cr (c ∷ id) w o h = observed_from cr (c ∷ id) _ w _ o refl refl h

  -- Where `Observe` succeeds, it takes a firewall for one that does not exist only where it has no
  -- external name yet, or where the upstream answered the request for its group with "not found".
  -- Otherwise the group, its rules and its resources were read, none of these calls failing, and the
  -- firewall exists, and is up to date by what was read. So any other failure of a call is an error.
  pub observe-gone :
      (w : World S) (o : ExternalObservation)
      → (observe api lower trim w).0 ≡ returned o
      → IsUnknown w.cr.external_name w.upstream o ⊎ IsRead w.cr w.cr.external_name w.upstream o
  unfolding observe
  observe-gone w o h = observe_id-observes w.cr w.cr.external_name w o h
