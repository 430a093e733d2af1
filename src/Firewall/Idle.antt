-- ===== src/Firewall/Idle.antt =====
-- `Update` of internal/controller/network/firewall_external.go where there is nothing to do.
use crossplane_provider_time.Prelude.{
  ℕ, suc, ◌≡◌, refl, sym, ap, ◌∙◌, inl, inr, Text, List, [], ◌∷◌, map, true, false, same, same_iff,
  contains_iff, arith,
}
use crossplane_provider_time.Prelude.Run.{bind-ended}
use crossplane_provider_time.Prelude.Distinct.{Subset}
use crossplane_provider_time.Firewall.{
  RulePayload, FirewallResource, FirewallGroup, Firewall, FirewallApi, Outcome, returned,
}
use crossplane_provider_time.Firewall.World.{World, Handler, call}
use crossplane_provider_time.Firewall.Desired.{
  keys, sorted_values, rule_key, payload_key, attach_key, resource_key, desired_rule_set,
  desired_attach_set, rules_converged, attach_converged, effective_policy, text_or_empty,
}
use crossplane_provider_time.Firewall.Reconcile.{
  ended, remove_unwanted, add_missing, unless_stopped, attach, create_rule, delete_rule, unlink,
  reconcile_rule_list, reconcile_rules, reconcile_attachment_list, reconcile_attachments,
  max_mutations,
}
use crossplane_provider_time.Firewall.External.{
  ExternalObservation, up_to_date, observe, patch_group, update_group, update_checked, update,
}
use crossplane_provider_time.Firewall.Keys.{IsDistinct, SameKeys, rules_converged_iff}
use crossplane_provider_time.Firewall.Merge.{SameKeys-desired}
use crossplane_provider_time.Firewall.Attachments.{SameKeys-attachments, attach_converged-SameKeys}
use crossplane_provider_time.Firewall.Outcomes.{IsRead, observe-gone}

-- The requests that `Observe` makes leave the upstream as it is.
pub record IsReadOnly {S : Type 0} (api : FirewallApi S) : Type 0 where
  pub group : (id : Text) (s : S) → (api.get_firewall_group id s).1 ≡ s
  pub rules : (id : Text) (s : S) → (api.list_firewall_rules id s).1 ≡ s
  pub resources : (id : Text) (s : S) → (api.list_firewall_resources id s).1 ≡ s

module _ {S : Type 0} {X : Type 0} (key : X → Text) (write : X → Handler S (Unit {0})) where
  none_unwanted :
      (wanted : List Text) (xs : List X) (b : ℕ) (w : World S)
      → Subset (map key xs) wanted
      → remove_unwanted key write wanted xs (suc b) w ≡ (returned (ended (suc b)), w)
  unfolding remove_unwanted
  none_unwanted wanted [] b w h = refl
  none_unwanted wanted (x ∷ xs) b w h =
      rw ((contains_iff wanted (key x)).1 (h (key x) (inl refl)))
        (none_unwanted wanted xs b w (λ k m. h k (inr m)))

  none_missing :
      (have : List Text) (xs : List X) (b : ℕ) (w : World S)
      → Subset (map key xs) have
      → add_missing key write have xs (suc b) w ≡ (returned (suc b), w)
  unfolding add_missing
  none_missing have [] b w h = refl
  none_missing have (x ∷ xs) b w h =
      rw ((contains_iff have (key x)).1 (h (key x) (inl refl)))
        (none_missing have xs b w (λ k m. h k (inr m)))

subset_of : (ks ls ms : List Text) → SameKeys ks ls → SameKeys ls ms → Subset ks ms
subset_of ks ls ms h g k m = (g k).0 ((h k).0 m)

module _ {S : Type 0} {A : Type 0} where
  called :
      (f : S → Outcome A × S) (w : World S) (a : A)
      → (f w.upstream).0 ≡ returned a
      → (f w.upstream).1 ≡ w.upstream
      → call f w ≡ (returned a, w)
  called f w a h g = λ i. (h i, record w { upstream = g i })

module _ {S : Type 0} (api : FirewallApi S) (lower : ℕ → ℕ) (trim : Text → Text)
    (read_only : IsReadOnly api) where
  rule_list-idle :
      (cr : Firewall) (group : Text) (b : ℕ) (observed : List RulePayload) (w : World S)
      → SameKeys (keys (desired_rule_set lower cr).0) (map (payload_key lower) observed)
      → reconcile_rule_list api lower (desired_rule_set lower cr).0 group (suc b) observed w
        ≡ (returned (suc b), w)
  unfolding reconcile_rule_list unless_stopped
  rule_list-idle cr group b observed w h =
      let desired = (desired_rule_set lower cr).0 in
      bind-ended _ _ w w (ended (suc b)) (
        none_unwanted (payload_key lower) (delete_rule api lower group) (keys desired) observed b w
          (λ k. (h k).1))
      ∙ none_missing (rule_key lower) (create_rule api lower group)
          (map (payload_key lower) observed) (sorted_values desired) b w
          (subset_of _ (keys desired) _ (SameKeys-desired lower cr) h)

  rules-idle :
      (cr : Firewall) (group : Text) (b : ℕ) (observed : List RulePayload) (w : World S)
      → (api.list_firewall_rules group w.upstream).0 ≡ returned observed
      → SameKeys (keys (desired_rule_set lower cr).0) (map (payload_key lower) observed)
      → reconcile_rules api lower cr group (suc b) w ≡ (returned (suc b), w)
  unfolding reconcile_rules
  rules-idle cr group b observed w l h =
      bind-ended _ _ w w observed
        (called (api.list_firewall_rules group) w observed l (read_only.rules group w.upstream))
      ∙ rule_list-idle cr group b observed w h

  attachment_list-idle :
      (cr : Firewall) (group : Text) (b : ℕ) (observed : List FirewallResource) (w : World S)
      → SameKeys (keys (desired_attach_set cr)) (map resource_key observed)
      → reconcile_attachment_list api lower (desired_attach_set cr) group (suc b) observed w
        ≡ (returned (suc b), w)
  unfolding reconcile_attachment_list unless_stopped
  attachment_list-idle cr group b observed w h =
      let desired = desired_attach_set cr in
      bind-ended _ _ w w (ended (suc b)) (
        none_unwanted resource_key (unlink api lower group) (keys desired) observed b w
          (λ k. (h k).1))
      ∙ none_missing attach_key (attach api lower group) (map resource_key observed)
          (sorted_values desired) b w (subset_of _ (keys desired) _ (SameKeys-attachments cr) h)

  attachments-idle :
      (cr : Firewall) (group : Text) (b : ℕ) (observed : List FirewallResource) (w : World S)
      → (api.list_firewall_resources group w.upstream).0 ≡ returned observed
      → SameKeys (keys (desired_attach_set cr)) (map resource_key observed)
      → reconcile_attachments api lower cr group (suc b) w ≡ (returned (suc b), w)
  unfolding reconcile_attachments
  attachments-idle cr group b observed w l h =
      bind-ended _ _ w w observed (
        called (api.list_firewall_resources group) w observed l
          (read_only.resources group w.upstream))
      ∙ attachment_list-idle cr group b observed w h

  -- What was read, and found up to date.
  pub record IsSettled (w : World S) : Type 0 where
    group : FirewallGroup
    rules : List RulePayload
    resources : List FirewallResource
    is_read : (api.get_firewall_group w.cr.external_name w.upstream).0 ≡ returned group
    rules_listed : (api.list_firewall_rules w.cr.external_name w.upstream).0 ≡ returned rules
    resources_listed :
        (api.list_firewall_resources w.cr.external_name w.upstream).0 ≡ returned resources
    compared : up_to_date api lower trim w.cr group rules resources ≡ true

  update-settled :
      (w : World S) (r : IsSettled w)
      → IsDistinct (map (payload_key lower) r.rules)
      → IsDistinct (map resource_key r.resources)
      → update api lower trim w ≡ (returned tt, w)
  unfolding update update_checked update_group patch_group up_to_date
  update-settled w r d a =
      let cr = w.cr in
      let t = r.compared in
      let name : same r.group.name cr.spec.name ≡ true = ground arith in
      let description : same r.group.description (text_or_empty cr.spec.description) ≡ true =
        ground arith in
      let policy : same r.group.policy (effective_policy cr) ≡ true = ground arith in
      let once : (desired_rule_set lower cr).1 ≡ false = ground arith in
      let rules : rules_converged lower (desired_rule_set lower cr).0 r.rules ≡ true =
        ground arith in
      let attached : attach_converged (desired_attach_set cr) r.resources ≡ true = ground arith in
      let trimmed : same (trim (effective_policy cr)) (trim r.group.policy) ≡ true =
        (same_iff _ _).1 (ap trim (sym ((same_iff _ _).0 policy))) in
      rw
        (
          once,
          bind-ended (call (api.get_firewall_group cr.external_name))
              (update_checked api lower trim cr) w w r.group
              (called (api.get_firewall_group cr.external_name) w r.group r.is_read
                (read_only.group cr.external_name w.upstream)),
          trimmed,
          name,
          description,
        )
        (bind-ended _ _ w w tt refl
          ∙ bind-ended _ _ w w max_mutations (
              rules-idle cr cr.external_name 7 r.rules w r.rules_listed
                ((rules_converged_iff lower cr r.rules d).0 rules))
          ∙ bind-ended _ _ w w max_mutations (
              attachments-idle cr cr.external_name 7 r.resources w r.resources_listed
                (attach_converged-SameKeys cr r.resources a attached)))

  read-IsSettled :
      (w : World S) (o : ExternalObservation)
      → IsRead api lower trim w.cr w.cr.external_name w.upstream o
      → o.up_to_date ≡ true
      → IsSettled w
  read-IsSettled w o r u =
      let q = read_only.group w.cr.external_name w.upstream in
      let p = read_only.rules w.cr.external_name w.upstream in
      record {
        group = r.group;
        rules = r.rules;
        resources = r.resources;
        is_read = r.group_is_read;
        rules_listed = rw q at r.rules_are_read;
        resources_listed = rw (q, p) at r.resources_are_read;
        compared = sym (ap (λ x. x.up_to_date) r.is_there) ∙ u;
      }

  observed-IsSettled :
      (w : World S) (o : ExternalObservation)
      → (observe api lower trim w).0 ≡ returned o
      → o.up_to_date ≡ true
      → IsSettled w
  observed-IsSettled w o h u = elim (observe-gone api lower trim w o h) [
    | inl g ↦ let f = g.is_missing in let e : o.up_to_date ≡ false = ap (λ x. x.up_to_date) f in cc
    | inr r ↦ read-IsSettled w o r u
  ]

  -- What is up to date is left alone: where the requests that read leave the upstream as it is,
  -- no two of the rules and no two of the resources that it lists for the firewall have one key, and
  -- `Observe` reports that the firewall is up to date, `Update` succeeds and changes neither the
  -- upstream nor the resource, and emits no event.
  pub update-unchanged :
      (w : World S) (o : ExternalObservation)
      → (observe api lower trim w).0 ≡ returned o
      → o.up_to_date ≡ true
      → ((rules : List RulePayload)
          → (api.list_firewall_rules w.cr.external_name w.upstream).0 ≡ returned rules
          → IsDistinct (map (payload_key lower) rules))
      → ((resources : List FirewallResource)
          → (api.list_firewall_resources w.cr.external_name w.upstream).0 ≡ returned resources
          → IsDistinct (map resource_key resources))
      → update api lower trim w ≡ (returned tt, w)
  update-unchanged w o h u d a =
      let r = observed-IsSettled w o h u in
      update-settled w r (d r.rules r.rules_listed) (a r.resources r.resources_listed)
