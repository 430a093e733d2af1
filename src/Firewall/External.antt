-- ===== src/Firewall/External.antt =====
-- The handlers of internal/controller/network/firewall_external.go: `Observe`, `Create`, `Update`
-- and `Delete`. The type assertion on the managed resource is left to the types.
use crossplane_provider_time.Prelude.{
  ℕ, Text, lit, List, [], ◌∷◌, map, Option, none, some, Bool, true, false, not, ◌&&◌, ◌||◌,
  if◌then◌else◌, same, length, find,
}
use crossplane_provider_time.Firewall.{
  RulePayload, ServiceAttachment, FirewallResource, FirewallGroup, Firewall, FirewallApi, available,
  creating, deleting, invalid_configuration, immutable_field_change, not_found, duplicate_rule,
  immutable_field, Outcome, returned, failed,
}
use crossplane_provider_time.Firewall.World.{
  Handler, ◌>>=◌, ◌>>◌, attempt, done, fail, call, modify, each, set_ready, warn,
}
use crossplane_provider_time.Firewall.Desired.{
  text_or_empty, effective_policy, sorted_values, desired_attach_set, desired_rule_set,
  rules_converged, attach_converged,
}
use crossplane_provider_time.Firewall.Reconcile.{
  max_mutations, attach, create_rule, reconcile_rules, reconcile_attachments,
}

-- `managed.ExternalObservation`
pub record ExternalObservation : Type 0 where
  pub resource_exists : Bool
  pub up_to_date : Bool

abbrev missing : ExternalObservation
missing = record { resource_exists = false; up_to_date = false }

-- A time that is not empty replaces the one in the status.
unfoldable pub or_keep : Text → Option Text → Option Text
or_keep [] old = old
or_keep (c ∷ s) old = some (c ∷ s)

abbrev to_attachment : FirewallResource → ServiceAttachment
to_attachment r = record { service_id = r.id; service_type = r.type_name }

unfoldable pub populate_status :
    FirewallGroup → List RulePayload → List FirewallResource → Firewall → Firewall
populate_status g rules resources cr = record cr {
  status = record {
    id = some g.id;
    policy = some g.policy;
    rule_count = some (length rules);
    attached_count = some (length resources);
    created_at = or_keep g.created_at cr.status.created_at;
    updated_at = or_keep g.updated_at cr.status.updated_at;
    rules = rules;
    attached_services = map to_attachment resources;
  };
}

module _ {S : Type 0} {A : Type 0} where
  -- `mg`, as a handler gets it.
  abbrev pub with_cr : (Firewall → Handler S A) → Handler S A
  with_cr f w = f w.cr w

module _ {S : Type 0} where
  unfoldable pub reject_duplicate : {A : Type 0} → Handler S A
  reject_duplicate = warn invalid_configuration >> fail duplicate_rule

  -- `FirstImmutableDiff` on the policy compares without the spaces around it.
  unfoldable pub reject_immutable : {A : Type 0} → Handler S A
  reject_immutable = warn immutable_field_change >> fail (immutable_field (lit "policy"))

module _ {S : Type 0} (api : FirewallApi S) (lower : ℕ → ℕ) (trim : Text → Text) where
  unfoldable pub up_to_date :
      Firewall → FirewallGroup → List RulePayload → List FirewallResource → Bool
  up_to_date cr group rules resources =
      let desired = desired_rule_set lower cr in
      not desired.1
      && same group.name cr.spec.name
      && same group.description (text_or_empty cr.spec.description)
      && same group.policy (effective_policy cr)
      && rules_converged lower desired.0 rules
      && attach_converged (desired_attach_set cr) resources

  -- `Observe` once the group is read.
  unfoldable pub observe_group : Firewall → Outcome FirewallGroup → Handler S ExternalObservation
  observe_group cr (failed not_found) = done missing
  observe_group cr (failed e) = fail e
  observe_group cr (returned group) = do
    rules ← call (api.list_firewall_rules cr.external_name)
    resources ← call (api.list_firewall_resources cr.external_name)
    modify (populate_status group rules resources)
    set_ready available
    done (record { resource_exists = true; up_to_date = up_to_date cr group rules resources })

  unfoldable pub observe_id : Firewall → Text → Handler S ExternalObservation
  observe_id cr [] = done missing
  observe_id cr (c ∷ id) = attempt (call (api.get_firewall_group (c ∷ id))) (observe_group cr)

  unfoldable pub observe : Handler S ExternalObservation
  observe = with_cr (λ cr. observe_id cr cr.external_name)

  -- `Create` where no group has the name.
  unfoldable pub create_new : Firewall → Handler S (Unit {0})
  create_new cr = do
    group ← call (
        api.create_firewall_group cr.spec.name (text_or_empty cr.spec.description)
          (effective_policy cr))
    modify (λ c. record c { external_name = group.id })
    each (create_rule api lower group.id) (sorted_values (desired_rule_set lower cr).0)
    each (attach api lower group.id) (sorted_values (desired_attach_set cr))
    set_ready creating

  unfoldable pub adopt_or_create : Firewall → Option FirewallGroup → Handler S (Unit {0})
  adopt_or_create cr (some group) = do
    modify (λ c. record c { external_name = group.id })
    set_ready creating
  adopt_or_create cr none = create_new cr

  unfoldable pub create_unique : Firewall → Handler S (Unit {0})
  create_unique cr = do
    groups ← call api.list_firewall_groups
    adopt_or_create cr (find (λ g. same g.name cr.spec.name) groups)

  unfoldable pub create : Handler S (Unit {0})
  create =
      with_cr (λ cr. if (desired_rule_set lower cr).1 then reject_duplicate else create_unique cr)

  -- `Update` once the group is read and its policy is the desired one.
  unfoldable pub patch_group : Firewall → FirewallGroup → Handler S (Unit {0})
  patch_group cr group =
      if not (same group.name cr.spec.name)
        || not (same group.description (text_or_empty cr.spec.description))
      then call (
          api.patch_firewall_group cr.external_name cr.spec.name
            (text_or_empty cr.spec.description))
      else done tt

  unfoldable pub update_group : Firewall → FirewallGroup → Handler S (Unit {0})
  update_group cr group = do
    patch_group cr group
    budget ← reconcile_rules api lower cr cr.external_name max_mutations
    reconcile_attachments api lower cr cr.external_name budget
    done tt

  unfoldable pub update_checked : Firewall → FirewallGroup → Handler S (Unit {0})
  update_checked cr group =
      if same (trim (effective_policy cr)) (trim group.policy)
      then update_group cr group
      else reject_immutable

  unfoldable pub update : Handler S (Unit {0})
  update = with_cr (λ cr.
      if (desired_rule_set lower cr).1
      then reject_duplicate
      else (call (api.get_firewall_group cr.external_name) >>= update_checked cr))

  unfoldable pub deleted : Outcome (Unit {0}) → Handler S (Unit {0})
  deleted (failed not_found) = done tt
  deleted (failed e) = fail e
  deleted (returned _) = set_ready deleting

  unfoldable pub delete_id : Text → Handler S (Unit {0})
  delete_id [] = done tt
  delete_id (c ∷ id) = attempt (call (api.delete_firewall_group (c ∷ id))) deleted

  unfoldable pub delete : Handler S (Unit {0})
  delete = with_cr (λ cr. delete_id cr.external_name)
