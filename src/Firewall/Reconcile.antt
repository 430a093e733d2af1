-- ===== src/Firewall/Reconcile.antt =====
-- The writes that bring the rules and the attachments of a group to the desired state:
-- `reconcileRules`, `reconcileAttachments`, `attach` and `boundElsewhere` of
-- internal/controller/network/firewall_external.go.
use crossplane_provider_time.Prelude.{
  ℕ, zero, suc, Text, List, [], ◌∷◌, map, Option, none, some, if◌then◌else◌, same, contains,
}
use crossplane_provider_time.Firewall.{
  Rule, RulePayload, ServiceAttachment, FirewallResource, Firewall, FirewallApi, conflict,
  service_conflict, Outcome, returned, failed,
}
use crossplane_provider_time.Firewall.World.{Handler, ◌>>=◌, ◌>>◌, attempt, done, fail, call, warn}
use crossplane_provider_time.Firewall.Desired.{
  keys, attach_key, resource_key, normalize_type, sorted_values, desired_attach_set, rule_key,
  payload_key, desired_rule_set,
}

-- `maxFirewallMutationsPerReconcile`
abbrev pub max_mutations : ℕ
max_mutations = 8

-- How a loop over what is upstream ends: out of budget, or at its end with the budget that is left.
pub data Progress : Type 0 where
  stopped : Progress
  ended : ℕ → Progress

module _ {S : Type 0} {X : Type 0} (key : X → Text) (write : X → Handler S (Unit {0})) where
  -- The loop over what is upstream: what is not wanted is removed.
  unfoldable pub remove_unwanted : List Text → List X → ℕ → Handler S Progress
  remove_unwanted wanted [] budget = done (ended budget)
  remove_unwanted wanted (x ∷ xs) zero = done stopped
  remove_unwanted wanted (x ∷ xs) (suc b) =
      let kept = remove_unwanted wanted xs (suc b) in
      let removed = write x >> remove_unwanted wanted xs b in
      if contains wanted (key x) then kept else removed

  -- The loop over what is desired: what is not there is added. The budget that is left is returned.
  unfoldable pub add_missing : List Text → List X → ℕ → Handler S ℕ
  add_missing have [] budget = done budget
  add_missing have (x ∷ xs) zero = done zero
  add_missing have (x ∷ xs) (suc b) =
      let kept = add_missing have xs (suc b) in
      let added = write x >> add_missing have xs b in if contains have (key x) then kept else added

-- The second loop is not reached where the first one returned.
unfoldable pub unless_stopped : {S : Type 0} → (ℕ → Handler S ℕ) → Progress → Handler S ℕ
unless_stopped next stopped = done zero
unless_stopped next (ended budget) = next budget

-- The first group of the list that is another one.
unfoldable pub other_group : Text → List Text → Option Text
other_group group [] = none
other_group group (g ∷ gs) = if same g group then other_group group gs else some g

module _ {S : Type 0} (api : FirewallApi S) (lower : ℕ → ℕ) where
  -- A failed lookup counts as no conflict.
  unfoldable pub elsewhere : Text → Outcome (List Text) → Handler S (Option Text)
  elsewhere group (failed e) = done none
  elsewhere group (returned groups) = done (other_group group groups)

  unfoldable pub bound_elsewhere : Text → Text → Text → Handler S (Option Text)
  unfolding elsewhere
  bound_elsewhere group service service_type =
      attempt (call (api.get_service_firewall_groups service_type service)) (elsewhere group)

  unfoldable pub link_unless_bound : Text → ServiceAttachment → Option Text → Handler S (Unit {0})
  link_unless_bound group a (some other) = do
    warn service_conflict
    fail (conflict (normalize_type a.service_type) a.service_id other)
  link_unless_bound group a none =
      call (api.link_firewall_resource group a.service_id (normalize_type a.service_type))

  unfoldable pub attach : Text → ServiceAttachment → Handler S (Unit {0})
  unfolding link_unless_bound
  attach group a = do
    other ← bound_elsewhere group a.service_id (normalize_type a.service_type)
    link_unless_bound group a other

  abbrev pub create_rule : Text → Rule → Handler S (Unit {0})
  create_rule group r = call (api.create_firewall_rule group r)

  abbrev pub delete_rule : Text → RulePayload → Handler S (Unit {0})
  delete_rule group r = call (api.delete_firewall_rule group r.id)

  abbrev pub unlink : Text → FirewallResource → Handler S (Unit {0})
  unlink group r = call (api.unlink_firewall_resource group r.id (normalize_type r.type_name))

  -- The two loops, on what the upstream listed.
  unfoldable pub reconcile_rule_list :
      List (Text × Rule) → Text → ℕ → List RulePayload → Handler S ℕ
  reconcile_rule_list desired group budget observed = do
    progress ←
        remove_unwanted (payload_key lower) (delete_rule group) (keys desired) observed budget
    unless_stopped
        (add_missing (rule_key lower) (create_rule group) (map (payload_key lower) observed)
          (sorted_values desired))
        progress

  -- Both return the budget that is left.
  unfoldable pub reconcile_rules : Firewall → Text → ℕ → Handler S ℕ
  reconcile_rules cr group budget = do
    observed ← call (api.list_firewall_rules group)
    reconcile_rule_list (desired_rule_set lower cr).0 group budget observed

  unfoldable pub reconcile_attachment_list :
      List (Text × ServiceAttachment) → Text → ℕ → List FirewallResource → Handler S ℕ
  reconcile_attachment_list desired group budget observed = do
    progress ← remove_unwanted resource_key (unlink group) (keys desired) observed budget
    unless_stopped
        (add_missing attach_key (attach group) (map resource_key observed) (sorted_values desired))
        progress

  unfoldable pub reconcile_attachments : Firewall → Text → ℕ → Handler S ℕ
  reconcile_attachments cr group budget = do
    observed ← call (api.list_firewall_resources group)
    reconcile_attachment_list (desired_attach_set cr) group budget observed
