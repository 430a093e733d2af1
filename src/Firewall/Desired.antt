-- ===== src/Firewall/Desired.antt =====
-- The desired state and the comparison with what is upstream: `ruleKey`, `desiredRuleSet`,
-- `rulesConverged`, `attachKey`, `desiredAttachSet`, `attachConverged` and the sorted lists of
-- internal/controller/network/firewall_external.go. `strings.ToLower` maps `lower` over a text.
unfoldable pub use crossplane_provider_time.Prelude.{ltb_text}
use crossplane_provider_time.Prelude.{
  ℕ, Text, lit, List, [], ◌∷◌, ◌++◌, map, Option, none, some, Bool, true, false, not, ◌&&◌, ◌==◌,
  if◌then◌else◌, same, contains, length,
}
use crossplane_provider_time.Firewall.{
  Rule, RulePayload, ServiceAttachment, FirewallResource, Firewall,
}

unfoldable pub text_or_empty : Option Text → Text
text_or_empty none = []
text_or_empty (some t) = t

unfoldable pub default_if_empty : Text → Text → Text
default_if_empty d [] = d
default_if_empty d (c ∷ s) = c ∷ s

unfoldable pub effective_policy : Firewall → Text
unfolding default_if_empty
effective_policy cr = default_if_empty (lit "DROP") cr.spec.policy

unfoldable pub normalize_type : Text → Text
unfolding default_if_empty
normalize_type t = default_if_empty (lit "balancer") t

unfoldable pub attach_key : ServiceAttachment → Text
attach_key a = normalize_type a.service_type ++ lit "|" ++ a.service_id

unfoldable pub resource_key : FirewallResource → Text
resource_key r = attach_key (record { service_id = r.id; service_type = r.type_name })

-- Every observed key is desired.
unfoldable pub all_wanted : List Text → List Text → Bool
all_wanted wanted [] = true
all_wanted wanted (k ∷ ks) = contains wanted k && all_wanted wanted ks

module _ {V : Type 0} where
  abbrev pub keys : List (Text × V) → List Text
  keys m = map (λ p. p.0) m

  -- The values in the order of their keys: `sort.Strings` and the loop over the sorted keys.
  unfoldable pub insert_key : Text × V → List (Text × V) → List (Text × V)
  insert_key p [] = p ∷ []
  insert_key p (q ∷ m) =
      let rest = insert_key p m in if ltb_text q.0 p.0 then q ∷ rest else p ∷ q ∷ m

  unfoldable pub sort_keys : List (Text × V) → List (Text × V)
  sort_keys [] = []
  sort_keys (p ∷ m) = insert_key p (sort_keys m)

  unfoldable pub sorted_values : List (Text × V) → List V
  unfolding sort_keys
  sorted_values m = map (λ p. p.1) (sort_keys m)

  -- `len(desired) == len(observed)`, and every observed key is desired.
  unfoldable pub converged : List (Text × V) → List Text → Bool
  converged desired observed =
      if not (length desired == length observed) then false else all_wanted (keys desired) observed

  unfoldable pub remove_key : Text → List (Text × V) → List (Text × V)
  remove_key k [] = []
  remove_key k ((j, v) ∷ m) = if same j k then remove_key k m else (j, v) ∷ remove_key k m

-- A later attachment with the same key takes the place of an earlier one.
unfoldable pub attach_from :
    List (Text × ServiceAttachment) → List ServiceAttachment → List (Text × ServiceAttachment)
attach_from m [] = m
attach_from m (a ∷ rest) = attach_from ((attach_key a, a) ∷ remove_key (attach_key a) m) rest

unfoldable pub desired_attach_set : Firewall → List (Text × ServiceAttachment)
unfolding attach_from
desired_attach_set cr = attach_from [] cr.spec.attached_services

unfoldable pub attach_converged : List (Text × ServiceAttachment) → List FirewallResource → Bool
attach_converged desired observed = converged desired (map resource_key observed)

module _ (lower : ℕ → ℕ) where
  abbrev pub is_icmp : Text → Bool
  is_icmp protocol = same (map lower protocol) (lit "icmp")

  -- icmp has no port.
  abbrev pub port_of : Text → Option Text → Option Text
  port_of protocol port = if is_icmp protocol then none else port

  unfoldable pub rule_key : Rule → Text
  rule_key r =
      map lower r.direction
      ++ lit "|"
      ++ map lower r.protocol
      ++ lit "|"
      ++ text_or_empty (port_of r.protocol r.port)
      ++ lit "|"
      ++ r.cidr

  unfoldable pub payload_key : RulePayload → Text
  payload_key r = rule_key r.rule

  unfoldable pub desired_rule : Rule → Rule
  desired_rule r = record r { port = port_of r.protocol r.port }

  -- The loop over the rules of the specification.
  unfoldable pub desired_from : List (Text × Rule) → Bool → List Rule → List (Text × Rule) × Bool
  desired_from out dup [] = (out, dup)
  desired_from out dup (r ∷ rs) =
      let key = rule_key (desired_rule r) in
      let repeated = desired_from out true rs in
      let added = desired_from ((key, desired_rule r) ∷ out) dup rs in
      if contains (keys out) key then repeated else added

  unfoldable pub desired_rule_set : Firewall → List (Text × Rule) × Bool
  unfolding desired_from
  desired_rule_set cr = desired_from [] false cr.spec.rules

  unfoldable pub rules_converged : List (Text × Rule) → List RulePayload → Bool
  rules_converged desired observed = converged desired (map payload_key observed)
