-- ===== src/Firewall/Sample.antt =====
-- A small upstream for internal/controller/network/firewall_external.go: it keeps the rules of one
-- group, and counts the writes.
use crossplane_provider_time.Prelude.{
  ℕ, suc, ◌≡◌, refl, ap, ◌∙◌, inl, inr, Text, lit, List, [], ◌∷◌, ◌++◌, none, some, if◌then◌else◌,
  same, same_iff, Bool-cases, arith, In,
}
use crossplane_provider_time.Firewall.{
  Rule, RulePayload, FirewallGroup, FirewallApi, not_found, Outcome, returned, failed,
}
use crossplane_provider_time.Firewall.Budget.{IsMetered}
use crossplane_provider_time.Firewall.Converge.{ids, IsFaithful}

abbrev pub plain : ℕ → ℕ
plain c = c

abbrev pub untrimmed : Text → Text
untrimmed s = s

abbrev pub rule : Text → Text → Rule
rule port cidr = record {
  direction = lit "in";
  protocol = lit "tcp";
  port = some port;
  cidr = cidr;
  description = none;
}

abbrev pub payload : Text → Rule → RulePayload
payload id r = record { id = id; rule = r }

-- The rules of the group, and the number of writes.
pub record Store : Type 0 where
  pub rules : List RulePayload
  pub writes : ℕ

abbrev pub group : FirewallGroup
group = record {
  id = lit "g";
  name = lit "web";
  description = [];
  policy = lit "DROP";
  created_at = [];
  updated_at = [];
}

unfoldable pub delete_first : Text → List RulePayload → List RulePayload
delete_first id [] = []
delete_first id (r ∷ l) = if same r.id id then l else r ∷ delete_first id l

abbrev pub wrote : Store → Store
wrote s = record s { writes = suc s.writes }

abbrev pub write : Store → Outcome (Unit {0}) × Store
write s = (returned tt, wrote s)

abbrev pub store_api : FirewallApi Store
store_api = record {
  create_firewall_group = λ _ _ _ s. (returned group, wrote s);
  get_firewall_group = λ id s. (if same id (lit "g") then returned group else failed not_found, s);
  list_firewall_groups = λ s. (returned (group ∷ []), s);
  patch_firewall_group = λ _ _ _ s. write s;
  delete_firewall_group = λ _ s. write s;
  list_firewall_rules = λ _ s. (returned s.rules, s);
  create_firewall_rule =
      λ _ r s. write (record s { rules = s.rules ++ payload (lit "new") r ∷ [] });
  delete_firewall_rule = λ _ id s. write (record s { rules = delete_first id s.rules });
  list_firewall_resources = λ _ s. (returned [], s);
  link_firewall_resource = λ _ _ _ s. write s;
  unlink_firewall_resource = λ _ _ _ s. write s;
  get_service_firewall_groups = λ _ _ s. (returned [], s);
}

delete_first-append :
    (before after : List RulePayload) (r : RulePayload)
    → ¬ In r.id (ids before)
    → delete_first r.id (before ++ r ∷ after) ≡ before ++ after
unfolding delete_first
delete_first-append [] after r h = rw ((same_iff r.id r.id).1 refl) refl
delete_first-append (x ∷ before) after r h = elim (Bool-cases (same x.id r.id)) [
  | inl t ↦ absurd (h (inl ((same_iff x.id r.id).0 t)))
  | inr f ↦ rw f (ap (λ l. x ∷ l) (delete_first-append before after r (λ m. h (inr m))))
]

pub store_api-IsFaithful : IsFaithful store_api (lit "g") (λ s. s.rules)
store_api-IsFaithful = record {
  list = λ s. refl;
  list_same = λ s. refl;
  delete = λ before after r s h e. refl;
  delete_one =
      λ before after r s h e. ap (delete_first r.id) e ∙ delete_first-append before after r h;
  create = λ r s. refl;
  create_one = λ r s. (lit "new", refl);
}

pub store_api-IsMetered : IsMetered store_api (λ s. s.writes)
store_api-IsMetered = record {
  get_group = λ id s. omega arith;
  list_rules = λ id s. omega arith;
  list_resources = λ id s. omega arith;
  service_groups = λ t id s. omega arith;
  patch = λ id n d s. omega arith;
  create_rule = λ id r s. omega arith;
  delete_rule = λ id r s. omega arith;
  link = λ id r t s. omega arith;
  unlink = λ id r t s. omega arith;
}
