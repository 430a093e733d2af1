-- ===== src/Firewall.antt =====
-- The data of the firewall controller: internal/controller/network/firewall_external.go with the
-- fields that it reads of apis/network/v1alpha1/firewall_types.go and of
-- internal/clients/timeweb/firewall.go, and the calls of the upstream that it makes.
use crossplane_provider_time.Prelude.{ℕ, Text, List, Option}
use crossplane_provider_time.Prelude.Run
pub use crossplane_provider_time.Prelude.Run.{returned, failed}
pub mod World
pub mod Desired
pub mod Reconcile
pub mod External
pub mod Within
pub mod Budget
pub mod Keys
pub mod Split
pub mod Converge
pub mod Merge
pub mod Reach
pub mod Outcomes
pub mod Attachments
pub mod Idle
mod Sample
mod Tests

-- `FirewallRule` of the specification, and `FirewallRulePayload` with an id upstream.
pub record Rule : Type 0 where
  pub direction : Text
  pub protocol : Text
  pub port : Option Text
  pub cidr : Text
  pub description : Option Text

pub record RulePayload : Type 0 where
  pub id : Text
  pub rule : Rule

-- `ServiceAttachment`, and the link that the upstream reports.
pub record ServiceAttachment : Type 0 where
  pub service_id : Text
  pub service_type : Text

pub record FirewallResource : Type 0 where
  pub id : Text
  pub type_name : Text

pub record FirewallGroup : Type 0 where
  pub id : Text
  pub name : Text
  pub description : Text
  pub policy : Text
  pub created_at : Text
  pub updated_at : Text

-- `Spec.ForProvider`.
pub record FirewallParameters : Type 0 where
  pub name : Text
  pub description : Option Text
  pub policy : Text
  pub rules : List Rule
  pub attached_services : List ServiceAttachment

-- `Status.AtProvider`.
pub record FirewallObservation : Type 0 where
  pub id : Option Text
  pub policy : Option Text
  pub rule_count : Option ℕ
  pub attached_count : Option ℕ
  pub created_at : Option Text
  pub updated_at : Option Text
  pub rules : List RulePayload
  pub attached_services : List ServiceAttachment

-- The reasons of the conditions and events that the controller reports.
pub data Reason : Type 0 where
  available creating deleting : Reason
  service_conflict invalid_configuration immutable_field_change : Reason

-- The managed resource: its external name, where the empty text is none, its specification and
-- status, and the last conditions of the types Ready and Synced that the controller set.
pub record Firewall : Type 0 where
  pub external_name : Text
  pub spec : FirewallParameters
  pub status : FirewallObservation
  pub ready : Option Reason
  pub synced : Option Reason

-- `timeweb.ErrNotFound`, any other failure of a call, and the controller's own errors.
pub data FirewallError : Type 0 where
  not_found : FirewallError
  api_failure : Text → FirewallError
  duplicate_rule : FirewallError
  conflict : (service_type service_id group_id : Text) → FirewallError
  immutable_field : Text → FirewallError

-- The value and the error of a Go function.
abbrev pub Outcome : Type 0 → Type 0
Outcome A = Run.Outcome FirewallError A

-- `firewallAPI` through `doJSON`: what each call makes of the upstream's state, with the decoded
-- answer or the error.
pub record FirewallApi (S : Type 0) : Type 0 where
  pub create_firewall_group : Text → Text → Text → S → Outcome FirewallGroup × S
  pub get_firewall_group : Text → S → Outcome FirewallGroup × S
  pub list_firewall_groups : S → Outcome (List FirewallGroup) × S
  pub patch_firewall_group : Text → Text → Text → S → Outcome (Unit {0}) × S
  pub delete_firewall_group : Text → S → Outcome (Unit {0}) × S
  pub list_firewall_rules : Text → S → Outcome (List RulePayload) × S
  pub create_firewall_rule : Text → Rule → S → Outcome (Unit {0}) × S
  pub delete_firewall_rule : Text → Text → S → Outcome (Unit {0}) × S
  pub list_firewall_resources : Text → S → Outcome (List FirewallResource) × S
  pub link_firewall_resource : Text → Text → Text → S → Outcome (Unit {0}) × S
  pub unlink_firewall_resource : Text → Text → Text → S → Outcome (Unit {0}) × S
  pub get_service_firewall_groups : Text → Text → S → Outcome (List Text) × S
