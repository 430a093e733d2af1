-- ===== src/Kubernetes.antt =====
-- The data of the cluster controller: internal/controller/kubernetes/cluster_external.go,
-- cluster_upgrade.go and router_integration.go, with the fields that they read of
-- apis/kubernetes/v1alpha1/kubernetescluster_types.go, and the calls that they make.
use crossplane_provider_time.Prelude.{ℕ, Text, List, Option, Bool}
use crossplane_provider_time.Prelude.Int.{ℤ}
use crossplane_provider_time.Prelude.Run
pub use crossplane_provider_time.Prelude.Run.{returned, failed}
use crossplane_provider_time.Location.{Entry, LocationError}
use crossplane_provider_time.Resolver.Errors.{ResolverError, Result}
use crossplane_provider_time.Resolver.Cache.{Dimension}
use crossplane_provider_time.Resolver.Lookup.{ResolveInput, ResolveOutput}
use crossplane_provider_time.Resolver.Lookup.Errors.{ConditionReason}
pub mod World
pub mod Version
pub mod VersionOrder
pub mod Upgrade
pub mod Integration
pub mod Sizing
pub mod Observe
pub mod Create
pub mod Update
pub mod Keeps
pub mod Forward
pub mod Catalog
pub mod Changed
pub mod Immutable
pub mod Refusal
pub mod Match
pub mod Adoption
pub mod ReadOnly
pub mod Routers
pub mod Converge
pub mod Settled
pub mod Upgraded
pub mod Settles
pub mod UpToDate
mod Sample
mod Tests

-- The pod and service ranges.
pub record ClusterNetworkCidr : Type 0 where
  pub pods_network : Text
  pub services_network : Text

-- `clusterBody`; 0 and the empty text stand for a field that is absent.
pub record ClusterBody : Type 0 where
  pub id : ℤ
  pub name : Text
  pub status : Text
  pub description : Text
  pub k8s_version : Text
  pub network_driver : Text
  pub preset_id : ℤ
  pub configurator_id : ℤ
  pub cpu : ℤ
  pub ram : ℤ
  pub disk : ℤ
  pub availability_zone : Text
  pub project_id : ℤ
  pub network_id : Text
  pub network_cidr : Option ClusterNetworkCidr

pub record ClusterResources : Type 0 where
  pub cpu : ℤ
  pub ram_gb : ℤ
  pub disk_gb : ℤ

-- `Spec.ForProvider`; `names_network` says that a network reference, selector or id is set.
pub record ClusterParameters : Type 0 where
  pub name : Text
  pub description : Option Text
  pub k8s_version : Text
  pub network_driver : Text
  pub cluster_network_cidr : Option ClusterNetworkCidr
  pub location : Text
  pub availability_zone : Option Text
  pub preset_name : Option Text
  pub resources : Option ClusterResources
  pub master_nodes_count : Option ℤ
  pub names_network : Bool

-- `Status.AtProvider`.
pub record ClusterObservation : Type 0 where
  pub upstream_id : Option Text
  pub state : Option Text
  pub k8s_version : Option Text
  pub cluster_network_cidr : Option ClusterNetworkCidr
  pub cpu : Option ℤ
  pub ram : Option ℤ
  pub disk : Option ℤ
  pub resolved_project_id : Option ℤ
  pub resolved_network_id : Option Text
  pub locked_preset_id : Option ℤ
  pub locked_configurator_id : Option ℤ
  pub auto_created_network_id : Option Text
  pub sizing : Option Text
  pub router_integrated : Option Bool
  pub integrated_router_id : Option Text

-- The reasons of conditions and events.
pub data Reason : Type 0 where
  available creating deleting upgrading upstream_failed payment_required : Reason
  router_nat_required immutable_field_change sizing_switch_requires_recreate : Reason
  integrated_router detached_router_integration : Reason
  resolver_reason : ConditionReason → Reason

-- A condition without its message; `holds` is the status True.
pub record Condition : Type 0 where
  pub holds : Bool
  pub reason : Reason

-- The managed resource. `create_incomplete` says that an earlier create ended without a known
-- result: `meta.ExternalCreateIncomplete`, or the annotation of a failed create.
pub record Cluster : Type 0 where
  pub external_name : Text
  pub create_incomplete : Bool
  pub spec : ClusterParameters
  pub status : ClusterObservation
  pub ready : Option Condition
  pub synced : Option Condition

pub data ClusterError : Type 0 where
  not_found : ClusterError
  api_failure : Text → ClusterError
  catalog_failure : ResolverError → ClusterError
  wrong_output : ClusterError
  invalid_placement : LocationError → ClusterError
  bad_external_name : ClusterError
  several_matches : ℕ → ClusterError
  version_unparseable version_downgrade version_lateral : ClusterError
  immutable_field : Text → ClusterError
  sizing_switch : ClusterError
  nil_preset_name : ClusterError

-- The value and the error of a Go function.
abbrev pub Outcome : Type 0 → Type 0
Outcome A = Run.Outcome ClusterError A

-- The body of `CreateCluster`: a preset, or a configurator with the sizes in MB.
pub record Configuration : Type 0 where
  pub configurator_id : ℤ
  pub cpu : ℤ
  pub disk : ℤ
  pub ram : ℤ

pub record CreateClusterBody : Type 0 where
  pub name : Text
  pub k8s_version : Text
  pub network_driver : Text
  pub availability_zone : Text
  pub cluster_network_cidr : Option ClusterNetworkCidr
  pub configuration : Option Configuration
  pub preset_id : Option ℤ
  pub description : Option Text
  pub master_nodes_count : Option ℤ
  pub network_id : Option Text
  pub project_id : Option ℤ

-- What is read of a router upstream.
pub record ParentService : Type 0 where
  pub type_name : Text
  pub id : ℤ

pub record RouterNetwork : Type 0 where
  pub id : Text
  pub nat_ip : Option Text

pub record RouterOut : Type 0 where
  pub id : Text
  pub parent_services : List ParentService
  pub networks : List RouterNetwork

-- The calls of the API, classified and decoded: what each makes of the upstream's state, with the
-- answer or the error.
pub record ClusterApi (S : Type 0) : Type 0 where
  pub get_cluster : ℤ → S → Outcome ClusterBody × S
  pub get_clusters : S → Outcome (List ClusterBody) × S
  pub create_cluster : CreateClusterBody → S → Outcome ClusterBody × S
  pub update_cluster_version : ℤ → Text → S → Outcome (Unit {0}) × S
  -- The name and the description, where they are to be changed.
  pub update_cluster : ℤ → Option Text → Option Text → S → Outcome (Unit {0}) × S
  pub delete_cluster : ℤ → S → Outcome (Unit {0}) × S
  pub get_cluster_kubeconfig : ℤ → S → Outcome Text × S
  pub get_routers : S → Outcome (List RouterOut) × S
  -- The router to integrate with; `none` is the null that detaches.
  pub patch_router : ℤ → Option Text → S → Outcome (Unit {0}) × S

-- `resolver.Resolver`, over the state `C` of its cache.
pub record CatalogResolver (C : Type 0) : Type 0 where
  pub resolve : Dimension → ResolveInput → C → C × Result ResolveOutput

-- The fields of `clusterExternal` that are found at `Connect`; `order` is the order in which the
-- table of locations was met when its index was built.
pub record ClusterExternal : Type 0 where
  pub resolved_network_id : Text
  pub resolved_project_id : Option ℤ
  pub resolved_router_id : Text
  pub order : List Entry
