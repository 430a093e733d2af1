-- ===== src/Kubernetes/Sample.antt =====
-- A small upstream of the cluster controller, and the resources that are tried on it.
use crossplane_provider_time.Prelude.{
  ℕ, refl, Text, lit, List, [], ◌∷◌, Option, none, some, Bool, true, false,
}
use crossplane_provider_time.Prelude.Int.{ℤ, pos}
use crossplane_provider_time.Names.{encode_id}
use crossplane_provider_time.Location.{static_locations}
use crossplane_provider_time.Resolver.Errors.{Result, ok}
use crossplane_provider_time.Resolver.Cache.{PcRef, Payload, values, Cache, minute, Times}
use crossplane_provider_time.Resolver.Lookup.{Fetcher, enum_output}
use crossplane_provider_time.Kubernetes.{
  ClusterBody, ClusterParameters, Cluster, RouterOut, ClusterApi, ClusterExternal, CatalogResolver,
  api_failure, returned, failed,
}
use crossplane_provider_time.Kubernetes.World.{World}
use crossplane_provider_time.Kubernetes.Catalog.{catalog_resolver}
use crossplane_provider_time.Kubernetes.ReadOnly.{IsReadOnly}
use crossplane_provider_time.Kubernetes.Upgraded.{patched_body, IsFaithful}

-- One cluster, the version that was requested last, which the cluster does not show yet, the routers,
-- and the routers that were sent in a PATCH.
pub record Store : Type 0 where
  pub requested : Text
  pub cluster : ClusterBody
  pub routers : List RouterOut
  pub patches : List (Option Text)

-- Another cluster of the name, in another zone.
abbrev pub twin : ClusterBody → ClusterBody
twin c = record c { id = pos 8; availability_zone = lit "msk-1" }

abbrev pub store_api : ClusterApi Store
store_api = record {
  get_cluster = λ id s. (returned s.cluster, s);
  get_clusters = λ s. (returned (s.cluster ∷ twin s.cluster ∷ []), s);
  create_cluster = λ body s. (failed (api_failure (lit "quota")), s);
  update_cluster_version = λ id v s. (returned tt, record s { requested = v });
  update_cluster = λ id name description s.
      (returned tt, record s { cluster = patched_body name description s.cluster });
  delete_cluster = λ id s. (returned tt, s);
  get_cluster_kubeconfig = λ id s. (returned (lit "config"), s);
  get_routers = λ s. (returned s.routers, s);
  patch_router = λ id r s. (returned tt, record s { patches = r ∷ s.patches });
}

pub store_api-IsReadOnly : IsReadOnly store_api
store_api-IsReadOnly = record {
  get_cluster = λ id s. refl;
  get_clusters = λ s. refl;
  get_cluster_kubeconfig = λ id s. refl;
  get_routers = λ s. refl;
}

-- The cluster once the upgrade is done.
abbrev pub upgraded : Store → ClusterBody
upgraded s = record s.cluster { k8s_version = s.requested }

pub store_api-IsFaithful : (id : ℤ) → IsFaithful store_api id upgraded (λ s. s.cluster.k8s_version)
store_api-IsFaithful id = record {
  shows = λ s. refl;
  shows_same = λ s. refl;
  upgrades = λ v s h. refl;
  changes = λ n d s h. refl;
  lists_routers = λ s. refl;
  patches_router = λ r s. refl;
}

abbrev pub body : ClusterBody
body = record {
  id = pos 7;
  name = lit "prod";
  status = lit "active";
  description = [];
  k8s_version = lit "v1.30.2";
  network_driver = lit "calico";
  preset_id = pos 0;
  configurator_id = pos 0;
  cpu = pos 2;
  ram = pos 4096;
  disk = pos 50;
  availability_zone = lit "ams-1";
  project_id = pos 0;
  network_id = [];
  network_cidr = none;
}

-- A router that has a NAT address in the network.
abbrev pub router : RouterOut
router = record {
  id = lit "r-1";
  parent_services = [];
  networks = record { id = lit "net"; nat_ip = some (lit "10.0.0.1") } ∷ [];
}

abbrev pub before : Store
before = record { requested = lit "v1.30.2"; cluster = body; routers = router ∷ []; patches = [] }

-- A specification of the version and the zone.
abbrev pub spec : Text → Text → Option Text → ClusterParameters
spec name version zone = record {
  name = name;
  description = none;
  k8s_version = version;
  network_driver = lit "calico";
  cluster_network_cidr = none;
  location = lit "nl-1";
  availability_zone = zone;
  preset_name = some (lit "start");
  resources = none;
  master_nodes_count = none;
  names_network = false;
}

abbrev pub cluster : Bool → ClusterParameters → Cluster
cluster create_incomplete fp = record {
  external_name = encode_id (pos 7);
  create_incomplete = create_incomplete;
  spec = fp;
  status = record {
    upstream_id = none;
    state = none;
    k8s_version = none;
    cluster_network_cidr = none;
    cpu = none;
    ram = none;
    disk = none;
    resolved_project_id = none;
    resolved_network_id = none;
    locked_preset_id = none;
    locked_configurator_id = none;
    auto_created_network_id = none;
    sizing = none;
    router_integrated = none;
    integrated_router_id = none;
  };
  ready = none;
  synced = none;
}

abbrev pub same_case : ℕ → ℕ
same_case c = c

abbrev pub no_quote : Text → Text
no_quote s = s

abbrev pub client : Fetcher → Result Payload
client f = ok (values (lit "v1.30.2" ∷ lit "v1.31.0" ∷ []))

abbrev pub pc : PcRef
pc = record { kind = lit "ProviderConfig"; name = lit "a"; namespace = lit "team" }

abbrev pub at : Times
at = record { first = 5; again = 5; stored = 5 }

abbrev pub resolver : CatalogResolver Cache
resolver = catalog_resolver same_case no_quote client pc at

-- A catalog that lists every version.
abbrev pub accepting : CatalogResolver Cache
accepting = record { resolve = λ d i c. (c, ok enum_output) }

abbrev pub world : Cluster → World Cache Store
world cr = record {
  cr = cr;
  recorder = true;
  events = [];
  cache = record { entries = []; ttl = minute };
  upstream = before;
}

-- What is found at `Connect`, with the router that is declared.
abbrev pub external : Text → ClusterExternal
external declared = record {
  resolved_network_id = lit "net";
  resolved_project_id = none;
  resolved_router_id = declared;
  order = static_locations;
}
