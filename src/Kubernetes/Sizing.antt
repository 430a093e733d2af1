-- ===== src/Kubernetes/Sizing.antt =====
-- How the size of a cluster is found, and the body that creates it: internal/controller/kubernetes/
-- configurator.go, and `resolveMasterPreset` and `buildCreateClusterBody` of cluster_external.go.
use crossplane_provider_time.Prelude.{
  Text, lit, List, [], ◌∷◌, Option, none, some, if◌then◌else◌, same,
}
use crossplane_provider_time.Prelude.Int.{ℤ, mul1024}
use crossplane_provider_time.Resolver.Errors.{text}
use crossplane_provider_time.Resolver.Slug.{is_empty}
use crossplane_provider_time.Resolver.Cache.{preset, configurator}
use crossplane_provider_time.Resolver.Lookup.{
  ResolveOutput, by_slug, by_configurator, preset_output, configurator_output,
}
use crossplane_provider_time.Kubernetes.{
  ClusterResources, ClusterParameters, ClusterExternal, Configuration, CreateClusterBody,
  CatalogResolver, wrong_output, nil_preset_name,
}
use crossplane_provider_time.Kubernetes.World.{Handler, ◌>>=◌, done, fail, resolve_dimension}

abbrev pub gpu_axis : Option ℤ → List (Text × ℤ)
gpu_axis none = []
gpu_axis (some gpu) = (lit "gpu", gpu) ∷ []

abbrev pub worker_flavor_tags : Text → List Text
worker_flavor_tags flavor =
    if same flavor (lit "dedicated-cpu")
    then lit "k8s_configurator_dedicated_cpu" ∷ []
    else lit "k8s_configurator_general" ∷ []

-- The id of the preset and that of the configurator, of which one is the zero that is not used.
pub data Sizing : Type 0 where
  by_preset_id : ℤ → Sizing
  by_configurator_id : ℤ → ClusterResources → Sizing

module _ {C S : Type 0} (resolver : CatalogResolver C) where
  unfoldable pub configurator_id_of : ResolveOutput → Handler C S ℤ
  configurator_id_of (configurator_output o) = done o.upstream_id
  configurator_id_of _ = fail wrong_output

  unfoldable pub resolve_k8s_configurator :
      Text → Text → ClusterResources → Option ℤ → List Text → Handler C S ℤ
  unfolding configurator_id_of
  resolve_k8s_configurator dim location r gpu require_tags =
      resolve_dimension resolver (record { name = dim; kind = configurator })
        (by_configurator (record {
          filters = (lit "location", text location) ∷ [];
          sizing =
              (lit "cpu", r.cpu)
              ∷ (lit "ramMB", mul1024 r.ram_gb)
              ∷ (lit "diskGB", r.disk_gb)
              ∷ gpu_axis gpu;
          require_tags = require_tags;
        }))
      >>= configurator_id_of

  unfoldable pub preset_id_of : ResolveOutput → Handler C S ℤ
  preset_id_of (preset_output id) = done id
  preset_id_of _ = fail wrong_output

  unfoldable pub resolve_master_preset : Text → Text → Text → Handler C S ℤ
  unfolding preset_id_of
  resolve_master_preset slug zone location =
      resolve_dimension resolver (record { name = lit "KubernetesMasterPreset"; kind = preset })
        (by_slug (record { slug = slug; zone = zone; location = location }))
      >>= preset_id_of

  -- A preset name that is nil would panic; the custom resource is not admitted without one.
  unfoldable pub resolve_preset_name : Text → Text → Option Text → Handler C S Sizing
  unfolding resolve_master_preset
  resolve_preset_name zone location none = fail nil_preset_name
  resolve_preset_name zone location (some slug) =
      resolve_master_preset slug zone location >>= λ id. done (by_preset_id id)

  unfoldable pub resolve_sizing :
      Text → Text → Option Text → Option ClusterResources → Handler C S Sizing
  unfolding resolve_k8s_configurator resolve_preset_name
  resolve_sizing zone location preset_name (some r) =
      resolve_k8s_configurator (lit "KubernetesMasterConfigurator") location r none [] >>= λ id.
      done (by_configurator_id id r)
  resolve_sizing zone location preset_name none = resolve_preset_name zone location preset_name

abbrev preset_of : Sizing → Option ℤ
preset_of (by_preset_id id) = some id
preset_of (by_configurator_id id r) = none

abbrev configuration_of : Sizing → Option Configuration
configuration_of (by_preset_id id) = none
configuration_of (by_configurator_id id r) =
    some (record {
      configurator_id = id;
      cpu = r.cpu;
      disk = mul1024 r.disk_gb;
      ram = mul1024 r.ram_gb;
    })

pub build_create_cluster_body :
    ClusterExternal → ClusterParameters → Sizing → Text → CreateClusterBody
build_create_cluster_body e fp sizing zone = record {
  name = fp.name;
  k8s_version = fp.k8s_version;
  network_driver = fp.network_driver;
  availability_zone = zone;
  cluster_network_cidr = fp.cluster_network_cidr;
  configuration = configuration_of sizing;
  preset_id = preset_of sizing;
  description = fp.description;
  master_nodes_count = fp.master_nodes_count;
  network_id = if is_empty e.resolved_network_id then none else some e.resolved_network_id;
  project_id = e.resolved_project_id;
}
