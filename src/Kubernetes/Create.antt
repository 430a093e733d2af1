-- ===== src/Kubernetes/Create.antt =====
-- `Create` and `findClustersByName` of internal/controller/kubernetes/cluster_external.go.
use crossplane_provider_time.Prelude.{
  Text, List, [], ◌∷◌, Option, none, some, Bool, false, not, ◌&&◌, if◌then◌else◌, same, keep,
  length,
}
use crossplane_provider_time.Prelude.Int.{ℤ, pos, eq_ℤ}
use crossplane_provider_time.Names.{encode_id}
use crossplane_provider_time.Location.{Located, found, refused, Place, resolve_placement}
use crossplane_provider_time.Resolver.Slug.{is_empty}
use crossplane_provider_time.Kubernetes.{
  ClusterBody, ClusterObservation, Cluster, ClusterExternal, ClusterApi, CatalogResolver, creating,
  invalid_placement, several_matches, Outcome, returned, failed,
}
use crossplane_provider_time.Kubernetes.World.{
  Handler, ◌>>=◌, ◌>>◌, attempt, done, fail, call, with_cr, record_not_synced, modify,
  set_ready_quietly, catalog_reason,
}
use crossplane_provider_time.Kubernetes.Upgrade.{validate_version}
use crossplane_provider_time.Kubernetes.Sizing.{
  Sizing, by_preset_id, by_configurator_id, resolve_sizing, build_create_cluster_body,
}
use crossplane_provider_time.Kubernetes.Observe.{populate_cluster_status}

-- The project is another one.
abbrev pub other_project : Option ℤ → ℤ → Bool
other_project none had = false
other_project (some wanted) had = not (eq_ℤ had (pos 0)) && not (eq_ℤ had wanted)

-- The filter of `findClustersByName`: a zone or a project that the upstream leaves out passes.
unfoldable pub matches : Text → Text → Option ℤ → ClusterBody → Bool
matches name az project c =
    same c.name name
    && not (
        not (is_empty az)
        && not (is_empty c.availability_zone)
        && not (same c.availability_zone az))
    && not (other_project project c.project_id)

abbrev or_keep : Text → Option Text → Option Text
or_keep t old = if is_empty t then old else some t

abbrev project_or : Option ℤ → Option ℤ → Option ℤ
project_or none old = old
project_or (some p) old = some p

abbrev lock : Sizing → ClusterObservation → ClusterObservation
lock (by_preset_id id) s = record s { locked_preset_id = some id }
lock (by_configurator_id id r) s = record s { locked_configurator_id = some id }

module _ {C S : Type 0} (api : ClusterApi S) (resolver : CatalogResolver C)
    (e : ClusterExternal) where
  unfoldable pub place_cluster : Located Place → Handler C S Place
  place_cluster (found p) = done p
  place_cluster (refused x) = fail (invalid_placement x)

  unfoldable pub resolved_place : Cluster → Handler C S Place
  unfolding place_cluster
  resolved_place cr =
      place_cluster (resolve_placement e.order cr.spec.location cr.spec.availability_zone)

  -- The answer to the request, recorded.
  unfoldable pub record_created : Sizing → Cluster → ClusterBody → Cluster
  record_created sizing cr c = record cr {
    external_name = encode_id c.id;
    status =
        let s = populate_cluster_status c cr.spec cr.status in
        lock sizing (record s {
          resolved_network_id = or_keep e.resolved_network_id s.resolved_network_id;
          resolved_project_id = project_or e.resolved_project_id s.resolved_project_id;
        });
  }

  unfoldable pub create_sized : Text → Outcome Sizing → Handler C S (Unit {0})
  unfolding record_created
  create_sized zone (failed x) = record_not_synced (catalog_reason x) >> fail x
  create_sized zone (returned sizing) = with_cr (λ cr. do
    c ← call (api.create_cluster (build_create_cluster_body e cr.spec sizing zone))
    modify (λ cr'. record_created sizing cr' c)
    set_ready_quietly creating)

  unfoldable pub create_placed : Cluster → Place → Handler C S (Unit {0})
  unfolding create_sized
  create_placed cr (location, zone) =
      attempt (resolve_sizing resolver zone location cr.spec.preset_name cr.spec.resources)
        (create_sized zone)

  unfoldable pub create_new : Cluster → Handler C S (Unit {0})
  unfolding create_placed resolved_place
  create_new cr = do
    validate_version resolver cr.spec.k8s_version
    p ← resolved_place cr
    create_placed cr p

  -- What is upstream after an earlier create whose result is not known.
  unfoldable pub adopt : Cluster → List ClusterBody → Handler C S (Unit {0})
  unfolding create_new
  adopt cr [] = create_new cr
  adopt cr (c ∷ []) = modify (λ cr'. record cr' { external_name = encode_id c.id })
  adopt cr (c ∷ d ∷ cs) = fail (several_matches (length (c ∷ d ∷ cs)))

  unfoldable pub find_clusters_by_name : Cluster → Text → Handler C S (List ClusterBody)
  unfolding matches
  find_clusters_by_name cr az = do
    clusters ← call api.get_clusters
    done (keep (matches cr.spec.name az e.resolved_project_id) clusters)

  unfoldable pub adopt_or_create : Cluster → Handler C S (Unit {0})
  unfolding adopt find_clusters_by_name resolved_place
  adopt_or_create cr = do
    p ← resolved_place cr
    found_clusters ← find_clusters_by_name cr p.1
    adopt cr found_clusters

  unfoldable pub create : Handler C S (Unit {0})
  unfolding adopt_or_create create_new
  create = with_cr (λ cr. if cr.create_incomplete then adopt_or_create cr else create_new cr)
