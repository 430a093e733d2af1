-- ===== src/Kubernetes/Tests.antt =====
-- Runs of internal/controller/kubernetes at a small upstream, and the theorems at it.
use crossplane_provider_time.Prelude.{
  ◌≡◌, refl, inl, inr, lit, [], ◌∷◌, Bool, true, false, none, some, same, arith,
}
use crossplane_provider_time.Prelude.Int.{pos, IsInt64}
use crossplane_provider_time.Names.{encode_id, decode_id}
use crossplane_provider_time.Names.RoundTrip.{decode_id-encode_id}
use crossplane_provider_time.Location.{found, resolve_placement, location_run}
use crossplane_provider_time.Resolver.Cache.{Cache}
use crossplane_provider_time.Resolver.Slug.{is_empty}
use crossplane_provider_time.Kubernetes.{Cluster, returned}
use crossplane_provider_time.Kubernetes.World.{
  ◌>>=◌, resolve_dimension, of_result, attempt, record_ready, same_condition,
}
use crossplane_provider_time.Kubernetes.Version.{version_run, version_newer, all_zero}
use crossplane_provider_time.Kubernetes.VersionOrder.{version_newer_strict}
use crossplane_provider_time.Kubernetes.Upgrade.{
  reconcile_version, change_version, upgrade_validated,
}
use crossplane_provider_time.Kubernetes.Catalog.{Raised, reconcile_version-Raised}
use crossplane_provider_time.Kubernetes.Integration.{
  never_declared, network_of, integration_of, observe_router_integration,
  converge_router_integration,
}
use crossplane_provider_time.Kubernetes.Converge.{
  IsRouted, patched, converge_router_integration-IsRouted, converge_router_integration_agrees,
}
use crossplane_provider_time.Kubernetes.Observe.{
  description_differs, is_cluster_up_to_date, observe,
}
use crossplane_provider_time.Kubernetes.ReadOnly.{observe_reads_only}
use crossplane_provider_time.Kubernetes.Create.{create}
use crossplane_provider_time.Kubernetes.Match.{IsMatch, IsOnly}
use crossplane_provider_time.Kubernetes.Adoption.{IsAdopted, create-IsAdopted}
use crossplane_provider_time.Kubernetes.Update.{
  sizing_switched, driver_changed, zone_changed, preset_changed, name_patch, description_patch,
  patch_cluster, update_admitted, update_observed, update,
}
use crossplane_provider_time.Kubernetes.Immutable.{
  IsRefused, update-read, update-zone_left_out_IsRefused,
}
use crossplane_provider_time.Kubernetes.Changed.{Changed, zone, zone_changed_iff}
use crossplane_provider_time.Kubernetes.Refusal.{IsRejected, update-IsRejected}
use crossplane_provider_time.Kubernetes.Settled.{update-idle}
use crossplane_provider_time.Kubernetes.UpToDate.{update-up_to_date}
use crossplane_provider_time.Kubernetes.Sample.{
  store_api, upgraded, twin, store_api-IsFaithful, store_api-IsReadOnly, body, router, before, spec,
  cluster, same_case, no_quote, client, pc, at, resolver, accepting, world, external,
}

-- A specification that differs from the cluster only in its version.
abbrev newer_spec : Cluster
newer_spec = cluster false (spec (lit "prod") (lit "v1.31.0") (some (lit "ams-1")))

abbrev in_zone : Cluster
in_zone = cluster true (spec (lit "prod") (lit "v1.30.2") (some (lit "ams-1")))

abbrev elsewhere : Cluster
elsewhere = cluster false (spec (lit "prod") (lit "v1.30.2") (some (lit "msk-1")))

abbrev unzoned : Cluster
unzoned = cluster false (spec (lit "prod") (lit "v1.30.2") none)

seven-IsInt64 : IsInt64 (pos 7)
seven-IsInt64 = omega arith

seven : decode_id (encode_id (pos 7)) ≡ some (pos 7)
seven = decode_id-encode_id (pos 7) seven-IsInt64

newer_minor : version_newer (lit "v1.10.0+k0s.0") (lit "v1.9.12") ≡ true
unfolding version_run
newer_minor = refl

version_newer_strict_example :
    (version_newer (lit "v1.9.12") (lit "v1.10.0") ≡ false)
    × (version_newer (lit "v1.10.0") (lit "v1.8") ≡ true)
unfolding version_run
version_newer_strict_example =
    version_newer_strict (lit "v1.10.0") (lit "v1.9.12") (lit "v1.8") refl refl

reconcile_version-Raised_example :
    Raised store_api same_case no_quote client pc at
      (pos 7)
      (lit "v1.31.0")
      (lit "v1.30.2")
      (world newer_spec)
      (reconcile_version store_api resolver (pos 7) (lit "v1.30.2") (world newer_spec)).1.upstream
reconcile_version-Raised_example =
    reconcile_version-Raised store_api same_case no_quote client pc at (pos 7) (lit "v1.30.2")
      (world newer_spec)

-- The router is attached: it is listed with a NAT address in the network.
attach_run :
    (converge_router_integration store_api
      (external (lit "r-1"))
      (pos 7)
      (world in_zone)).1.upstream.patches
    ≡ some (lit "r-1") ∷ []
unfolding converge_router_integration ◌>>=◌ same integration_of
attach_run = refl

declares : never_declared (external (lit "r-1")) in_zone ≡ false
unfolding never_declared is_empty
declares = refl

converge_router_integration-IsRouted_example :
    IsRouted store_api
      (external (lit "r-1"))
      (pos 7)
      (network_of (external (lit "r-1")) in_zone)
      (router ∷ [])
      before
      (converge_router_integration store_api
        (external (lit "r-1"))
        (pos 7)
        (world in_zone)).1.upstream
converge_router_integration-IsRouted_example =
    converge_router_integration-IsRouted store_api (external (lit "r-1")) (pos 7) (world in_zone)
      (router ∷ []) declares refl

converge_router_integration_agrees_example :
    (b : Bool) × ((observe_router_integration store_api
        (external (lit "r-1"))
        (pos 7)
        (world in_zone)).0
      ≡ returned b)
    × ((converge_router_integration store_api
          (external (lit "r-1"))
          (pos 7)
          (world in_zone)).1.upstream
        ≡ patched (external (lit "r-1")) store_api (pos 7) b before)
converge_router_integration_agrees_example =
    converge_router_integration_agrees store_api (external (lit "r-1")) (pos 7) (world in_zone)
      (router ∷ []) declares refl

observe_reads_only_example :
    (observe store_api (external (lit "r-1")) same_case (world in_zone)).1.upstream ≡ before
observe_reads_only_example =
    observe_reads_only Cache store_api (external (lit "r-1")) store_api-IsReadOnly same_case
      (world in_zone)

one_zone :
    resolve_placement (external []).order (lit "nl-1") (some (lit "ams-1"))
    ≡ found (lit "nl-1", lit "ams-1")
unfolding location_run
one_zone = refl

body-IsMatch : IsMatch (lit "prod") (lit "ams-1") none body
body-IsMatch = record { named = refl; in_zone = inr (inr refl); in_project = λ p e. cc }

create-IsAdopted_example :
    IsAdopted store_api resolver
      (external [])
      body
      (IsOnly (lit "prod") (lit "ams-1") none body (body ∷ twin body ∷ []))
      before
      (create store_api resolver (external []) (world in_zone))
create-IsAdopted_example =
    create-IsAdopted store_api resolver (external []) (world in_zone) (lit "nl-1", lit "ams-1")
      (body ∷ twin body ∷ []) body refl one_zone refl (inl refl) body-IsMatch

another_zone : zone_changed elsewhere body ≡ true
unfolding zone_changed same is_empty
another_zone = refl

elsewhere-Changed : Changed elsewhere body
elsewhere-Changed = zone ((zone_changed_iff elsewhere body).0 another_zone)

update-IsRejected_example :
    IsRejected elsewhere body before (update store_api resolver (external []) (world elsewhere))
update-IsRejected_example =
    update-IsRejected store_api resolver (external []) (pos 7) body (world elsewhere) seven refl
      elsewhere-Changed

update-zone_left_out_IsRefused_example :
    IsRefused store_api resolver
      (external [])
      (world unzoned)
      (update store_api resolver (external []) (world unzoned))
unfolding is_empty
update-zone_left_out_IsRefused_example =
    update-zone_left_out_IsRefused store_api resolver (external []) (pos 7) body (world unzoned)
      seven refl refl refl

body_up_to_date : is_cluster_up_to_date in_zone.spec in_zone.status body ≡ true
unfolding is_cluster_up_to_date same is_empty description_differs
body_up_to_date = refl

nothing_declared :
    (observe_router_integration store_api (external []) (pos 7) (world in_zone)).0 ≡ returned false
unfolding observe_router_integration never_declared is_empty
nothing_declared = refl

update-idle_example : (update store_api resolver (external []) (world in_zone)).1.upstream ≡ before
update-idle_example =
    update-idle store_api resolver (external []) (pos 7) body (world in_zone) store_api-IsReadOnly
      seven refl body_up_to_date nothing_declared

-- The cluster is to have another name and a newer version.
abbrev renamed : Cluster
renamed = cluster false (spec (lit "stage") (lit "v1.31.0") (some (lit "ams-1")))

renaming_succeeds : (update store_api accepting (external []) (world renamed)).0 ≡ returned tt
unfolding update_observed update_admitted patch_cluster name_patch description_patch sizing_switched
    driver_changed zone_changed preset_changed reconcile_version converge_router_integration
    never_declared same is_empty ◌>>=◌ description_differs version_run change_version
    upgrade_validated resolve_dimension of_result all_zero attempt record_ready same_condition
renaming_succeeds =
    rw (update-read store_api accepting (external []) (pos 7) body (world renamed) seven refl) refl

update-up_to_date_example :
    is_cluster_up_to_date renamed.spec renamed.status
      (upgraded (update store_api accepting (external []) (world renamed)).1.upstream)
    ≡ true
update-up_to_date_example =
    update-up_to_date store_api accepting (external []) (pos 7) upgraded
      (λ s. s.cluster.k8s_version) (store_api-IsFaithful (pos 7)) (world renamed) seven (inl refl)
      refl renaming_succeeds
