-- ===== src/Kubernetes/ReadOnly.antt =====
-- `Observe` of internal/controller/kubernetes/cluster_external.go only reads.
use crossplane_provider_time.Prelude.{ℕ, ◌≡◌, Text, Option, none, some, false}
use crossplane_provider_time.Prelude.Int.{ℤ}
use crossplane_provider_time.Location.{Located, found, refused, Place}
use crossplane_provider_time.Kubernetes.{
  ClusterBody, ClusterExternal, ClusterApi, not_found, Outcome, returned, failed,
}
use crossplane_provider_time.Kubernetes.World.{World}
use crossplane_provider_time.Kubernetes.Keeps.{Keeps, no_call, done-Keeps, fail-Keeps, read-Keeps}
use crossplane_provider_time.Kubernetes.Integration.{
  IntegrationState, read_integration_state, observe_state, observe_router_integration,
}
use crossplane_provider_time.Kubernetes.Observe.{
  ExternalObservation, set_cluster_ready_condition, kubeconfig_of, kubeconfig_connection_details,
  observe_placed, observe_placement, observe_cluster, observe_id, observe,
}

-- The requests that read leave the upstream as it is.
pub record IsReadOnly {S : Type 0} (api : ClusterApi S) : Type 0 where
  pub get_cluster : (id : ℤ) (s : S) → (api.get_cluster id s).1 ≡ s
  pub get_clusters : (s : S) → (api.get_clusters s).1 ≡ s
  pub get_cluster_kubeconfig : (id : ℤ) (s : S) → (api.get_cluster_kubeconfig id s).1 ≡ s
  pub get_routers : (s : S) → (api.get_routers s).1 ≡ s

module _ (C : Type 0) {S : Type 0} (api : ClusterApi S) (e : ClusterExternal)
    (reads : IsReadOnly api) where
  module _ (id : ℤ) where
    pub read_integration_state-Keeps : Keeps {C = C} (read_integration_state api e id)
    unfolding read_integration_state
    read_integration_state-Keeps =
        search (no_call, read-Keeps C S api.get_routers reads.get_routers)

    observe_state-Keeps : (r : Outcome IntegrationState) → Keeps {C = C} (observe_state api e id r)
    unfolding observe_state
    observe_state-Keeps (failed x) = done-Keeps C S false
    observe_state-Keeps (returned st) = search no_call depth 12

    observe_router_integration-Keeps : Keeps {C = C} (observe_router_integration api e id)
    unfolding observe_router_integration
    observe_router_integration-Keeps =
        search (no_call, read_integration_state-Keeps, observe_state-Keeps)

  module _ (lower : ℕ → ℕ) where
    set_cluster_ready_condition-Keeps :
        (state : Text) → Keeps {C = C} (set_cluster_ready_condition api e lower state)
    unfolding set_cluster_ready_condition
    set_cluster_ready_condition-Keeps state = search no_call

    kubeconfig_of-Keeps : (r : Outcome Text) → Keeps {C = C} (kubeconfig_of api e lower r)
    unfolding kubeconfig_of
    kubeconfig_of-Keeps (failed not_found) = done-Keeps C S none
    kubeconfig_of-Keeps (failed x) = fail-Keeps C S (Option Text) x
    kubeconfig_of-Keeps (returned body) = search no_call

    kubeconfig_connection_details-Keeps :
        (id : ℤ) → Keeps {C = C} (kubeconfig_connection_details api e lower id)
    unfolding kubeconfig_connection_details
    kubeconfig_connection_details-Keeps id = search (
      no_call,
      kubeconfig_of-Keeps,
      read-Keeps C S (api.get_cluster_kubeconfig id) (reads.get_cluster_kubeconfig id),
    )

    observe_placed-Keeps :
        (id : ℤ) (c : ClusterBody) → Keeps {C = C} (observe_placed api e lower id c)
    unfolding observe_placed
    observe_placed-Keeps id c =
        search
          (
            no_call, set_cluster_ready_condition-Keeps, kubeconfig_connection_details-Keeps,
            observe_router_integration-Keeps,
          )
          depth 12

    observe_placement-Keeps :
        (id : ℤ) (c : ClusterBody) (p : Located Place)
        → Keeps {C = C} (observe_placement api e lower id c p)
    unfolding observe_placement
    observe_placement-Keeps id c (refused x) = search no_call
    observe_placement-Keeps id c (found p) = search (no_call, observe_placed-Keeps)

    observe_cluster-Keeps :
        (id : ℤ) (r : Outcome ClusterBody) → Keeps {C = C} (observe_cluster api e lower id r)
    unfolding observe_cluster
    observe_cluster-Keeps id (failed not_found) = done-Keeps C S _
    observe_cluster-Keeps id (failed x) = fail-Keeps C S ExternalObservation x
    observe_cluster-Keeps id (returned c) = search (no_call, observe_placement-Keeps)

    observe_id-Keeps : (o : Option ℤ) → Keeps {C = C} (observe_id api e lower o)
    unfolding observe_id
    observe_id-Keeps none = done-Keeps C S _
    observe_id-Keeps (some id) =
        search (
          no_call,
          observe_cluster-Keeps,
          read-Keeps C S (api.get_cluster id) (reads.get_cluster id),
        )

    observe-Keeps : Keeps {C = C} (observe api e lower)
    unfolding observe
    observe-Keeps = search (no_call, observe_id-Keeps)

    -- `Observe` only reads: where the requests that read leave the upstream as it is, so does
    -- `Observe`, whatever it finds.
    pub observe_reads_only : (w : World C S) → (observe api e lower w).1.upstream ≡ w.upstream
    unfolding Keeps
    observe_reads_only w = observe-Keeps w
