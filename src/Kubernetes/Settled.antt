-- ===== src/Kubernetes/Settled.antt =====
-- `Update` of internal/controller/kubernetes/cluster_external.go leaves alone what `Observe` calls
-- up to date.
use crossplane_provider_time.Prelude.{
  ◌≡◌, refl, inl, inr, ◌∙◌, ap, Text, none, some, true, false, ◌||◌, same, Bool-cases, arith,
}
use crossplane_provider_time.Prelude.Int.{ℤ}
use crossplane_provider_time.Names.{decode_id}
use crossplane_provider_time.Resolver.Slug.{is_empty}
use crossplane_provider_time.Kubernetes.{
  ClusterBody, Cluster, ClusterExternal, ClusterApi, CatalogResolver, Outcome, returned, failed,
}
use crossplane_provider_time.Kubernetes.World.{World, then_do, ◌>>=◌, attempt, bind-ended}
use crossplane_provider_time.Kubernetes.Keeps.{Keeps, bind-upstream, done-Keeps}
use crossplane_provider_time.Kubernetes.Integration.{
  IntegrationState, never_declared, read_integration_state, observe_router_integration,
  observe_state, converge_state, converge_router_integration,
}
use crossplane_provider_time.Kubernetes.Upgrade.{reconcile_version}
use crossplane_provider_time.Kubernetes.Observe.{is_cluster_up_to_date, description_differs}
use crossplane_provider_time.Kubernetes.ReadOnly.{IsReadOnly, read_integration_state-Keeps}
use crossplane_provider_time.Kubernetes.Converge.{
  patched, drift, observe_state-drift, converge_state-patched,
}
use crossplane_provider_time.Kubernetes.Immutable.{
  IsRefused, refused, immutable_changed, update-read, update_observed-IsRefused,
  update_observed-admitted,
}
use crossplane_provider_time.Kubernetes.Update.{
  name_patch, description_patch, patch_cluster, update_admitted, update_observed, update,
}

module _ {C S : Type 0} (api : ClusterApi S) (resolver : CatalogResolver C) (e : ClusterExternal)
    (id : ℤ) where
  -- The state that was read, or none: what the routers show is not known.
  converge-read :
      (r : Outcome IntegrationState × World C S)
      → (observe_state api e id r.0 r.1).0 ≡ returned false
      → (then_do r (converge_state api e id)).1.upstream ≡ r.1.upstream
  unfolding then_do
  converge-read (failed x, w) h = refl
  converge-read (returned st, w) h =
      let q : drift e st ≡ false = (let d = observe_state-drift api e id st w in cc) in
      converge_state-patched api e id st w ∙ ap (λ b. patched e api id b w.upstream) q

  converge-idle :
      (w : World C S)
      → IsReadOnly api
      → (observe_router_integration api e id w).0 ≡ returned false
      → (converge_router_integration api e id w).1.upstream ≡ w.upstream
  unfolding converge_router_integration observe_router_integration attempt ◌>>=◌ Keeps
  converge-idle w reads h = elim (Bool-cases (never_declared e w.cr)) [
    | inl t ↦ rw t refl
    | inr f ↦ rw f (
        converge-read (read_integration_state api e id w) (rw f at h)
        ∙ read_integration_state-Keeps C api e reads id w)
  ]

  reconcile_version-idle :
      (spec_same : Text) (w : World C S)
      → (is_empty spec_same || same w.cr.spec.k8s_version spec_same) ≡ true
      → reconcile_version api resolver id spec_same w ≡ (returned false, w)
  unfolding reconcile_version
  reconcile_version-idle v w h = (rw h)

  name_patch-idle :
      (cr : Cluster) (c : ClusterBody)
      → is_cluster_up_to_date cr.spec cr.status c ≡ true
      → name_patch cr c ≡ none
  unfolding is_cluster_up_to_date name_patch
  name_patch-idle cr c u = let t : same cr.spec.name c.name ≡ true = ground arith in (rw t)

  description_patch-idle :
      (cr : Cluster) (c : ClusterBody)
      → is_cluster_up_to_date cr.spec cr.status c ≡ true
      → description_patch cr c ≡ none
  unfolding is_cluster_up_to_date description_patch
  description_patch-idle cr c u =
      let f : description_differs cr.spec.description c.description ≡ false = ground arith in (rw f)

  version-idle :
      (cr : Cluster) (c : ClusterBody)
      → is_cluster_up_to_date cr.spec cr.status c ≡ true
      → (is_empty c.k8s_version || same cr.spec.k8s_version c.k8s_version) ≡ true
  unfolding is_cluster_up_to_date
  version-idle cr c u = ground arith

  update_admitted-idle :
      (c : ClusterBody) (cr : Cluster) (w : World C S)
      → w.cr ≡ cr
      → IsReadOnly api
      → is_cluster_up_to_date cr.spec cr.status c ≡ true
      → (observe_router_integration api e id w).0 ≡ returned false
      → (update_admitted api resolver e id cr c w).1.upstream ≡ w.upstream
  unfolding update_admitted patch_cluster
  update_admitted-idle c cr w q reads u o =
      let v : reconcile_version api resolver id c.k8s_version w ≡ (returned false, w) =
        reconcile_version-idle c.k8s_version w (rw q (version-idle cr c u)) in
      rw (bind-ended _ _ w w false v, name_patch-idle cr c u, description_patch-idle cr c u)
        (bind-upstream _ _ w (λ _. done-Keeps C S tt) ∙ converge-idle w reads o)

  refused_upstream :
      (w : World C S) (r : Outcome (Unit {0}) × World C S)
      → IsRefused api resolver e w r
      → r.1.upstream ≡ w.upstream
  refused_upstream w r (refused x reason f k s) = k

  update_observed-idle :
      (c : ClusterBody) (cr : Cluster) (w : World C S)
      → w.cr ≡ cr
      → IsReadOnly api
      → is_cluster_up_to_date cr.spec cr.status c ≡ true
      → (observe_router_integration api e id w).0 ≡ returned false
      → (update_observed api resolver e id cr c w).1.upstream ≡ w.upstream
  update_observed-idle c cr w q reads u o = elim (Bool-cases (immutable_changed cr c)) [
    | inl t ↦ refused_upstream w _ (update_observed-IsRefused api resolver e id c w cr t)
    | inr f ↦
        rw (update_observed-admitted api resolver e id c cr w f)
          (update_admitted-idle c cr w q reads u o)
  ]

  -- What is up to date is left alone: where the requests that read leave the upstream as it is,
  -- `Update` reads a cluster that `isClusterUpToDate` accepts, and `observeRouterIntegration`
  -- reports nothing to do, `Update` leaves the upstream as it was.
  pub update-idle :
      (c : ClusterBody) (w : World C S)
      → IsReadOnly api
      → decode_id w.cr.external_name ≡ some id
      → (api.get_cluster id w.upstream).0 ≡ returned c
      → is_cluster_up_to_date w.cr.spec w.cr.status c ≡ true
      → (observe_router_integration api e id w).0 ≡ returned false
      → (update api resolver e w).1.upstream ≡ w.upstream
  update-idle c w reads d g u o =
      rw (update-read api resolver e id c w d g, reads.get_cluster id w.upstream)
        (update_observed-idle c w.cr w refl reads u o)
