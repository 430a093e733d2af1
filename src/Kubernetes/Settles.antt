-- ===== src/Kubernetes/Settles.antt =====
-- What the steps of `Update` of internal/controller/kubernetes/cluster_external.go leave upstream,
-- where they succeed.
use crossplane_provider_time.Prelude.{
  ◌≡◌, refl, inl, inr, ◌∙◌, ap, sym, Text, Option, none, some, Bool, true, false, ◌||◌, same,
  Bool-cases,
}
use crossplane_provider_time.Prelude.Int.{ℤ}
use crossplane_provider_time.Resolver.Slug.{is_empty}
use crossplane_provider_time.Kubernetes.{
  ClusterBody, Cluster, ClusterExternal, ClusterApi, CatalogResolver, Outcome, returned, failed,
}
use crossplane_provider_time.Kubernetes.World.{
  World, then_do, ◌>>=◌, ◌>>◌, call, bind-returns, bind-returned,
}
use crossplane_provider_time.Kubernetes.Keeps.{bind-upstream, done-Keeps}
use crossplane_provider_time.Kubernetes.Integration.{
  IntegrationState, never_declared, read_integration_state, converge_state,
  converge_router_integration,
}
use crossplane_provider_time.Kubernetes.Upgrade.{reconcile_version}
use crossplane_provider_time.Kubernetes.Converge.{patched, drift, converge_state-patched}
use crossplane_provider_time.Kubernetes.Update.{
  name_patch, description_patch, patch_cluster, update_admitted,
}
use crossplane_provider_time.Kubernetes.Upgraded.{
  patched_body, IsFaithful, IsUnderWay, reconcile_version-IsUpgraded,
}

module _ {C S : Type 0} (api : ClusterApi S) (resolver : CatalogResolver C) (e : ClusterExternal)
    (id : ℤ) (view : S → ClusterBody) (shown : S → Text)
    (faithful : IsFaithful api id view shown) where
  patched-view : (b : Bool) (s : S) → view (patched e api id b s) ≡ view s
  patched-view true s = faithful.patches_router _ s
  patched-view false s = refl

  then_converge-view :
      (r : Outcome IntegrationState × World C S)
      → view (then_do r (converge_state api e id)).1.upstream ≡ view r.1.upstream
  unfolding then_do
  then_converge-view (failed x, v) = refl
  then_converge-view (returned st, v) =
      ap view (converge_state-patched api e id st v) ∙ patched-view (drift e st) v.upstream

  read_integration_state-view :
      (w : World C S) → view (read_integration_state api e id w).1.upstream ≡ view w.upstream
  unfolding read_integration_state
  read_integration_state-view w =
      ap view (bind-upstream (call api.get_routers) _ w (λ r. done-Keeps C S _))
      ∙ faithful.lists_routers w.upstream

  -- The integration with a router does not touch what is shown.
  converge-view :
      (w : World C S) → view (converge_router_integration api e id w).1.upstream ≡ view w.upstream
  unfolding converge_router_integration ◌>>=◌
  converge-view w = elim (Bool-cases (never_declared e w.cr)) [
    | inl t ↦ rw t refl
    | inr f ↦
        rw f
          (then_converge-view (read_integration_state api e id w) ∙ read_integration_state-view w)
  ]

  patch_cluster-view :
      (name description : Option Text) (w : World C S)
      → (patch_cluster api resolver e id name description w).0 ≡ returned tt
      → view (patch_cluster api resolver e id name description w).1.upstream
        ≡ patched_body name description (view w.upstream)
  unfolding patch_cluster
  patch_cluster-view none none w h = refl
  patch_cluster-view none (some d) w h = faithful.changes none (some d) w.upstream h
  patch_cluster-view (some n) d w h = faithful.changes (some n) d w.upstream h

  -- The three steps of an update that is admitted, where each of them succeeds.
  pub update_admitted-view :
      (cr : Cluster) (observed : Text) (w : World C S)
      → w.cr ≡ cr
      → IsUnderWay (view w.upstream) cr.spec.k8s_version observed
      → (update_admitted api resolver e id cr
          (record (view w.upstream) { k8s_version = observed })
          w).0
        ≡ returned tt
      → (v : Text) × ((is_empty v || same cr.spec.k8s_version v) ≡ true)
        × (view
              (update_admitted api resolver e id cr
                (record (view w.upstream) { k8s_version = observed })
                w).1.upstream
            ≡ patched_body
                (name_patch cr (view w.upstream))
                (description_patch cr (view w.upstream))
                (record (view w.upstream) { k8s_version = v }))
  unfolding update_admitted name_patch description_patch
  update_admitted-view cr observed w q way h =
      let c = view w.upstream in
      let upgrading = reconcile_version api resolver id observed in
      let patching = patch_cluster api resolver e id (name_patch cr c) (description_patch cr c) in
      let (b, first, later) =
        bind-returns upgrading (λ _. converge_router_integration api e id >> patching) w tt h in
      let u = (upgrading w).1 in
      let (x, second, last) =
        bind-returns (converge_router_integration api e id) (λ _. patching) u tt later in
      let up =
        reconcile_version-IsUpgraded api resolver id view shown faithful observed w b (rw q way)
          first in
      let v = (converge_router_integration api e id u).1 in
      (
        up.version,
        ap (λ k. is_empty up.version || same k.spec.k8s_version up.version) (sym q) ∙ up.is_desired,
        ap (λ r. view r.1.upstream) (bind-returned upgrading _ w b first)
            ∙ ap (λ r. view r.1.upstream)
                (bind-returned (converge_router_integration api e id) _ u x second)
            ∙ patch_cluster-view (name_patch cr c) (description_patch cr c) v last
            ∙ ap (patched_body (name_patch cr c) (description_patch cr c))
                (converge-view u ∙ up.only_version),
      )
