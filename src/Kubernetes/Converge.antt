-- ===== src/Kubernetes/Converge.antt =====
-- When a router is attached and detached: `observeRouterIntegration` and
-- `convergeRouterIntegration` of internal/controller/kubernetes/router_integration.go.
use crossplane_provider_time.Prelude.{
  ◌≡◌, refl, inl, inr, ◌∙◌, Text, List, Option, none, some, Bool, true, false, not, ◌&&◌,
  if◌then◌else◌, same, Bool-cases,
}
use crossplane_provider_time.Prelude.Int.{ℤ}
use crossplane_provider_time.Resolver.Slug.{is_empty}
use crossplane_provider_time.Kubernetes.{
  RouterOut, ClusterObservation, Reason, ClusterExternal, ClusterApi, returned,
}
use crossplane_provider_time.Kubernetes.World.{
  World, then_do, ◌>>=◌, ◌>>◌, attempt, call, event, modify_status, record_ready, set_ready,
}
use crossplane_provider_time.Kubernetes.Keeps.{modify-Keeps, bind-upstream, event-Keeps}
use crossplane_provider_time.Kubernetes.Integration.{
  IntegrationState, network_of, integration_of, must_wait, never_declared, read_integration_state,
  observe_state, observe_router_integration, converge_state, converge_router_integration,
}
use crossplane_provider_time.Kubernetes.Routers.{
  IsAttachable, Serves, must_wait-IsAttachable, integrated_with-Serves,
}

module _ (e : ClusterExternal) where
  -- The router of the PATCH: the declared one, and none where none is declared.
  abbrev pub target : Option Text
  target = if is_empty e.resolved_router_id then none else some e.resolved_router_id

  -- Whether there is something to do.
  abbrev pub drift : IntegrationState → Bool
  drift st =
      if is_empty e.resolved_router_id
      then not (is_empty st.integrated_with)
      else not (same st.integrated_with e.resolved_router_id) && not (must_wait st)

  -- The upstream after the PATCH, if there is one.
  abbrev pub patched : {S : Type 0} → ClusterApi S → ℤ → Bool → S → S
  patched api id b s = if b then (api.patch_router id target s).1 else s

module _ {S : Type 0} (api : ClusterApi S) (e : ClusterExternal) (id : ℤ) where
  -- What was done to the upstream, whose routers are listed: nothing; or a declared router was
  -- attached that may be; or, where none is declared, one that serves the cluster was detached.
  pub data IsRouted (network : Text) (routers : List RouterOut) (s : S) : S → Type 0 where
    left_alone : IsRouted network routers s s
    attached :
        is_empty e.resolved_router_id ≡ false
        → IsAttachable id e.resolved_router_id network routers
        → IsRouted network routers s (api.patch_router id (some e.resolved_router_id) s).1
    detached :
        is_empty e.resolved_router_id ≡ true
        → Serves id e.resolved_router_id network routers
        → IsRouted network routers s (api.patch_router id none s).1

  patched-IsRouted :
      (network : Text) (routers : List RouterOut) (s : S)
      → IsRouted network routers s
          (patched e api id (drift e (integration_of id e.resolved_router_id network routers)) s)
  patched-IsRouted network routers s =
      let st = integration_of id e.resolved_router_id network routers in
      elim (Bool-cases (is_empty e.resolved_router_id)) [
        | inl t ↦ elim (Bool-cases (is_empty st.integrated_with)) [
          | inl i ↦ rw (t, i) left_alone
          | inr i ↦
              rw (t, i)
                (detached t (integrated_with-Serves id e.resolved_router_id network routers i))
        ]
        | inr t ↦ elim (Bool-cases (same st.integrated_with e.resolved_router_id)) [
          | inl i ↦ rw (t, i) left_alone
          | inr i ↦ elim (Bool-cases (must_wait st)) [
            | inl m ↦ rw (t, i, m) left_alone
            | inr m ↦
                rw (t, i, m)
                  (attached t (must_wait-IsAttachable id e.resolved_router_id network routers m))
          ]
        ]
      ]

module _ {C S : Type 0} (api : ClusterApi S) (e : ClusterExternal) (id : ℤ) where
  pub observe_state-drift :
      (st : IntegrationState) (w : World C S)
      → (observe_state api e id (returned st) w).0 ≡ returned (drift e st)
  unfolding observe_state ◌>>=◌ then_do record_ready set_ready
  observe_state-drift st w = elim (Bool-cases (is_empty e.resolved_router_id)) [
    | inl t ↦ elim (Bool-cases (is_empty st.integrated_with)) [
      | inl i ↦ rw (t, i) refl
      | inr i ↦ rw (t, i) refl
    ]
    | inr t ↦ elim (Bool-cases (same st.integrated_with e.resolved_router_id)) [
      | inl i ↦ rw (t, i) refl
      | inr i ↦ elim (Bool-cases (must_wait st)) [
        | inl m ↦ rw (t, i, m) refl
        | inr m ↦ rw (t, i, m) refl
      ]
    ]
  ]

  sent :
      (r : Option Text) (f : ClusterObservation → ClusterObservation) (v : Reason) (w : World C S)
      → ((call (api.patch_router id r) >> modify_status f >> event v) w).1.upstream
        ≡ (api.patch_router id r w.upstream).1
  sent r f v w =
      bind-upstream _ _ w (λ _. event-Keeps C S v) ∙ bind-upstream _ _ w (λ _. modify-Keeps C S _)

  pub converge_state-patched :
      (st : IntegrationState) (w : World C S)
      → (converge_state api e id st w).1.upstream ≡ patched e api id (drift e st) w.upstream
  unfolding converge_state
  converge_state-patched st w = elim (Bool-cases (is_empty e.resolved_router_id)) [
    | inl t ↦ elim (Bool-cases (is_empty st.integrated_with)) [
      | inl i ↦ rw (t, i) refl
      | inr i ↦ rw (t, i) (sent _ _ _ w)
    ]
    | inr t ↦ elim (Bool-cases (same st.integrated_with e.resolved_router_id)) [
      | inl i ↦ rw (t, i) refl
      | inr i ↦ elim (Bool-cases (must_wait st)) [
        | inl m ↦ rw (t, i, m) refl
        | inr m ↦ rw (t, i, m) (sent _ _ _ w)
      ]
    ]
  ]

  -- What was read of the routers that are listed.
  abbrev pub state_of : World C S → List RouterOut → IntegrationState
  state_of w routers = integration_of id e.resolved_router_id (network_of e w.cr) routers

  abbrev pub after_routers : World C S → World C S
  after_routers w = record w { upstream = (api.get_routers w.upstream).1 }

  read_integration_state-returned :
      (w : World C S) (routers : List RouterOut)
      → (api.get_routers w.upstream).0 ≡ returned routers
      → read_integration_state api e id w ≡ (returned (state_of w routers), after_routers w)
  unfolding read_integration_state ◌>>=◌ then_do
  read_integration_state-returned w routers h = (rw h)

  converge_router_integration-patched :
      (w : World C S) (routers : List RouterOut)
      → never_declared e w.cr ≡ false
      → (api.get_routers w.upstream).0 ≡ returned routers
      → (converge_router_integration api e id w).1.upstream
        ≡ patched e api id (drift e (state_of w routers)) (api.get_routers w.upstream).1
  unfolding converge_router_integration ◌>>=◌ then_do
  converge_router_integration-patched w routers n h =
      rw (n, read_integration_state-returned w routers h)
        (converge_state-patched (state_of w routers) (after_routers w))

  observe_router_integration-drift :
      (w : World C S) (routers : List RouterOut)
      → never_declared e w.cr ≡ false
      → (api.get_routers w.upstream).0 ≡ returned routers
      → (observe_router_integration api e id w).0 ≡ returned (drift e (state_of w routers))
  unfolding observe_router_integration attempt
  observe_router_integration-drift w routers n h =
      rw (n, read_integration_state-returned w routers h)
        (observe_state-drift (state_of w routers) (after_routers w))

  -- Observing and converging agree: where a router is or was declared and the routers are listed,
  -- `observeRouterIntegration` reports that there is something to do exactly if
  -- `convergeRouterIntegration` sends a PATCH after it read the routers; the PATCH names the
  -- declared router, and none where none is declared.
  pub converge_router_integration_agrees :
      (w : World C S) (routers : List RouterOut)
      → never_declared e w.cr ≡ false
      → (api.get_routers w.upstream).0 ≡ returned routers
      → (b : Bool) × ((observe_router_integration api e id w).0 ≡ returned b)
        × ((converge_router_integration api e id w).1.upstream
            ≡ patched e api id b (api.get_routers w.upstream).1)
  converge_router_integration_agrees w routers n h =
      let d = observe_router_integration-drift w routers n h in
      (drift e (state_of w routers), d, converge_router_integration-patched w routers n h)

  -- A router is attached only if it can serve the cluster: where a router is or was declared and
  -- the routers are listed, `convergeRouterIntegration` makes no call after that, or it attaches
  -- the declared router, which is listed and, if the network of the cluster is known, has a NAT
  -- address in it; or it detaches, where no router is declared and a listed one serves the cluster.
  pub converge_router_integration-IsRouted :
      (w : World C S) (routers : List RouterOut)
      → never_declared e w.cr ≡ false
      → (api.get_routers w.upstream).0 ≡ returned routers
      → IsRouted api e id
          (network_of e w.cr)
          routers
          (api.get_routers w.upstream).1
          (converge_router_integration api e id w).1.upstream
  converge_router_integration-IsRouted w routers n h =
      rw (converge_router_integration-patched w routers n h)
        (patched-IsRouted api e id (network_of e w.cr) routers (api.get_routers w.upstream).1)
