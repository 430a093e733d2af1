-- ===== src/Kubernetes/Integration.antt =====
-- The integration of a cluster with a router: internal/controller/kubernetes/router_integration.go,
-- without the nodepool's explanation of an error.
use crossplane_provider_time.Prelude.{
  Text, lit, List, [], ◌∷◌, Option, none, some, Bool, true, false, not, ◌&&◌, ◌||◌, if◌then◌else◌,
  same,
}
use crossplane_provider_time.Prelude.Int.{ℤ, eq_ℤ}
use crossplane_provider_time.Resolver.Slug.{is_empty}
use crossplane_provider_time.Kubernetes.{
  ParentService, RouterNetwork, RouterOut, Cluster, ClusterExternal, ClusterApi,
  router_nat_required, integrated_router, detached_router_integration, Outcome, returned, failed,
}
use crossplane_provider_time.Kubernetes.World.{
  Handler, ◌>>=◌, ◌>>◌, attempt, done, call, with_cr, record_ready, modify_status, event,
}

-- `integrationState`
pub record IntegrationState : Type 0 where
  pub integrated_with : Text
  pub declared_found : Bool
  pub declared_has_net : Bool
  pub declared_has_nat : Bool
  pub declared_net_seen : Bool

abbrev pub text_or_empty : Option Text → Text
text_or_empty none = []
text_or_empty (some t) = t

-- The network to check against: the one found at `Connect`, else the recorded one.
unfoldable pub network_of : ClusterExternal → Cluster → Text
network_of e cr =
    if is_empty e.resolved_network_id
    then text_or_empty cr.status.resolved_network_id
    else e.resolved_network_id

module _ (cluster_id : ℤ) (declared network : Text) where
  unfoldable pub serves_cluster : List ParentService → Bool
  serves_cluster [] = false
  serves_cluster (p ∷ ps) =
      (same p.type_name (lit "k8s") && eq_ℤ p.id cluster_id) || serves_cluster ps

  unfoldable pub read_networks : List RouterNetwork → IntegrationState → IntegrationState
  read_networks [] st = st
  read_networks (n ∷ ns) st =
      let seen = record st {
        declared_has_net = true;
        declared_has_nat = not (is_empty (text_or_empty n.nat_ip));
      } in
      read_networks ns (if same n.id network then seen else st)

  unfoldable pub read_router : RouterOut → IntegrationState → IntegrationState
  unfolding serves_cluster read_networks
  read_router r st =
      let served =
        if serves_cluster r.parent_services then record st { integrated_with = r.id } else st in
      if not (is_empty declared) && same r.id declared
      then read_networks r.networks (record served { declared_found = true })
      else served

  unfoldable pub read_routers : List RouterOut → IntegrationState → IntegrationState
  unfolding read_router
  read_routers [] st = st
  read_routers (r ∷ rs) st = read_routers rs (read_router r st)

  unfoldable pub integration_of : List RouterOut → IntegrationState
  unfolding read_routers
  integration_of routers = read_routers routers (record {
    integrated_with = [];
    declared_found = false;
    declared_has_net = false;
    declared_has_nat = false;
    declared_net_seen = not (is_empty network);
  })

-- Whether `integrationWaitMessage` has a message: the integration is to wait.
unfoldable pub must_wait : IntegrationState → Bool
must_wait st =
    not st.declared_found
    || (st.declared_net_seen && not st.declared_has_net)
    || (st.declared_net_seen && not st.declared_has_nat)

-- No router is declared, and none is recorded.
unfoldable pub never_declared : ClusterExternal → Cluster → Bool
never_declared e cr =
    is_empty e.resolved_router_id && is_empty (text_or_empty cr.status.integrated_router_id)

module _ {C S : Type 0} (api : ClusterApi S) (e : ClusterExternal) (id : ℤ) where
  unfoldable pub read_integration_state : Handler C S IntegrationState
  unfolding network_of
  read_integration_state = with_cr (λ cr. do
    routers ← call api.get_routers
    done (integration_of id e.resolved_router_id (network_of e cr) routers))

  -- `observeRouterIntegration`: whether there is something to do.
  unfoldable pub observe_state : Outcome IntegrationState → Handler C S Bool
  unfolding must_wait is_empty
  observe_state (failed x) = done false
  observe_state (returned st) =
      if not (is_empty e.resolved_router_id)
      then (let integrated = same st.integrated_with e.resolved_router_id in
          modify_status (λ s. record s { router_integrated = some integrated })
          >> (if integrated
              then modify_status
                  (λ s. record s { integrated_router_id = some e.resolved_router_id })
                >> done false
              else if must_wait st
              then record_ready false router_nat_required >> done false
              else done true))
      else (let integrated = not (is_empty st.integrated_with) in
          modify_status (λ s. record s { router_integrated = some integrated })
          >> (if integrated
              then done true
              else modify_status (λ s. record s { integrated_router_id = none }) >> done false))

  unfoldable pub observe_router_integration : Handler C S Bool
  unfolding never_declared observe_state read_integration_state
  observe_router_integration = with_cr (λ cr.
      if never_declared e cr then done false else attempt read_integration_state observe_state)

  -- The three cases of `convergeRouterIntegration`.
  unfoldable pub converge_state : IntegrationState → Handler C S (Unit {0})
  unfolding must_wait is_empty
  converge_state st =
      if not (is_empty e.resolved_router_id) && not (same st.integrated_with e.resolved_router_id)
      then (if must_wait st
          then done tt
          else call (api.patch_router id (some e.resolved_router_id))
            >> modify_status (λ s. record s { integrated_router_id = some e.resolved_router_id })
            >> event integrated_router)
      else if is_empty e.resolved_router_id && not (is_empty st.integrated_with)
      then (call (api.patch_router id none)
          >> modify_status
              (λ s. record s { integrated_router_id = none; router_integrated = some false })
          >> event detached_router_integration)
      else if is_empty e.resolved_router_id
      then modify_status (λ s. record s { integrated_router_id = none })
      else done tt

  unfoldable pub converge_router_integration : Handler C S (Unit {0})
  unfolding never_declared converge_state read_integration_state
  converge_router_integration =
      with_cr
        (λ cr. if never_declared e cr then done tt else (read_integration_state >>= converge_state))
