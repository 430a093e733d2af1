-- ===== src/Kubernetes/Observe.antt =====
-- `Observe` of internal/controller/kubernetes/cluster_external.go.
use crossplane_provider_time.Prelude.{
  ℕ, Text, lit, ◌++◌, map, Option, none, some, Bool, true, false, not, ◌&&◌, ◌||◌, if◌then◌else◌,
  same, has_substring,
}
use crossplane_provider_time.Prelude.Int.{ℤ, pos, eq_ℤ}
use crossplane_provider_time.Prelude.Decimal.{print_int}
use crossplane_provider_time.Names.{encode_id, decode_id}
use crossplane_provider_time.Location.{Located, found, refused, Place, resolve_placement}
use crossplane_provider_time.Resolver.Slug.{is_empty}
use crossplane_provider_time.Kubernetes.{
  ClusterBody, ClusterResources, ClusterParameters, ClusterObservation, ClusterExternal, ClusterApi,
  Condition, available, creating, upstream_failed, payment_required, not_found, Outcome, returned,
  failed,
}
use crossplane_provider_time.Kubernetes.World.{
  Handler, ◌>>=◌, ◌>>◌, attempt, done, fail, call, with_cr, record_ready, modify_status,
}
use crossplane_provider_time.Kubernetes.Integration.{observe_router_integration}

-- `managed.ExternalObservation`; the kubeconfig is the connection detail.
pub record ExternalObservation : Type 0 where
  pub resource_exists : Bool
  pub up_to_date : Bool
  pub kubeconfig : Option Text

abbrev pub missing : ExternalObservation
missing = record { resource_exists = false; up_to_date = false; kubeconfig = none }

abbrev pub settled : ExternalObservation
settled = record { resource_exists = true; up_to_date = true; kubeconfig = none }

-- A value that is not 0, or not empty, replaces the one in the status.
unfoldable pub number_or : Option ℤ → ℤ → Option ℤ
number_or old z = if eq_ℤ z (pos 0) then old else some z

unfoldable pub text_or : Option Text → Text → Option Text
text_or old t = if is_empty t then old else some t

abbrev or_else : {A : Type 0} → Option A → Option A → Option A
or_else old none = old
or_else old (some a) = some a

abbrev sizing_text : Option Text → Option ClusterResources → Option Text → Option Text
sizing_text (some name) r old = some (lit "preset:" ++ name)
sizing_text none (some r) old = some (
    print_int r.cpu
    ++ lit "cpu/"
    ++ print_int r.ram_gb
    ++ lit "gb/"
    ++ print_int r.disk_gb
    ++ lit "gb")
sizing_text none none old = old

unfoldable pub populate_cluster_status :
    ClusterBody → ClusterParameters → ClusterObservation → ClusterObservation
populate_cluster_status c fp s = record s {
  upstream_id = some (encode_id c.id);
  state = some c.status;
  k8s_version = text_or s.k8s_version c.k8s_version;
  cluster_network_cidr = or_else s.cluster_network_cidr c.network_cidr;
  cpu = number_or s.cpu c.cpu;
  ram = number_or s.ram c.ram;
  disk = number_or s.disk c.disk;
  resolved_project_id = number_or s.resolved_project_id c.project_id;
  locked_preset_id = number_or s.locked_preset_id c.preset_id;
  locked_configurator_id = number_or s.locked_configurator_id c.configurator_id;
  auto_created_network_id =
      if not (is_empty c.network_id) && not fp.names_network
      then some c.network_id
      else s.auto_created_network_id;
  sizing = sizing_text fp.preset_name fp.resources s.sizing;
}

abbrev pub is_some : {A : Type 0} → Option A → Bool
is_some none = false
is_some (some a) = true

-- A description that is not nil and not the observed one.
unfoldable pub description_differs : Option Text → Text → Bool
description_differs none observed = false
description_differs (some d) observed = not (same d observed)

unfoldable pub is_cluster_up_to_date : ClusterParameters → ClusterObservation → ClusterBody → Bool
is_cluster_up_to_date spec status c =
    not (is_some spec.preset_name && is_some status.locked_configurator_id)
    && not (is_some spec.resources && is_some status.locked_preset_id)
    && same spec.name c.name
    && not (description_differs spec.description c.description)
    && not (not (is_empty c.k8s_version) && not (same spec.k8s_version c.k8s_version))

was_ready : Option Condition → Bool
was_ready none = false
was_ready (some c) = c.holds

module _ {C S : Type 0} (api : ClusterApi S) (e : ClusterExternal) (lower : ℕ → ℕ) where
  -- `setClusterReadyCondition`: whether the cluster is active.
  unfoldable pub set_cluster_ready_condition : Text → Handler C S Bool
  set_cluster_ready_condition state =
      let s = map lower state in
      if same s (lit "no_paid")
      then record_ready false payment_required >> done false
      else if has_substring s (lit "active")
          || has_substring s (lit "started")
          || has_substring s (lit "running")
          || same s (lit "on")
      then record_ready true available >> done true
      else if has_substring s (lit "error") || has_substring s (lit "fail")
      then record_ready false upstream_failed >> done false
      else record_ready false creating >> done false

  unfoldable pub kubeconfig_of : Outcome Text → Handler C S (Option Text)
  kubeconfig_of (failed not_found) = done none
  kubeconfig_of (failed x) = fail x
  kubeconfig_of (returned body) = done (if is_empty body then none else some body)

  unfoldable pub kubeconfig_connection_details : ℤ → Handler C S (Option Text)
  unfolding kubeconfig_of
  kubeconfig_connection_details id = attempt (call (api.get_cluster_kubeconfig id)) kubeconfig_of

  -- Once the placement is verified.
  unfoldable pub observe_placed : ℤ → ClusterBody → Handler C S ExternalObservation
  unfolding set_cluster_ready_condition kubeconfig_connection_details was_ready
  observe_placed id c = with_cr (λ cr. do
    active ← set_cluster_ready_condition c.status
    kubeconfig ←
        if active && not (was_ready cr.ready) then kubeconfig_connection_details id else done none
    drift ← observe_router_integration api e id
    with_cr (λ cr'. done (record {
      resource_exists = true;
      up_to_date = is_cluster_up_to_date cr'.spec cr'.status c && not drift;
      kubeconfig = kubeconfig;
    })))

  -- A cluster in another zone than was asked for is reported, and left to the operator.
  unfoldable pub observe_placement :
      ℤ → ClusterBody → Located Place → Handler C S ExternalObservation
  unfolding observe_placed
  observe_placement id c (refused x) = record_ready false upstream_failed >> done settled
  observe_placement id c (found (location, zone)) =
      if not (is_empty c.availability_zone) && not (same c.availability_zone zone)
      then record_ready false upstream_failed >> done settled
      else observe_placed id c

  unfoldable pub observe_cluster : ℤ → Outcome ClusterBody → Handler C S ExternalObservation
  unfolding observe_placement
  observe_cluster id (failed not_found) = done missing
  observe_cluster id (failed x) = fail x
  observe_cluster id (returned c) = with_cr (λ cr.
      modify_status (populate_cluster_status c cr.spec)
      >> observe_placement id c
          (resolve_placement e.order cr.spec.location cr.spec.availability_zone))

  -- A name that is not a number is a cluster that is not created yet.
  unfoldable pub observe_id : Option ℤ → Handler C S ExternalObservation
  unfolding observe_cluster
  observe_id none = done missing
  observe_id (some id) = attempt (call (api.get_cluster id)) (observe_cluster id)

  unfoldable pub observe : Handler C S ExternalObservation
  unfolding observe_id
  observe = with_cr (λ cr. observe_id (decode_id cr.external_name))
