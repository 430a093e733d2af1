-- ===== src/Kubernetes/Update.antt =====
-- `Update` and `Delete` of internal/controller/kubernetes/cluster_external.go.
use crossplane_provider_time.Prelude.{
  Text, lit, Option, none, some, Bool, false, not, ◌&&◌, ◌||◌, if◌then◌else◌, same,
}
use crossplane_provider_time.Prelude.Int.{ℤ, pos, eq_ℤ}
use crossplane_provider_time.Names.{decode_id}
use crossplane_provider_time.Resolver.Slug.{is_empty}
use crossplane_provider_time.Kubernetes.{
  ClusterBody, Cluster, ClusterExternal, ClusterApi, CatalogResolver, deleting, not_found,
  bad_external_name, Outcome, returned, failed,
}
use crossplane_provider_time.Kubernetes.World.{
  Handler, ◌>>=◌, ◌>>◌, attempt, done, fail, call, with_cr, set_ready_quietly,
  reject_immutable_change, reject_sizing_switch,
}
use crossplane_provider_time.Kubernetes.Upgrade.{reconcile_version}
use crossplane_provider_time.Kubernetes.Integration.{text_or_empty, converge_router_integration}
use crossplane_provider_time.Kubernetes.Observe.{is_some, description_differs}

unfoldable pub sizing_switched : Cluster → Bool
sizing_switched cr =
    (is_some cr.spec.resources && is_some cr.status.locked_preset_id)
    || (not (is_some cr.spec.resources) && is_some cr.status.locked_configurator_id)

unfoldable pub driver_changed : Cluster → ClusterBody → Bool
driver_changed cr c =
    not (is_empty c.network_driver) && not (same cr.spec.network_driver c.network_driver)

unfoldable pub zone_changed : Cluster → ClusterBody → Bool
zone_changed cr c =
    not (is_empty c.availability_zone)
    && not (same (text_or_empty cr.spec.availability_zone) c.availability_zone)

unfoldable pub preset_changed : Option ℤ → ℤ → Bool
preset_changed none observed = false
preset_changed (some locked) observed = not (eq_ℤ observed (pos 0)) && not (eq_ℤ locked observed)

-- What the PATCH changes.
unfoldable pub name_patch : Cluster → ClusterBody → Option Text
name_patch cr c = if same cr.spec.name c.name then none else some cr.spec.name

unfoldable pub description_patch : Cluster → ClusterBody → Option Text
description_patch cr c =
    if description_differs cr.spec.description c.description then cr.spec.description else none

module _ {C S : Type 0} (api : ClusterApi S) (resolver : CatalogResolver C)
    (e : ClusterExternal) where
  unfoldable pub patch_cluster : ℤ → Option Text → Option Text → Handler C S (Unit {0})
  patch_cluster id none none = done tt
  patch_cluster id name description = call (api.update_cluster id name description)

  unfoldable pub update_admitted : ℤ → Cluster → ClusterBody → Handler C S (Unit {0})
  unfolding patch_cluster
  update_admitted id cr c = do
    reconcile_version api resolver id c.k8s_version
    converge_router_integration api e id
    patch_cluster id (name_patch cr c) (description_patch cr c)

  unfoldable pub update_observed : ℤ → Cluster → ClusterBody → Handler C S (Unit {0})
  unfolding update_admitted
  update_observed id cr c =
      if sizing_switched cr
      then reject_sizing_switch
      else if driver_changed cr c
      then reject_immutable_change (lit "networkDriver")
      else if zone_changed cr c
      then reject_immutable_change (lit "availabilityZone")
      else if preset_changed cr.status.locked_preset_id c.preset_id
      then reject_immutable_change (lit "presetName")
      else update_admitted id cr c

  unfoldable pub update_id : Option ℤ → Cluster → Handler C S (Unit {0})
  unfolding update_observed
  update_id none cr = fail bad_external_name
  update_id (some id) cr = do c ← call (api.get_cluster id); update_observed id cr c

  unfoldable pub update : Handler C S (Unit {0})
  unfolding update_id
  update = with_cr (λ cr. update_id (decode_id cr.external_name) cr)

  unfoldable pub deleted : Outcome (Unit {0}) → Handler C S (Unit {0})
  deleted (failed not_found) = done tt
  deleted (failed x) = fail x
  deleted (returned _) = set_ready_quietly deleting

  unfoldable pub delete_id : Option ℤ → Handler C S (Unit {0})
  unfolding deleted
  delete_id none = done tt
  delete_id (some id) = attempt (call (api.delete_cluster id)) deleted

  unfoldable pub delete : Handler C S (Unit {0})
  unfolding delete_id
  delete = with_cr (λ cr. delete_id (decode_id cr.external_name))
