-- ===== src/Kubernetes/Upgrade.antt =====
-- `reconcileVersion` of internal/controller/kubernetes/cluster_upgrade.go, and `validateVersion` of
-- cluster_external.go.
use crossplane_provider_time.Prelude.{Text, lit, Bool, true, false, ◌||◌, if◌then◌else◌, same}
use crossplane_provider_time.Prelude.Int.{ℤ}
use crossplane_provider_time.Resolver.Slug.{is_empty}
use crossplane_provider_time.Resolver.Cache.{Dimension, enum}
use crossplane_provider_time.Resolver.Lookup.{ResolveOutput, by_value}
use crossplane_provider_time.Resolver.Lookup.Errors.{dimension_value_not_found_reason}
use crossplane_provider_time.Kubernetes.{
  upgrading, immutable_field_change, resolver_reason, ClusterApi, CatalogResolver,
  version_unparseable, version_downgrade, version_lateral, Outcome, returned, failed,
}
use crossplane_provider_time.Kubernetes.World.{
  Handler, ◌>>◌, attempt, done, fail, call, with_cr, record_ready, record_not_synced,
  resolve_dimension, catalog_reason,
}
use crossplane_provider_time.Kubernetes.Version.{split_version, all_zero, version_newer}

abbrev pub version_dimension : Dimension
version_dimension = record { name = lit "KubernetesVersion"; kind = enum }

module _ {C S : Type 0} (resolver : CatalogResolver C) where
  unfoldable pub validate_version : Text → Handler C S ResolveOutput
  validate_version version = resolve_dimension resolver version_dimension (by_value version)

module _ {C S : Type 0} (api : ClusterApi S) (resolver : CatalogResolver C) (id : ℤ) where
  unfoldable pub upgrade : Text → Handler C S Bool
  upgrade desired = do
    call (api.update_cluster_version id desired)
    record_ready false upgrading
    done true

  unfoldable pub upgrade_validated : Text → Outcome ResolveOutput → Handler C S Bool
  unfolding upgrade
  upgrade_validated desired (failed e) = record_not_synced (catalog_reason e) >> fail e
  upgrade_validated desired (returned _) = upgrade desired

  -- Not newer: a downgrade, or the same numbers with other build metadata.
  unfoldable pub refuse_version : Text → Text → Handler C S Bool
  refuse_version desired observed =
      if version_newer observed desired
      then record_not_synced immutable_field_change >> fail version_downgrade
      else record_not_synced immutable_field_change >> fail version_lateral

  unfoldable pub change_version : Text → Text → Handler C S Bool
  unfolding upgrade_validated refuse_version validate_version
  change_version desired observed =
      if all_zero (split_version desired)
      then record_not_synced (resolver_reason dimension_value_not_found_reason)
        >> fail version_unparseable
      else if version_newer desired observed
      then attempt (validate_version resolver desired) (upgrade_validated desired)
      else refuse_version desired observed

  -- The result says whether the upgrade was started.
  unfoldable pub reconcile_version : Text → Handler C S Bool
  unfolding change_version is_empty
  reconcile_version observed = with_cr (λ cr.
      if is_empty observed || same cr.spec.k8s_version observed
      then done false
      else change_version cr.spec.k8s_version observed)
