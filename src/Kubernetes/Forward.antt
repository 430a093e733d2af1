-- ===== src/Kubernetes/Forward.antt =====
-- `reconcileVersion` of internal/controller/kubernetes/cluster_upgrade.go only moves forward.
use crossplane_provider_time.Prelude.{
  ◌≡◌, refl, ap, ◌∙◌, inl, inr, Text, Bool, true, false, ◌||◌, same, Bool-cases,
}
use crossplane_provider_time.Prelude.Int.{ℤ}
use crossplane_provider_time.Resolver.Errors.{Result, ok, err}
use crossplane_provider_time.Resolver.Slug.{is_empty}
use crossplane_provider_time.Resolver.Lookup.{ResolveOutput, by_value}
use crossplane_provider_time.Resolver.Lookup.Errors.{dimension_value_not_found_reason}
use crossplane_provider_time.Kubernetes.{
  ClusterApi, CatalogResolver, catalog_failure, version_unparseable, version_downgrade,
  version_lateral, immutable_field_change, resolver_reason, upgrading,
}
use crossplane_provider_time.Kubernetes.World.{
  World, attempt, record_ready, resolve_dimension, of_result, catalog_reason,
}
use crossplane_provider_time.Kubernetes.Keeps.{
  Keeps, bind-Keeps, call-Keeps, done-Keeps, record_ready-Keeps, refuse-Keeps,
}
use crossplane_provider_time.Kubernetes.Version.{split_version, all_zero, version_newer}
use crossplane_provider_time.Kubernetes.Upgrade.{
  version_dimension, validate_version, upgrade, upgrade_validated, refuse_version, change_version,
  reconcile_version,
}

module _ {C S : Type 0} (api : ClusterApi S) (resolver : CatalogResolver C) (id : ℤ) where
  -- What was done: no call of the upstream, or one request for an upgrade to a version that is newer
  -- than the observed one and that the resolver found in the catalog.
  pub data Forward (desired observed : Text) (w : World C S) (s : S) : Type 0 where
    untouched : s ≡ w.upstream → Forward desired observed w s
    upgraded :
        (o : ResolveOutput)
        → version_newer desired observed ≡ true
        → (resolver.resolve version_dimension (by_value desired) w.cache).1 ≡ ok o
        → s ≡ (api.update_cluster_version id desired w.upstream).1
        → Forward desired observed w s

  pub upgrade-upstream :
      (desired : Text) (w : World C S)
      → (upgrade api resolver id desired w).1.upstream
        ≡ (api.update_cluster_version id desired w.upstream).1
  unfolding upgrade
  upgrade-upstream desired w = call-Keeps (api.update_cluster_version id desired) _ w (λ _.
      bind-Keeps (record_ready false upgrading) _ (record_ready-Keeps C S false upgrading)
        (λ _. done-Keeps C S true))

  refuse_version-Keeps :
      (desired observed : Text) → Keeps (refuse_version api resolver id desired observed)
  unfolding refuse_version
  refuse_version-Keeps desired observed = elim (Bool-cases (version_newer observed desired)) [
    | inl t ↦ rw t (refuse-Keeps C S Bool immutable_field_change version_downgrade)
    | inr f ↦ rw f (refuse-Keeps C S Bool immutable_field_change version_lateral)
  ]

  validated-Forward :
      (desired observed : Text) (w v : World C S) (r : Result ResolveOutput)
      → version_newer desired observed ≡ true
      → (resolver.resolve version_dimension (by_value desired) w.cache).1 ≡ r
      → v.upstream ≡ w.upstream
      → Forward desired observed w
          (upgrade_validated api resolver id desired (of_result r) v).1.upstream
  unfolding upgrade_validated of_result Keeps
  validated-Forward desired observed w v (err x) n h e =
      untouched
        (refuse-Keeps C S Bool (catalog_reason (catalog_failure x)) (catalog_failure x) v ∙ e)
  validated-Forward desired observed w v (ok o) n h e =
      upgraded o n h
        (upgrade-upstream desired v ∙ ap (λ s. (api.update_cluster_version id desired s).1) e)

  change_version-Forward :
      (desired observed : Text) (w : World C S)
      → Forward desired observed w (change_version api resolver id desired observed w).1.upstream
  unfolding change_version validate_version resolve_dimension attempt Keeps
  change_version-Forward desired observed w = elim (Bool-cases (all_zero (split_version desired))) [
    | inl t ↦ rw t (
        untouched (
          refuse-Keeps C S Bool (resolver_reason dimension_value_not_found_reason)
            version_unparseable w))
    | inr t ↦ elim (Bool-cases (version_newer desired observed)) [
      | inl n ↦ rw (t, n) (validated-Forward desired observed w _ _ n refl refl)
      | inr n ↦ rw (t, n) (untouched (refuse_version-Keeps desired observed w))
    ]
  ]

  -- An upgrade only moves forward: `reconcileVersion` leaves the upstream as it was, or it sends one
  -- request for a version that is newer than the observed one and that the resolver found in the
  -- catalog.
  pub reconcile_version-Forward :
      (observed : Text) (w : World C S)
      → Forward w.cr.spec.k8s_version observed w
          (reconcile_version api resolver id observed w).1.upstream
  unfolding reconcile_version
  reconcile_version-Forward observed w =
      elim (Bool-cases (is_empty observed || same w.cr.spec.k8s_version observed)) [
        | inl t ↦ rw t (untouched refl)
        | inr f ↦ rw f (change_version-Forward w.cr.spec.k8s_version observed w)
      ]
