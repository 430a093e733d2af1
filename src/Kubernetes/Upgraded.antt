-- ===== src/Kubernetes/Upgraded.antt =====
-- What `reconcileVersion` of internal/controller/kubernetes/cluster_upgrade.go leaves upstream, where
-- it succeeds, and what is relied on of the upstream.
use crossplane_provider_time.Prelude.{
  ◌≡◌, refl, ◌⊎◌, inl, inr, ◌∙◌, ap, Text, Option, none, some, Bool, true, ◌||◌, same, same_refl,
  Bool-cases, or-true,
}
use crossplane_provider_time.Prelude.Int.{ℤ}
use crossplane_provider_time.Resolver.Errors.{Result, ok, err}
use crossplane_provider_time.Resolver.Slug.{is_empty}
use crossplane_provider_time.Resolver.Lookup.{ResolveOutput}
use crossplane_provider_time.Resolver.Lookup.Errors.{dimension_value_not_found_reason}
use crossplane_provider_time.Kubernetes.{
  ClusterBody, ClusterError, Reason, version_downgrade, version_lateral, version_unparseable,
  immutable_field_change, resolver_reason, catalog_failure, ClusterApi, CatalogResolver, returned,
  failed,
}
use crossplane_provider_time.Kubernetes.World.{
  World, ◌>>◌, fail, call, record_not_synced, catalog_reason, attempt, of_result, resolve_dimension,
  bind-returns,
}
use crossplane_provider_time.Kubernetes.Version.{split_version, all_zero, version_newer}
use crossplane_provider_time.Kubernetes.Upgrade.{
  validate_version, upgrade, upgrade_validated, refuse_version, change_version, reconcile_version,
}
use crossplane_provider_time.Kubernetes.Forward.{upgrade-upstream}

abbrev pub or_old : Option Text → Text → Text
or_old none old = old
or_old (some new) old = new

-- The body with what a PATCH changes.
abbrev pub patched_body : Option Text → Option Text → ClusterBody → ClusterBody
patched_body name description c = record c {
  name = or_old name c.name;
  description = or_old description c.description;
}

-- An upstream that has one cluster, and carries out what it does not refuse. An upgrade takes its
-- time: `view` is the cluster as it is once the upgrade that was requested last is done, and a read
-- meanwhile shows that cluster with `shown` for its version.
pub record IsFaithful {S : Type 0} (api : ClusterApi S) (id : ℤ) (view : S → ClusterBody)
    (shown : S → Text) : Type 0 where
  pub shows :
      (s : S) → (api.get_cluster id s).0 ≡ returned (record (view s) { k8s_version = shown s })
  pub shows_same : (s : S) → view (api.get_cluster id s).1 ≡ view s
  pub upgrades :
      (v : Text) (s : S)
      → (api.update_cluster_version id v s).0 ≡ returned tt
      → view (api.update_cluster_version id v s).1 ≡ record (view s) { k8s_version = v }
  pub changes :
      (name description : Option Text) (s : S)
      → (api.update_cluster id name description s).0 ≡ returned tt
      → view (api.update_cluster id name description s).1 ≡ patched_body name description (view s)
  pub lists_routers : (s : S) → view (api.get_routers s).1 ≡ view s
  pub patches_router : (r : Option Text) (s : S) → view (api.patch_router id r s).1 ≡ view s

-- The read shows the version that the cluster is to have, or an upgrade to the desired one is in
-- progress.
abbrev pub IsUnderWay : (view : ClusterBody) → (desired observed : Text) → Type 0
IsUnderWay view desired observed = (observed ≡ view.k8s_version) ⊎ (view.k8s_version ≡ desired)

module _ {C S : Type 0} (api : ClusterApi S) (resolver : CatalogResolver C) (id : ℤ)
    (view : S → ClusterBody) (shown : S → Text) (faithful : IsFaithful api id view shown) where
  -- Nothing but the version is changed, and that to the desired one, unless it was not known.
  pub record IsUpgraded (desired : Text) (c d : ClusterBody) : Type 0 where
    pub version : Text
    pub only_version : d ≡ record c { k8s_version = version }
    pub is_desired : (is_empty version || same desired version) ≡ true

  upgrade-IsUpgraded :
      (desired : Text) (w : World C S) (b : Bool)
      → (upgrade api resolver id desired w).0 ≡ returned b
      → view (upgrade api resolver id desired w).1.upstream
        ≡ record (view w.upstream) { k8s_version = desired }
  unfolding upgrade
  upgrade-IsUpgraded desired w b h =
      let (u, sent, rest) = bind-returns (call (api.update_cluster_version id desired)) _ w b h in
      ap view (upgrade-upstream api resolver id desired w)
      ∙ faithful.upgrades desired w.upstream sent

  refuse-fails :
      {A : Type 0} (r : Reason) (x : ClusterError) (w : World C S) (a : A)
      → ¬ (((record_not_synced r >> fail x) w).0 ≡ returned a)
  refuse-fails r x w a h =
      let (u, said, rest) = bind-returns (record_not_synced r) (λ _. fail x) w a h in
      let no : failed x ≡ returned a = rest in cc

  refuse_version-fails :
      (desired observed : Text) (w : World C S) (b : Bool)
      → ¬ ((refuse_version api resolver id desired observed w).0 ≡ returned b)
  unfolding refuse_version
  refuse_version-fails desired observed w b h = elim (Bool-cases (version_newer observed desired)) [
    | inl t ↦ refuse-fails immutable_field_change version_downgrade w b (rw t at h)
    | inr f ↦ refuse-fails immutable_field_change version_lateral w b (rw f at h)
  ]

  validated-IsUpgraded :
      (desired : Text) (w v : World C S) (r : Result ResolveOutput) (b : Bool)
      → v.upstream ≡ w.upstream
      → (upgrade_validated api resolver id desired (of_result r) v).0 ≡ returned b
      → view (upgrade_validated api resolver id desired (of_result r) v).1.upstream
        ≡ record (view w.upstream) { k8s_version = desired }
  unfolding upgrade_validated of_result
  validated-IsUpgraded desired w v (err x) b q h =
      absurd (refuse-fails (catalog_reason (catalog_failure x)) (catalog_failure x) v b h)
  validated-IsUpgraded desired w v (ok o) b q h =
      upgrade-IsUpgraded desired v b h ∙ ap (λ s. record (view s) { k8s_version = desired }) q

  change_version-IsUpgraded :
      (desired observed : Text) (w : World C S) (b : Bool)
      → (change_version api resolver id desired observed w).0 ≡ returned b
      → view (change_version api resolver id desired observed w).1.upstream
        ≡ record (view w.upstream) { k8s_version = desired }
  unfolding change_version validate_version resolve_dimension attempt
  change_version-IsUpgraded desired observed w b h =
      elim (Bool-cases (all_zero (split_version desired))) [
        | inl t ↦ absurd (
            refuse-fails (resolver_reason dimension_value_not_found_reason) version_unparseable w b
              (rw t at h))
        | inr t ↦ elim (Bool-cases (version_newer desired observed)) [
          | inl n ↦ rw (t, n) (validated-IsUpgraded desired w _ _ b refl (rw (t, n) at h))
          | inr n ↦ absurd (refuse_version-fails desired observed w b (rw (t, n) at h))
        ]
      ]

  same_or : (v : Text) → (is_empty v || same v v) ≡ true
  same_or v = rw (same_refl v) (or-true (is_empty v))

  settled :
      (desired observed : Text) (s : S)
      → IsUnderWay (view s) desired observed
      → (is_empty observed || same desired observed) ≡ true
      → (is_empty (view s).k8s_version || same desired (view s).k8s_version) ≡ true
  settled desired observed s (inl e) t = rw (← e) t
  settled desired observed s (inr e) t = rw e (same_or desired)

  pub reconcile_version-IsUpgraded :
      (observed : Text) (w : World C S) (b : Bool)
      → IsUnderWay (view w.upstream) w.cr.spec.k8s_version observed
      → (reconcile_version api resolver id observed w).0 ≡ returned b
      → IsUpgraded w.cr.spec.k8s_version
          (view w.upstream)
          (view (reconcile_version api resolver id observed w).1.upstream)
  unfolding reconcile_version
  reconcile_version-IsUpgraded observed w b u h =
      let desired = w.cr.spec.k8s_version in
      elim (Bool-cases (is_empty observed || same desired observed)) [
        | inl t ↦ rw t (record {
          version = (view w.upstream).k8s_version;
          only_version = refl;
          is_desired = settled desired observed w.upstream u t;
        })
        | inr f ↦ rw f (record {
          version = desired;
          only_version = change_version-IsUpgraded desired observed w b (rw f at h);
          is_desired = same_or desired;
        })
      ]
