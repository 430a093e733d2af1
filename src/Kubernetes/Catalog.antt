-- ===== src/Kubernetes/Catalog.antt =====
-- The resolver of the catalog, as the cluster controller calls it, and what an upgrade of
-- internal/controller/kubernetes/cluster_upgrade.go then rests on.
use crossplane_provider_time.Prelude.{ℕ, ◌≡◌, Text, true}
use crossplane_provider_time.Prelude.Int.{ℤ}
use crossplane_provider_time.Resolver.Errors.{Result}
use crossplane_provider_time.Resolver.Cache.{PcRef, Payload, Cache, Times}
use crossplane_provider_time.Resolver.Lookup.{Fetcher, resolve}
use crossplane_provider_time.Resolver.Lookup.Listed.{IsListed, resolve-IsListed}
use crossplane_provider_time.Kubernetes.{ClusterApi, CatalogResolver}
use crossplane_provider_time.Kubernetes.World.{World}
use crossplane_provider_time.Kubernetes.Version.{version_newer}
use crossplane_provider_time.Kubernetes.Upgrade.{version_dimension, reconcile_version}
use crossplane_provider_time.Kubernetes.Forward.{
  Forward, untouched, upgraded, reconcile_version-Forward,
}

module _ (lower : ℕ → ℕ) (quote : Text → Text) (client : Fetcher → Result Payload) (pc : PcRef)
    (t : Times) where
  -- `Resolve`, at the time of the call.
  abbrev pub catalog_resolver : CatalogResolver Cache
  catalog_resolver = record { resolve = λ dim i c. resolve lower quote client pc dim i t c }

module _ {S : Type 0} (api : ClusterApi S) (lower : ℕ → ℕ) (quote : Text → Text)
    (client : Fetcher → Result Payload) (pc : PcRef) (t : Times) (id : ℤ) where
  -- No call of the upstream, or one request for an upgrade to a version that is newer than the
  -- observed one and that the catalog lists.
  pub data Raised (desired observed : Text) (w : World Cache S) (s : S) : Type 0 where
    kept : s ≡ w.upstream → Raised desired observed w s
    raised :
        version_newer desired observed ≡ true
        → IsListed lower quote client pc version_dimension t w.cache desired
        → s ≡ (api.update_cluster_version id desired w.upstream).1
        → Raised desired observed w s

  Forward-Raised :
      (desired observed : Text) (w : World Cache S) (s : S)
      → Forward api (catalog_resolver lower quote client pc t) id desired observed w s
      → Raised desired observed w s
  Forward-Raised desired observed w s (untouched e) = kept e
  Forward-Raised desired observed w s (upgraded o n h e) =
      raised n (resolve-IsListed lower quote client pc version_dimension desired t w.cache o h) e

  -- An upgrade only moves forward, to a version of the catalog: `reconcileVersion`, with the
  -- resolver of the catalog, leaves the upstream as it was, or it sends one request for a version
  -- that is newer than the observed one and that is listed in the payload that the cache or the
  -- fetcher of the versions gives.
  pub reconcile_version-Raised :
      (observed : Text) (w : World Cache S)
      → Raised w.cr.spec.k8s_version observed w
          (reconcile_version api
            (catalog_resolver lower quote client pc t)
            id
            observed
            w).1.upstream
  reconcile_version-Raised observed w =
      Forward-Raised w.cr.spec.k8s_version observed w _
        (reconcile_version-Forward api (catalog_resolver lower quote client pc t) id observed w)
