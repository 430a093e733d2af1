-- ===== src/Kubernetes/Adoption.antt =====
-- `Create` of internal/controller/kubernetes/cluster_external.go after a create whose result is not
-- known.
use crossplane_provider_time.Prelude.{
  ◌≡◌, refl, inl, inr, ap, Text, List, [], ◌∷◌, true, keep, In, if◌then◌else◌, keep-In,
}
use crossplane_provider_time.Names.{encode_id}
use crossplane_provider_time.Location.{found, Place, resolve_placement}
use crossplane_provider_time.Kubernetes.{
  ClusterBody, Cluster, ClusterExternal, ClusterApi, CatalogResolver, Outcome, returned,
}
use crossplane_provider_time.Kubernetes.World.{World, then_do, ◌>>=◌}
use crossplane_provider_time.Kubernetes.Create.{
  matches, place_cluster, resolved_place, adopt, find_clusters_by_name, adopt_or_create, create_new,
  create,
}
use crossplane_provider_time.Kubernetes.Match.{IsMatch, IsOnly, matches_iff, only_kept}

module _ {C S : Type 0} (api : ClusterApi S) (resolver : CatalogResolver C)
    (e : ClusterExternal) where
  -- The run ended in the state `s`; it took over the cluster, if it succeeded, and did so if that
  -- is the only one.
  pub record IsAdopted (c : ClusterBody) (is_only : Type 0) (s : S)
      (r : Outcome (Unit {0}) × World C S) : Type 0 where
    pub no_call : r.1.upstream ≡ s
    pub takes_over : r.0 ≡ returned tt → r.1.cr.external_name ≡ encode_id c.id
    pub succeeds : is_only → r.0 ≡ returned tt

  adopt-IsAdopted :
      (c : ClusterBody) (l : List ClusterBody) (cr : Cluster) (w : World C S)
      → In c l
      → IsAdopted c (l ≡ c ∷ []) w.upstream (adopt api resolver e cr l w)
  unfolding adopt
  adopt-IsAdopted c [] cr w m = absurd m
  adopt-IsAdopted c (d ∷ []) cr w (inl p) = record {
    no_call = refl;
    takes_over = λ _. ap (λ x. encode_id x.id) p;
    succeeds = λ _. refl;
  }
  adopt-IsAdopted c (d ∷ []) cr w (inr m) = absurd m
  adopt-IsAdopted c (d ∷ f ∷ l) cr w m = record {
    no_call = refl;
    takes_over = λ h. cc;
    succeeds = λ h. cc;
  }

  adopt_kept-IsAdopted :
      (name az : Text) (c : ClusterBody) (cs : List ClusterBody) (cr : Cluster) (w : World C S)
      → In c cs
      → IsMatch name az e.resolved_project_id c
      → IsAdopted c
          (IsOnly name az e.resolved_project_id c cs)
          w.upstream
          (adopt api resolver e cr (keep (matches name az e.resolved_project_id) cs) w)
  adopt_kept-IsAdopted name az c cs cr w m t =
      let project = e.resolved_project_id in
      let r =
        adopt-IsAdopted c (keep (matches name az project) cs) cr w
          (keep-In (matches name az project) c cs m ((matches_iff name az project c).1 t)) in
      record {
        no_call = r.no_call;
        takes_over = r.takes_over;
        succeeds = λ o. r.succeeds (only_kept name az project c cs o);
      }

  adopt_or_create-IsAdopted :
      (w : World C S) (p : Place) (cs : List ClusterBody) (c : ClusterBody)
      → resolve_placement e.order w.cr.spec.location w.cr.spec.availability_zone ≡ found p
      → (api.get_clusters w.upstream).0 ≡ returned cs
      → In c cs
      → IsMatch w.cr.spec.name p.1 e.resolved_project_id c
      → IsAdopted c
          (IsOnly w.cr.spec.name p.1 e.resolved_project_id c cs)
          (api.get_clusters w.upstream).1
          (adopt_or_create api resolver e w.cr w)
  unfolding adopt_or_create resolved_place place_cluster find_clusters_by_name ◌>>=◌ then_do
  adopt_or_create-IsAdopted w p cs c f g m t =
      rw (f, g)
        (adopt_kept-IsAdopted w.cr.spec.name p.1 c cs w.cr
          (record w { upstream = (api.get_clusters w.upstream).1 }) m t)

  pub create-incomplete :
      (w : World C S)
      → w.cr.create_incomplete ≡ true
      → create api resolver e w ≡ adopt_or_create api resolver e w.cr w
  unfolding create
  create-incomplete w i =
      ap
        (λ b. (if b then adopt_or_create api resolver e w.cr else create_new api resolver e w.cr) w)
        i

  -- No second cluster is made: where the result of an earlier create is not known, the placement is
  -- found, and the upstream lists a cluster with the name of the specification, whose zone is the
  -- one of the placement or is left out by one of the two, and whose project is the resolved one or
  -- is left out, `Create` only lists the clusters. If it succeeds, that cluster is the resource's,
  -- and it succeeds if no other cluster of the list is so, clusters of the name in other zones or
  -- projects notwithstanding.
  pub create-IsAdopted :
      (w : World C S) (p : Place) (cs : List ClusterBody) (c : ClusterBody)
      → w.cr.create_incomplete ≡ true
      → resolve_placement e.order w.cr.spec.location w.cr.spec.availability_zone ≡ found p
      → (api.get_clusters w.upstream).0 ≡ returned cs
      → In c cs
      → IsMatch w.cr.spec.name p.1 e.resolved_project_id c
      → IsAdopted c
          (IsOnly w.cr.spec.name p.1 e.resolved_project_id c cs)
          (api.get_clusters w.upstream).1
          (create api resolver e w)
  create-IsAdopted w p cs c i f g m t =
      rw (create-incomplete w i) (adopt_or_create-IsAdopted w p cs c f g m t)
