-- ===== src/Kubernetes/UpToDate.antt =====
-- A successful `Update` of internal/controller/kubernetes/cluster_external.go leaves nothing to do.
use crossplane_provider_time.Prelude.{
  ◌≡◌, refl, inl, inr, ◌∙◌, ap, sym, Text, Option, none, some, true, false, ◌&&◌, ◌||◌,
  if◌then◌else◌, same, same_refl, Bool-cases, arith,
}
use crossplane_provider_time.Prelude.Int.{ℤ}
use crossplane_provider_time.Names.{decode_id}
use crossplane_provider_time.Resolver.Slug.{is_empty}
use crossplane_provider_time.Kubernetes.{
  ClusterBody, Cluster, ClusterExternal, ClusterApi, CatalogResolver, Outcome, returned,
}
use crossplane_provider_time.Kubernetes.World.{World}
use crossplane_provider_time.Kubernetes.Observe.{
  is_some, is_cluster_up_to_date, description_differs,
}
use crossplane_provider_time.Kubernetes.Immutable.{
  IsRefused, refused, immutable_changed, after_get, update-read, update_observed-admitted,
  update_changed-IsRefused,
}
use crossplane_provider_time.Kubernetes.Upgraded.{IsFaithful, IsUnderWay, or_old, patched_body}
use crossplane_provider_time.Kubernetes.Settles.{update_admitted-view}
use crossplane_provider_time.Kubernetes.Update.{
  sizing_switched, name_patch, description_patch, update_admitted, update,
}

name_now :
    (cr : Cluster) (c : ClusterBody) → same cr.spec.name (or_old (name_patch cr c) c.name) ≡ true
unfolding name_patch
name_now cr c = elim (Bool-cases (same cr.spec.name c.name)) [
  | inl t ↦ rw t t
  | inr f ↦ rw f (same_refl cr.spec.name)
]

description_now :
    (d : Option Text) (observed : Text)
    → description_differs d (or_old (if description_differs d observed then d else none) observed)
      ≡ false
unfolding description_differs
description_now none observed = refl
description_now (some d) observed = elim (Bool-cases (same d observed)) [
  | inl t ↦ rw t (rw t refl)
  | inr f ↦ rw f (rw (same_refl d) refl)
]

patched_body-up_to_date :
    (cr : Cluster) (c : ClusterBody) (v : Text)
    → (is_empty v || same cr.spec.k8s_version v) ≡ true
    → sizing_switched cr ≡ false
    → (is_some cr.spec.preset_name && is_some cr.spec.resources) ≡ false
    → is_cluster_up_to_date cr.spec cr.status
        (patched_body (name_patch cr c) (description_patch cr c) (record c { k8s_version = v }))
      ≡ true
unfolding is_cluster_up_to_date sizing_switched description_patch
patched_body-up_to_date cr c v h sizing one =
    let n = name_now cr c in
    let d = description_now cr.spec.description c.description in ground arith

not-sizing_switched :
    (cr : Cluster) (c : ClusterBody) → immutable_changed cr c ≡ false → sizing_switched cr ≡ false
unfolding immutable_changed
not-sizing_switched cr c f = ground arith

module _ {C S : Type 0} (api : ClusterApi S) (resolver : CatalogResolver C)
    (e : ClusterExternal) where
  not_failed :
      (w : World C S) (r : Outcome (Unit {0}) × World C S)
      → r.0 ≡ returned tt
      → ¬ IsRefused api resolver e w r
  not_failed w r h (refused x reason f u c) = cc

  -- An `Update` that succeeds had nothing to refuse.
  success-not-changed :
      (id : ℤ) (c : ClusterBody) (w : World C S)
      → decode_id w.cr.external_name ≡ some id
      → (api.get_cluster id w.upstream).0 ≡ returned c
      → (update api resolver e w).0 ≡ returned tt
      → immutable_changed w.cr c ≡ false
  success-not-changed id c w d g h = elim (Bool-cases (immutable_changed w.cr c)) [
    | inl t ↦ absurd (
        not_failed (after_get api resolver e id w) (update api resolver e w) h
          (update_changed-IsRefused api resolver e id c w d g t))
    | inr f ↦ f
  ]

module _ {C S : Type 0} (api : ClusterApi S) (resolver : CatalogResolver C) (e : ClusterExternal)
    (id : ℤ) (view : S → ClusterBody) (shown : S → Text)
    (faithful : IsFaithful api id view shown) where
  abbrev read_body : S → ClusterBody
  read_body s = record (view s) { k8s_version = shown s }

  -- A successful `Update` leaves nothing to do: where the upstream shows the cluster, with a version
  -- that may lag behind until an upgrade is done, and carries out what it does not refuse, an
  -- upgrade that is in progress before is to the desired version, and the specification does not
  -- name both a preset and sizes, then after an `Update` that succeeds, `isClusterUpToDate` accepts
  -- the cluster as it is once the upgrade that was requested last is done.
  pub update-up_to_date :
      (w : World C S)
      → decode_id w.cr.external_name ≡ some id
      → IsUnderWay (view w.upstream) w.cr.spec.k8s_version (shown w.upstream)
      → (is_some w.cr.spec.preset_name && is_some w.cr.spec.resources) ≡ false
      → (update api resolver e w).0 ≡ returned tt
      → is_cluster_up_to_date w.cr.spec w.cr.status (view (update api resolver e w).1.upstream)
        ≡ true
  update-up_to_date w d way one h =
      let g = after_get api resolver e id w in
      let c = read_body w.upstream in
      let f = success-not-changed api resolver e id c w d (faithful.shows w.upstream) h in
      let same_view = faithful.shows_same w.upstream in
      let run =
        update-read api resolver e id c w d (faithful.shows w.upstream)
        ∙ update_observed-admitted api resolver e id c w.cr g f
        ∙ ap
            (λ v.
              update_admitted api resolver e id w.cr (record v { k8s_version = shown w.upstream })
                g)
            (sym same_view) in
      let (v, known, body) =
        update_admitted-view api resolver e id view shown faithful w.cr (shown w.upstream) g refl
          (rw same_view way) (ap (λ r. r.0) (sym run) ∙ h) in
      ap (is_cluster_up_to_date w.cr.spec w.cr.status) (ap (λ r. view r.1.upstream) run ∙ body)
      ∙ patched_body-up_to_date w.cr (view g.upstream) v known (not-sizing_switched w.cr c f) one
