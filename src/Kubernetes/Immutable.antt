-- ===== src/Kubernetes/Immutable.antt =====
-- What `Update` of internal/controller/kubernetes/cluster_external.go refuses to change.
use crossplane_provider_time.Prelude.{
  ◌≡◌, refl, inl, inr, Text, lit, [], ◌∷◌, none, some, Bool, true, false, ◌||◌, same, Bool-cases,
  arith,
}
use crossplane_provider_time.Prelude.Int.{ℤ}
use crossplane_provider_time.Names.{decode_id}
use crossplane_provider_time.Resolver.Slug.{is_empty}
use crossplane_provider_time.Kubernetes.{
  ClusterBody, Cluster, ClusterError, ClusterExternal, ClusterApi, CatalogResolver, Reason,
  immutable_field_change, sizing_switch_requires_recreate, immutable_field, sizing_switch, Outcome,
  returned, failed,
}
use crossplane_provider_time.Kubernetes.World.{
  World, call, reject_with, reject_immutable_change, reject_sizing_switch, bind-returned,
}
use crossplane_provider_time.Kubernetes.Update.{
  sizing_switched, driver_changed, zone_changed, preset_changed, update_admitted, update_observed,
  update_id, update,
}

-- What may not be changed differs.
unfoldable pub immutable_changed : Cluster → ClusterBody → Bool
immutable_changed cr c =
    sizing_switched cr
    || driver_changed cr c
    || zone_changed cr c
    || preset_changed cr.status.locked_preset_id c.preset_id

same_empty : (t : Text) → is_empty t ≡ false → same [] t ≡ false
unfolding is_empty same
same_empty [] h = cc
same_empty (c ∷ t) h = refl

left_out-zone_changed :
    (cr : Cluster) (c : ClusterBody)
    → cr.spec.availability_zone ≡ none
    → is_empty c.availability_zone ≡ false
    → zone_changed cr c ≡ true
unfolding zone_changed
left_out-zone_changed cr c h n = rw (n, h, same_empty c.availability_zone n) refl

module _ {C S : Type 0} (api : ClusterApi S) (resolver : CatalogResolver C)
    (e : ClusterExternal) where
  -- Refused, with the upstream as it was, and the reason in the condition Synced.
  pub data IsRefused (w : World C S) (r : Outcome (Unit {0}) × World C S) : Type 0 where
    refused :
        (x : ClusterError) (reason : Reason)
        → r.0 ≡ failed x
        → r.1.upstream ≡ w.upstream
        → r.1.cr.synced ≡ some (record { holds = false; reason = reason })
        → IsRefused w r

  pub update_observed-IsRefused :
      (id : ℤ) (c : ClusterBody) (w : World C S) (cr : Cluster)
      → immutable_changed cr c ≡ true
      → IsRefused w (update_observed api resolver e id cr c w)
  unfolding update_observed immutable_changed reject_sizing_switch reject_immutable_change
      reject_with
  update_observed-IsRefused id c w cr h = elim (Bool-cases (sizing_switched cr)) [
    | inl t ↦ rw t (refused sizing_switch sizing_switch_requires_recreate refl refl refl)
    | inr a ↦ elim (Bool-cases (driver_changed cr c)) [
      | inl t ↦
          rw (a, t)
            (refused (immutable_field (lit "networkDriver")) immutable_field_change refl refl refl)
      | inr b ↦ elim (Bool-cases (zone_changed cr c)) [
        | inl t ↦
            rw (a, b, t)
              (refused (immutable_field (lit "availabilityZone")) immutable_field_change refl refl
                refl)
        | inr d ↦
            let t : preset_changed cr.status.locked_preset_id c.preset_id ≡ true =
              (rw (a, b, d) at h) in
            rw (a, b, d, t)
              (refused (immutable_field (lit "presetName")) immutable_field_change refl refl refl)
      ]
    ]
  ]

  pub update_observed-admitted :
      (id : ℤ) (c : ClusterBody) (cr : Cluster) (w : World C S)
      → immutable_changed cr c ≡ false
      → update_observed api resolver e id cr c w ≡ update_admitted api resolver e id cr c w
  unfolding update_observed immutable_changed
  update_observed-admitted id c cr w f =
      let a : sizing_switched cr ≡ false = ground arith in
      let b : driver_changed cr c ≡ false = ground arith in
      let z : zone_changed cr c ≡ false = ground arith in
      let p : preset_changed cr.status.locked_preset_id c.preset_id ≡ false = ground arith in
      (rw (a, b, z, p))

  -- The world after the cluster was read.
  abbrev pub after_get : ℤ → World C S → World C S
  after_get id w = record w { upstream = (api.get_cluster id w.upstream).1 }

  pub update-read :
      (id : ℤ) (c : ClusterBody) (w : World C S)
      → decode_id w.cr.external_name ≡ some id
      → (api.get_cluster id w.upstream).0 ≡ returned c
      → update api resolver e w ≡ update_observed api resolver e id w.cr c (after_get id w)
  unfolding update update_id
  update-read id c w d g =
      rw d
        (bind-returned (call (api.get_cluster id)) (update_observed api resolver e id w.cr) w c g)

  pub update_changed-IsRefused :
      (id : ℤ) (c : ClusterBody) (w : World C S)
      → decode_id w.cr.external_name ≡ some id
      → (api.get_cluster id w.upstream).0 ≡ returned c
      → immutable_changed w.cr c ≡ true
      → IsRefused (after_get id w) (update api resolver e w)
  update_changed-IsRefused id c w d g h =
      rw (update-read id c w d g) (update_observed-IsRefused id c (after_get id w) w.cr h)

  left_out-changed :
      (cr : Cluster) (c : ClusterBody)
      → cr.spec.availability_zone ≡ none
      → is_empty c.availability_zone ≡ false
      → immutable_changed cr c ≡ true
  unfolding immutable_changed
  left_out-changed cr c h n = let z = left_out-zone_changed cr c h n in ground arith

  -- A specification that leaves the zone out cannot be updated: where it names no availability
  -- zone, and the upstream tells the one of the cluster, `Update` is refused, whatever else it is
  -- to change and even if that is nothing.
  pub update-zone_left_out_IsRefused :
      (id : ℤ) (c : ClusterBody) (w : World C S)
      → decode_id w.cr.external_name ≡ some id
      → (api.get_cluster id w.upstream).0 ≡ returned c
      → w.cr.spec.availability_zone ≡ none
      → is_empty c.availability_zone ≡ false
      → IsRefused (after_get id w) (update api resolver e w)
  update-zone_left_out_IsRefused id c w d g h n =
      update_changed-IsRefused id c w d g (left_out-changed w.cr c h n)
