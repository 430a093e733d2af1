-- ===== src/Kubernetes/Refusal.antt =====
-- How `Update` of internal/controller/kubernetes/cluster_external.go refuses what may not be changed.
use crossplane_provider_time.Prelude.{◌≡◌, refl, inl, inr, some, true, false, Bool-cases}
use crossplane_provider_time.Prelude.Int.{ℤ}
use crossplane_provider_time.Names.{decode_id}
use crossplane_provider_time.Kubernetes.{
  ClusterBody, Cluster, ClusterExternal, ClusterApi, CatalogResolver, Outcome, returned, failed,
}
use crossplane_provider_time.Kubernetes.World.{
  World, reject_with, reject_immutable_change, reject_sizing_switch,
}
use crossplane_provider_time.Kubernetes.Update.{
  sizing_switched, driver_changed, zone_changed, preset_changed, update_observed, update,
}
use crossplane_provider_time.Kubernetes.Immutable.{after_get, update-read}
use crossplane_provider_time.Kubernetes.Changed.{
  Changed, sizing, driver, zone, preset, error_of, reason_of, sizing_switched_iff,
  driver_changed_iff, zone_changed_iff, preset_changed_iff,
}

module _ {C S : Type 0} (cr : Cluster) (c : ClusterBody) (s : S) where
  -- Refused for a change that there is: the error and the condition Synced tell of it, and the
  -- upstream is in the state.
  pub record IsRejected (r : Outcome (Unit {0}) × World C S) : Type 0 where
    pub change : Changed cr c
    pub error : r.0 ≡ failed (error_of change)
    pub condition : r.1.cr.synced ≡ some (record { holds = false; reason = reason_of change })
    pub upstream : r.1.upstream ≡ s

module _ {C S : Type 0} (api : ClusterApi S) (resolver : CatalogResolver C)
    (e : ClusterExternal) where
  update_observed-IsRejected :
      (id : ℤ) (c : ClusterBody) (w : World C S) (cr : Cluster)
      → Changed cr c
      → IsRejected cr c w.upstream (update_observed api resolver e id cr c w)
  unfolding update_observed reject_sizing_switch reject_immutable_change reject_with
  update_observed-IsRejected id c w cr h = elim (Bool-cases (sizing_switched cr)) [
    | inl t ↦ rw t (record {
      change = sizing ((sizing_switched_iff cr).0 t);
      error = refl;
      condition = refl;
      upstream = refl;
    })
    | inr a ↦ elim (Bool-cases (driver_changed cr c)) [
      | inl t ↦
          rw (a, t)
            (record {
              change = driver ((driver_changed_iff cr c).0 t);
              error = refl;
              condition = refl;
              upstream = refl;
            })
      | inr b ↦ elim (Bool-cases (zone_changed cr c)) [
        | inl t ↦
            rw (a, b, t)
              (record {
                change = zone ((zone_changed_iff cr c).0 t);
                error = refl;
                condition = refl;
                upstream = refl;
              })
        | inr d ↦
            let t = preset_is_left h a b d in
            rw (a, b, d, t)
              (record {
                change = preset ((preset_changed_iff cr.status.locked_preset_id c.preset_id).0 t);
                error = refl;
                condition = refl;
                upstream = refl;
              })
      ]
    ]
  ]
    where
      preset_is_left :
          Changed cr c
          → sizing_switched cr ≡ false
          → driver_changed cr c ≡ false
          → zone_changed cr c ≡ false
          → preset_changed cr.status.locked_preset_id c.preset_id ≡ true
      preset_is_left (sizing k) a b d = let t = (sizing_switched_iff cr).1 k in cc
      preset_is_left (driver k) a b d = let t = (driver_changed_iff cr c).1 k in cc
      preset_is_left (zone k) a b d = let t = (zone_changed_iff cr c).1 k in cc
      preset_is_left (preset k) a b d =
          (preset_changed_iff cr.status.locked_preset_id c.preset_id).1 k

  -- What may not be changed is refused: where the upstream tells another driver or zone of the
  -- cluster that `Update` reads than the specification has, or another preset than the locked one,
  -- or the specification sizes by resources a cluster with a locked preset, or without resources one
  -- with a locked configurator, `Update` makes no call after the read and fails with the error for a
  -- change that there is, whose reason is in the condition Synced.
  pub update-IsRejected :
      (id : ℤ) (c : ClusterBody) (w : World C S)
      → decode_id w.cr.external_name ≡ some id
      → (api.get_cluster id w.upstream).0 ≡ returned c
      → Changed w.cr c
      → IsRejected w.cr c (api.get_cluster id w.upstream).1 (update api resolver e w)
  update-IsRejected id c w d g h =
      rw (update-read api resolver e id c w d g)
        (update_observed-IsRejected id c (after_get api resolver e id w) w.cr h)
