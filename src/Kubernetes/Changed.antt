-- ===== src/Kubernetes/Changed.antt =====
-- What differs between a cluster and its resource that `Update` of
-- internal/controller/kubernetes/cluster_external.go may not change.
use crossplane_provider_time.Prelude.{
  ◌≡◌, ◌≢◌, refl, ◌↔◌, ◌⊎◌, inl, inr, Text, lit, [], Option, none, some, true, false, not, ◌&&◌,
  ◌||◌, Bool-cases, same, same_iff, arith,
}
use crossplane_provider_time.Prelude.Int.{ℤ, pos, eq_ℤ, eq_ℤ_iff}
use crossplane_provider_time.Resolver.Slug.{is_empty}
use crossplane_provider_time.Resolver.Size.Laws.{is_empty_iff}
use crossplane_provider_time.Kubernetes.{
  ClusterBody, Cluster, ClusterError, Reason, immutable_field_change,
  sizing_switch_requires_recreate, immutable_field, sizing_switch,
}
use crossplane_provider_time.Kubernetes.Integration.{text_or_empty}
use crossplane_provider_time.Kubernetes.Observe.{is_some}
use crossplane_provider_time.Kubernetes.Update.{
  sizing_switched, driver_changed, zone_changed, preset_changed,
}

-- The upstream tells a value, and it is another than the wanted one.
abbrev pub IsOther : (wanted had : Text) → Type 0
IsOther wanted had = (had ≢ []) × (wanted ≢ had)

abbrev pub IsGiven : {A : Type 0} → Option A → Type 0
IsGiven {A} o = (a : A) × (o ≡ some a)

-- The specification sizes by resources what was created by a preset, or the other way round.
abbrev pub IsSwitched : Cluster → Type 0
IsSwitched cr =
    (IsGiven cr.spec.resources × IsGiven cr.status.locked_preset_id)
    ⊎ ((cr.spec.resources ≡ none) × IsGiven cr.status.locked_configurator_id)

abbrev pub IsOtherPreset : Option ℤ → ℤ → Type 0
IsOtherPreset locked had = (p : ℤ) × (locked ≡ some p) × (had ≢ pos 0) × (p ≢ had)

pub data Changed (cr : Cluster) (c : ClusterBody) : Type 0 where
  sizing : IsSwitched cr → Changed cr c
  driver : IsOther cr.spec.network_driver c.network_driver → Changed cr c
  zone : IsOther (text_or_empty cr.spec.availability_zone) c.availability_zone → Changed cr c
  preset : IsOtherPreset cr.status.locked_preset_id c.preset_id → Changed cr c

-- The error and the reason that tell of the change.
abbrev pub error_of : {cr : Cluster} {c : ClusterBody} → Changed cr c → ClusterError
error_of (sizing h) = sizing_switch
error_of (driver h) = immutable_field (lit "networkDriver")
error_of (zone h) = immutable_field (lit "availabilityZone")
error_of (preset h) = immutable_field (lit "presetName")

abbrev pub reason_of : {cr : Cluster} {c : ClusterBody} → Changed cr c → Reason
reason_of (sizing h) = sizing_switch_requires_recreate
reason_of (driver h) = immutable_field_change
reason_of (zone h) = immutable_field_change
reason_of (preset h) = immutable_field_change

is_some_iff : {A : Type 0} → (o : Option A) → (is_some o ≡ true) ↔ IsGiven o
is_some_iff none = ((λ h. cc), (λ h. let e = h.1 in cc))
is_some_iff (some a) = ((λ h. (a, refl)), (λ h. refl))

is_some-none_iff : {A : Type 0} → (o : Option A) → (is_some o ≡ false) ↔ (o ≡ none)
is_some-none_iff none = ((λ h. refl), (λ h. refl))
is_some-none_iff (some a) = ((λ h. cc), (λ h. cc))

differs_iff :
    (wanted had : Text)
    → ((not (is_empty had) && not (same wanted had)) ≡ true) ↔ IsOther wanted had
differs_iff wanted had = (
  (λ t. (
    (λ e. let q = (is_empty_iff had).1 e in ground arith),
    (λ e. let q = (same_iff wanted had).1 e in ground arith),
  )),
  (λ h. elim (Bool-cases (is_empty had)) [
    | inl t ↦ absurd (h.0 ((is_empty_iff had).0 t))
    | inr f ↦ elim (Bool-cases (same wanted had)) [
      | inl t ↦ absurd (h.1 ((same_iff wanted had).0 t))
      | inr g ↦ ground arith
    ]
  ]),
)

pub driver_changed_iff :
    (cr : Cluster) (c : ClusterBody)
    → (driver_changed cr c ≡ true) ↔ IsOther cr.spec.network_driver c.network_driver
unfolding driver_changed
driver_changed_iff cr c = differs_iff cr.spec.network_driver c.network_driver

pub zone_changed_iff :
    (cr : Cluster) (c : ClusterBody)
    → (zone_changed cr c ≡ true)
      ↔ IsOther (text_or_empty cr.spec.availability_zone) c.availability_zone
unfolding zone_changed
zone_changed_iff cr c = differs_iff (text_or_empty cr.spec.availability_zone) c.availability_zone

pub preset_changed_iff :
    (locked : Option ℤ) (had : ℤ) → (preset_changed locked had ≡ true) ↔ IsOtherPreset locked had
unfolding preset_changed
preset_changed_iff none had = ((λ h. cc), (λ h. let e = h.1 in cc))
preset_changed_iff (some p) had = (
  (λ t. (
    p,
    refl,
    (λ e. let q = (eq_ℤ_iff had (pos 0)).1 e in ground arith),
    (λ e. let q = (eq_ℤ_iff p had).1 e in ground arith),
  )),
  (λ h. elim (Bool-cases (eq_ℤ had (pos 0))) [
    | inl t ↦ absurd (h.2 ((eq_ℤ_iff had (pos 0)).0 t))
    | inr f ↦ elim (Bool-cases (eq_ℤ p had)) [
      | inl t ↦
          let q : p ≡ had = (eq_ℤ_iff p had).0 t in
          let l : some p ≡ some h.0 = h.1 in absurd (h.3 (cc))
      | inr g ↦ ground arith
    ]
  ]),
)

pub sizing_switched_iff : (cr : Cluster) → (sizing_switched cr ≡ true) ↔ IsSwitched cr
unfolding sizing_switched
sizing_switched_iff cr = ((λ t. from t), (λ h. to h))
  where
    from :
        ((is_some cr.spec.resources && is_some cr.status.locked_preset_id)
            || (not (is_some cr.spec.resources) && is_some cr.status.locked_configurator_id))
          ≡ true
        → IsSwitched cr
    from t = elim (Bool-cases (is_some cr.spec.resources)) [
      | inl r ↦ inl (
        (is_some_iff cr.spec.resources).0 r,
        (is_some_iff cr.status.locked_preset_id).0 (ground arith),
      )
      | inr r ↦ inr (
        (is_some-none_iff cr.spec.resources).0 r,
        (is_some_iff cr.status.locked_configurator_id).0 (ground arith),
      )
    ]

    to :
        IsSwitched cr
        → ((is_some cr.spec.resources && is_some cr.status.locked_preset_id)
            || (not (is_some cr.spec.resources) && is_some cr.status.locked_configurator_id))
          ≡ true
    to (inl (r, p)) =
        let a = (is_some_iff cr.spec.resources).1 r in
        let b = (is_some_iff cr.status.locked_preset_id).1 p in ground arith
    to (inr (r, p)) =
        let a = (is_some-none_iff cr.spec.resources).1 r in
        let b = (is_some_iff cr.status.locked_configurator_id).1 p in ground arith
