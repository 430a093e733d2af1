-- ===== src/Kubernetes/World.antt =====
-- What a handler of internal/controller/kubernetes works on, with `RecordConditionChange` of
-- internal/controller/shared/events.go and the rejections of shared/immutable.go.
use crossplane_provider_time.Prelude.{
  ℕ, ◌+◌, ◌==◌, Text, Bool, true, false, not, ◌&&◌, Option, none, some, List, ◌∷◌, if◌then◌else◌,
}
use crossplane_provider_time.Prelude.Run.{Run}
unfoldable pub use crossplane_provider_time.Prelude.Run.{then_do, ◌>>=◌, ◌>>◌, attempt}
pub use crossplane_provider_time.Prelude.Run.{
  bind-returned, bind-ended, bind-returns, bind-failed, done, fail,
}
use crossplane_provider_time.Resolver.Errors.{Result, ok, err}
use crossplane_provider_time.Resolver.Cache.{Dimension}
use crossplane_provider_time.Resolver.Lookup.{ResolveInput, ResolveOutput}
use crossplane_provider_time.Resolver.Lookup.Errors.{
  ConditionReason, preset_not_found_reason, preset_ambiguous_reason,
  no_configurator_available_reason, dimension_value_not_found_reason, catalog_unauthorized_reason,
  catalog_transient_reason, api_error, map_resolver_error,
}
use crossplane_provider_time.Kubernetes.{
  Reason, available, creating, deleting, upgrading, upstream_failed, payment_required,
  router_nat_required, immutable_field_change, sizing_switch_requires_recreate, integrated_router,
  detached_router_integration, resolver_reason, Condition, Cluster, ClusterObservation,
  ClusterError, catalog_failure, immutable_field, sizing_switch, Outcome, returned, failed,
  CatalogResolver,
}

-- `recorder` says whether the event recorder is set; the newest event comes first. `cache` is the
-- state of the resolver.
pub record World (C S : Type 0) : Type 0 where
  pub cr : Cluster
  pub recorder : Bool
  pub events : List Reason
  pub cache : C
  pub upstream : S

abbrev pub Handler : Type 0 → Type 0 → Type 0 → Type 0
Handler C S A = Run (World C S) ClusterError A

-- The reasons as numbers, in place of Go's strings, so that they can be compared.
unfoldable pub condition_reason_code : ConditionReason → ℕ
condition_reason_code preset_not_found_reason = 0
condition_reason_code preset_ambiguous_reason = 1
condition_reason_code no_configurator_available_reason = 2
condition_reason_code dimension_value_not_found_reason = 3
condition_reason_code catalog_unauthorized_reason = 4
condition_reason_code catalog_transient_reason = 5
condition_reason_code api_error = 6

unfoldable pub reason_code : Reason → ℕ
reason_code available = 0
reason_code creating = 1
reason_code deleting = 2
reason_code upgrading = 3
reason_code upstream_failed = 4
reason_code payment_required = 5
reason_code router_nat_required = 6
reason_code immutable_field_change = 7
reason_code sizing_switch_requires_recreate = 8
reason_code integrated_router = 9
reason_code detached_router_integration = 10
reason_code (resolver_reason r) = 11 + condition_reason_code r

abbrev pub same_status : Bool → Bool → Bool
same_status true b = b
same_status false b = not b

unfoldable pub same_condition : Option Condition → Condition → Bool
same_condition none new = false
same_condition (some old) new =
    same_status old.holds new.holds && reason_code old.reason == reason_code new.reason

module _ {C S : Type 0} where
  abbrev pub emit : Reason → World C S → World C S
  emit r w = record w { events = if w.recorder then r ∷ w.events else w.events }

  -- `RecordConditionChange` and `SetConditions`, for the type Ready and for the type Synced.
  unfoldable pub set_ready : Condition → World C S → World C S
  set_ready c w =
      let quiet = record w { cr = record w.cr { ready = some c } } in
      if same_condition w.cr.ready c then quiet else emit c.reason quiet

  unfoldable pub set_synced : Condition → World C S → World C S
  set_synced c w =
      let quiet = record w { cr = record w.cr { synced = some c } } in
      if same_condition w.cr.synced c then quiet else emit c.reason quiet

  unfoldable pub record_ready : Bool → Reason → Handler C S (Unit {0})
  unfolding set_ready
  record_ready holds r w = (returned tt, set_ready (record { holds = holds; reason = r }) w)

  unfoldable pub record_not_synced : Reason → Handler C S (Unit {0})
  unfolding set_synced
  record_not_synced r w = (returned tt, set_synced (record { holds = false; reason = r }) w)

  -- `SetConditions` alone.
  abbrev pub set_ready_quietly : Reason → Handler C S (Unit {0})
  set_ready_quietly r w = (
    returned tt,
    record w { cr = record w.cr { ready = some (record { holds = false; reason = r }) } },
  )

  abbrev pub event : Reason → Handler C S (Unit {0})
  event r w = (returned tt, emit r w)

  abbrev pub modify : (Cluster → Cluster) → Handler C S (Unit {0})
  modify f w = (returned tt, record w { cr = f w.cr })

  abbrev pub modify_status : (ClusterObservation → ClusterObservation) → Handler C S (Unit {0})
  modify_status f = modify (λ cr. record cr { status = f cr.status })

  -- `RejectImmutableChange` and `RejectSizingSwitch`.
  unfoldable pub reject_with : {A : Type 0} → Reason → ClusterError → Handler C S A
  reject_with r e w = (
    failed e,
    emit r (record w { cr = record w.cr { synced = some (record { holds = false; reason = r }) } }),
  )

  unfoldable pub reject_immutable_change : {A : Type 0} → Text → Handler C S A
  unfolding reject_with
  reject_immutable_change field = reject_with immutable_field_change (immutable_field field)

  unfoldable pub reject_sizing_switch : {A : Type 0} → Handler C S A
  unfolding reject_with
  reject_sizing_switch = reject_with sizing_switch_requires_recreate sizing_switch

module _ {C S : Type 0} {A : Type 0} where
  -- A call of the API.
  abbrev pub call : (S → Outcome A × S) → Handler C S A
  call f w = let r = f w.upstream in (r.0, record w { upstream = r.1 })

  -- The resource, as a handler finds it.
  abbrev pub with_cr : (Cluster → Handler C S A) → Handler C S A
  with_cr f w = f w.cr w

unfoldable pub of_result : Result ResolveOutput → Outcome ResolveOutput
of_result (ok o) = returned o
of_result (err e) = failed (catalog_failure e)

module _ {C S : Type 0} (resolver : CatalogResolver C) where
  -- A call of the resolver.
  unfoldable pub resolve_dimension : Dimension → ResolveInput → Handler C S ResolveOutput
  unfolding of_result
  resolve_dimension dim i w =
      let r = resolver.resolve dim i w.cache in (of_result r.1, record w { cache = r.0 })

-- `MapResolverErrorToCondition` of an error that a call of the resolver gave.
unfoldable pub catalog_reason : ClusterError → Reason
catalog_reason (catalog_failure e) = resolver_reason (map_resolver_error e)
catalog_reason _ = resolver_reason api_error
