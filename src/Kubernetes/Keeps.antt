-- ===== src/Kubernetes/Keeps.antt =====
-- The parts of a handler of internal/controller/kubernetes that make no call of the API.
use crossplane_provider_time.Prelude.{
  ◌≡◌, refl, ◌∙◌, inl, inr, Bool, true, false, Bool-cases, if◌then◌else◌,
}
use crossplane_provider_time.Prelude.Run.{Outcome}
use crossplane_provider_time.Resolver.Cache.{Dimension}
use crossplane_provider_time.Resolver.Lookup.{ResolveInput}
use crossplane_provider_time.Kubernetes.{
  Reason, ClusterError, Cluster, CatalogResolver, returned, failed,
}
use crossplane_provider_time.Kubernetes.World.{
  World, Handler, attempt, with_cr, event, then_do, ◌>>=◌, ◌>>◌, done, fail, call, same_condition,
  set_ready, set_synced, record_ready, record_not_synced, modify, reject_with, resolve_dimension,
}

module _ {C S : Type 0} where
  -- The run leaves the upstream as it was.
  unfoldable pub Keeps : {A : Type 0} → Handler C S A → Type 0
  Keeps m = (w : World C S) → (m w).1.upstream ≡ w.upstream

  then_do-Keeps :
      {A B : Type 0} (k : A → Handler C S B) (r : Outcome ClusterError A × World C S)
      → ((a : A) → Keeps (k a))
      → (then_do r k).1.upstream ≡ r.1.upstream
  unfolding then_do Keeps
  then_do-Keeps k (returned a, w) h = h a w
  then_do-Keeps k (failed e, w) h = refl

  pub bind-Keeps :
      {A B : Type 0} (m : Handler C S A) (k : A → Handler C S B)
      → Keeps m
      → ((a : A) → Keeps (k a))
      → Keeps (m >>= k)
  unfolding Keeps ◌>>=◌
  bind-Keeps m k h l w = then_do-Keeps k (m w) l ∙ h w

  -- What follows makes no call.
  pub bind-upstream :
      {A B : Type 0} (m : Handler C S A) (k : A → Handler C S B) (w : World C S)
      → ((a : A) → Keeps (k a))
      → ((m >>= k) w).1.upstream ≡ (m w).1.upstream
  unfolding ◌>>=◌
  bind-upstream m k w l = then_do-Keeps k (m w) l

  -- A call, and then no other.
  pub call-Keeps :
      {A B : Type 0} (f : S → Outcome ClusterError A × S) (k : A → Handler C S B) (w : World C S)
      → ((a : A) → Keeps (k a))
      → ((call f >>= k) w).1.upstream ≡ (f w.upstream).1
  unfolding ◌>>=◌
  call-Keeps f k w l = then_do-Keeps k (call f w) l

module _ (C S : Type 0) where
  pub done-Keeps : {A : Type 0} (a : A) → Keeps {C = C} {S = S} (done a)
  unfolding Keeps
  done-Keeps a w = refl

  pub fail-Keeps : (A : Type 0) (e : ClusterError) → Keeps {C = C} {S = S} (fail {A = A} e)
  unfolding Keeps
  fail-Keeps A e w = refl

  pub modify-Keeps : (f : Cluster → Cluster) → Keeps {C = C} {S = S} (modify f)
  unfolding Keeps
  modify-Keeps f w = refl

  pub record_ready-Keeps :
      (holds : Bool) (r : Reason) → Keeps {C = C} {S = S} (record_ready holds r)
  unfolding Keeps record_ready set_ready
  record_ready-Keeps holds r w =
      elim (Bool-cases (same_condition w.cr.ready (record { holds = holds; reason = r }))) [
        | inl t ↦ rw t refl
        | inr f ↦ rw f refl
      ]

  pub record_not_synced-Keeps : (r : Reason) → Keeps {C = C} {S = S} (record_not_synced r)
  unfolding Keeps record_not_synced set_synced
  record_not_synced-Keeps r w =
      elim (Bool-cases (same_condition w.cr.synced (record { holds = false; reason = r }))) [
        | inl t ↦ rw t refl
        | inr f ↦ rw f refl
      ]

  pub reject_with-Keeps :
      (A : Type 0) (r : Reason) (e : ClusterError) → Keeps {C = C} {S = S} (reject_with {A = A} r e)
  unfolding Keeps reject_with
  reject_with-Keeps A r e w = refl

  -- A refusal with a condition.
  pub refuse-Keeps :
      (A : Type 0) (r : Reason) (e : ClusterError)
      → Keeps {C = C} {S = S} (record_not_synced r >> fail {A = A} e)
  refuse-Keeps A r e =
      bind-Keeps {C = C} {S = S} (record_not_synced r) (λ _. fail e) (record_not_synced-Keeps r)
        (λ _. fail-Keeps A e)

  -- A condition, and an answer.
  pub report-Keeps :
      {A : Type 0} (holds : Bool) (r : Reason) (a : A)
      → Keeps {C = C} {S = S} (record_ready holds r >> done a)
  report-Keeps holds r a =
      bind-Keeps (record_ready holds r) (λ _. done a) (record_ready-Keeps holds r)
        (λ _. done-Keeps a)

  pub resolve_dimension-Keeps :
      (resolver : CatalogResolver C) (dim : Dimension) (i : ResolveInput)
      → Keeps {C = C} {S = S} (resolve_dimension resolver dim i)
  unfolding Keeps resolve_dimension
  resolve_dimension-Keeps resolver dim i w = refl

  pub event-Keeps : (r : Reason) → Keeps {C = C} {S = S} (event r)
  unfolding Keeps
  event-Keeps r w = refl

  pub with_cr-Keeps :
      {A : Type 0} (f : Cluster → Handler C S A)
      → ((cr : Cluster) → Keeps (f cr))
      → Keeps (with_cr f)
  unfolding Keeps
  with_cr-Keeps f h w = h w.cr w

  pub attempt-Keeps :
      {A B : Type 0} (m : Handler C S A) (f : Outcome ClusterError A → Handler C S B)
      → Keeps m
      → ((r : Outcome ClusterError A) → Keeps (f r))
      → Keeps (attempt m f)
  unfolding Keeps attempt
  attempt-Keeps m f h k w = k (m w).0 (m w).1 ∙ h w

  pub if-Keeps :
      {A : Type 0} (b : Bool) (m n : Handler C S A) → Keeps m → Keeps n → Keeps (if b then m else n)
  if-Keeps true m n h k = h
  if-Keeps false m n h k = k

  -- A call that reads.
  pub read-Keeps :
      {A : Type 0} (f : S → Outcome ClusterError A × S)
      → ((s : S) → (f s).1 ≡ s)
      → Keeps {C = C} (call f)
  unfolding Keeps
  read-Keeps f h w = h w.upstream

-- What a handler is made of, where it makes no call.
pub ruleset no_call = (
  bind-Keeps, if-Keeps, with_cr-Keeps, attempt-Keeps, done-Keeps, fail-Keeps, modify-Keeps,
  event-Keeps, report-Keeps,
)
