-- ===== src/FloatingIp/Refines.antt =====
-- `Update` of internal/controller/compute/server_external.go refines an assignment to the map from
-- the floating IPs to the servers.
use crossplane_provider_time.Prelude.{
  ◌≡◌, refl, ap, sym, ◌∙◌, ◌↔◌, inl, inr, Text, List, [], ◌∷◌, ◌++◌, Option, none, some, Bool, true,
  false, not, ◌&&◌, ◌||◌, if◌then◌else◌, In, Bool-cases, keep, contains, contains_iff, same,
  same_iff, arith,
}
use crossplane_provider_time.Prelude.Int.{ℤ, eq_ℤ_iff}
use crossplane_provider_time.Prelude.Run.{bind-ended}
use crossplane_provider_time.Prelude.Distinct.{SameKeys}
use crossplane_provider_time.FloatingIp.{
  returned, FloatingIpApi, is_server, dedupe_strings, observe_bound_floating_ips,
  reconcile_floating_ip_bindings, observe_bindings, update_bindings,
}
use crossplane_provider_time.FloatingIp.Sets.{dedupe_strings-In, string_sets_equal_iff}
use crossplane_provider_time.FloatingIp.Assign.{
  IsFaithful, observe_each-keep, Ends, Ends-then, Ends-as, taken, given, unbind_each-Ends,
  bind_each-Ends,
}

-- The desired ones get the server, if it is on; the others that were recorded lose it.
unfoldable pub assign : Bool → List Text → List Text → ℤ → (Text → Option ℤ) → Text → Option ℤ
assign server_on desired recorded server holder k =
    if contains desired k
    then (if server_on then some server else holder k)
    else if contains recorded k && is_server server (holder k)
    then none
    else holder k

is_server-some : (server : ℤ) (o : Option ℤ) → is_server server o ≡ true → o ≡ some server
is_server-some server none h = cc
is_server-some server (some n) h = ap some ((eq_ℤ_iff n server).0 h)

same_of_iff : (b c : Bool) → (b ≡ true) ↔ (c ≡ true) → b ≡ c
same_of_iff b c h = ground arith

contains-append :
    (l m : List Text) (k : Text) → contains (l ++ m) k ≡ (contains l k || contains m k)
unfolding contains
contains-append [] m k = refl
contains-append (s ∷ l) m k = rw (contains-append l m k) (ground arith)

contains-keep :
    (p : Text → Bool) (l : List Text) (k : Text) → contains (keep p l) k ≡ (contains l k && p k)
unfolding contains
contains-keep p [] k = refl
contains-keep p (s ∷ l) k = elim (Bool-cases (same s k)) [
  | inl t ↦
      let e : p s ≡ p k = ap p ((same_iff s k).0 t) in
      elim (Bool-cases (p s)) [
        | inl y ↦ (let z : p k ≡ true = sym e ∙ y in rw (y, t, z) refl)
        | inr n ↦
            (let z : p k ≡ false = sym e ∙ n in rw (n, t, contains-keep p l k, z) (ground arith))
      ]
  | inr f ↦ elim (Bool-cases (p s)) [
    | inl y ↦ rw (y, f) (contains-keep p l k)
    | inr n ↦ rw (n, f) (contains-keep p l k)
  ]
]

contains-dedupe_strings : (l : List Text) (k : Text) → contains (dedupe_strings l) k ≡ contains l k
contains-dedupe_strings l k =
    let d = dedupe_strings-In l k in
    let a = contains_iff (dedupe_strings l) k in
    let b = contains_iff l k in same_of_iff _ _ ((λ h. b.1 (d.0 (a.0 h))), (λ h. a.1 (d.1 (b.0 h))))

module _ {S : Type 0} (api : FloatingIpApi S) (float32 : ℤ → ℤ) (server : ℤ)
    (holder : S → Text → Option ℤ) (faithful : IsFaithful api holder) where
  -- Those of the candidates that the server has.
  abbrev held : List Text → S → List Text
  held candidates s = keep (λ id. is_server server (holder s id)) (dedupe_strings candidates)

  observe_bound_floating_ips-held :
      (candidates : List Text) (s : S)
      → observe_bound_floating_ips api float32 server candidates s
        ≡ (returned (held candidates s), s)
  unfolding observe_bound_floating_ips
  observe_bound_floating_ips-held candidates s =
      observe_each-keep api float32 server holder faithful (dedupe_strings candidates) s

  contains-held :
      (desired recorded : List Text) (s : S) (k : Text)
      → contains (held (desired ++ recorded) s) k
        ≡ ((contains desired k || contains recorded k) && is_server server (holder s k))
  contains-held desired recorded s k =
      contains-keep (λ id. is_server server (holder s id)) (dedupe_strings (desired ++ recorded)) k
      ∙ ap (λ b. b && is_server server (holder s k))
          (contains-dedupe_strings (desired ++ recorded) k ∙ contains-append desired recorded k)

  reconcile-Ends :
      (desired bound : List Text) (server_on : Bool) (s : S)
      → Ends api float32 server holder faithful
          (reconcile_floating_ip_bindings api float32 server desired bound server_on s)
          (given api float32 server holder faithful server_on bound
            (dedupe_strings desired)
            (taken api float32 server holder faithful desired (dedupe_strings bound) (holder s)))
  unfolding reconcile_floating_ip_bindings
  reconcile-Ends desired bound server_on s =
      Ends-then api float32 server holder faithful _ _ s _ _
        (unbind_each-Ends api float32 server holder faithful desired (dedupe_strings bound) s
          (holder s) (λ k. refl))
        (λ u e.
          bind_each-Ends api float32 server holder faithful bound (dedupe_strings desired) server_on
            u _ e)

  as_assigned :
      (desired recorded : List Text) (server_on : Bool) (s : S) (k : Text)
      → float32 server ≡ server
      → given api float32 server holder faithful server_on
          (held (desired ++ recorded) s)
          (dedupe_strings desired)
          (taken api float32 server holder faithful desired
            (dedupe_strings (held (desired ++ recorded) s))
            (holder s))
          k
        ≡ assign server_on desired recorded server (holder s) k
  unfolding assign
  as_assigned desired recorded server_on s k exact =
      rw
        (
          contains-dedupe_strings desired k,
          contains-dedupe_strings (held (desired ++ recorded) s) k,
          contains-held desired recorded s k,
          exact,
        )
        (by_cases server_on (contains desired k) (contains recorded k)
          (is_server server (holder s k)) (holder s k) (is_server-some server (holder s k)))
    where
      by_cases :
          (on d r b : Bool) (o : Option ℤ)
          → (b ≡ true → o ≡ some server)
          → (if on && (d && not ((d || r) && b))
              then some server
              else if ((d || r) && b) && not d
              then none
              else o)
            ≡ (if d then (if on then some server else o) else if r && b then none else o)
      by_cases true true r true o h = h refl
      by_cases true true r false o h = refl
      by_cases false true r true o h = refl
      by_cases false true r false o h = refl
      by_cases true false true true o h = refl
      by_cases true false true false o h = refl
      by_cases true false false b o h = refl
      by_cases false false true true o h = refl
      by_cases false false true false o h = refl
      by_cases false false false b o h = refl

  -- `Update` refines the assignment: where the upstream answers with the servers that the floating
  -- IPs are bound to and carries out the requests, and the server's id is exact as a 32-bit float,
  -- the part of `Update` for floating IPs succeeds, and then every floating IP is bound as it is
  -- assigned: a desired one to the server, if that is on, one that was recorded and is not desired
  -- to none, if the server had it, and any other as before.
  pub update_bindings-assign :
      (desired recorded : List Text) (server_on : Bool) (s : S)
      → float32 server ≡ server
      → ((update_bindings api float32 server desired recorded server_on s).0 ≡ returned tt)
        × ((k : Text)
            → holder (update_bindings api float32 server desired recorded server_on s).1 k
              ≡ assign server_on desired recorded server (holder s) k)
  unfolding update_bindings
  update_bindings-assign desired recorded server_on s exact =
      rw (bind-ended _ _ s s _ (observe_bound_floating_ips-held (desired ++ recorded) s)) (
        Ends-as api float32 server holder faithful _ _ _
          (reconcile-Ends desired (held (desired ++ recorded) s) server_on s)
          (λ k. as_assigned desired recorded server_on s k exact))

  held_as_assigned :
      (desired recorded : List Text) (s u : S) (k : Text)
      → holder u k ≡ assign true desired recorded server (holder s) k
      → contains (held (desired ++ recorded) u) k ≡ contains desired k
  unfolding assign
  held_as_assigned desired recorded s u k h =
      contains-held desired recorded u k
      ∙ ap (λ o. (contains desired k || contains recorded k) && is_server server o) h
      ∙ by_cases (contains desired k) (contains recorded k) (is_server server (holder s k))
          (holder s k) refl
    where
      own : is_server server (some server) ≡ true
      own = (eq_ℤ_iff server server).1 refl

      by_cases :
          (d r b : Bool) (o : Option ℤ)
          → is_server server o ≡ b
          → ((d || r) && is_server server (if d then some server else if r && b then none else o))
            ≡ d
      by_cases true r b o e = own
      by_cases false true true o e = refl
      by_cases false true false o e = e
      by_cases false false b o e = refl

  -- What `Update` did is what `Observe` asks for: under the same conditions, and with the server
  -- on, the next `Observe` finds the desired floating IPs bound, whatever the order, and reports
  -- that they are up to date.
  pub observe_bindings-update_bindings :
      (desired recorded : List Text) (s : S)
      → float32 server ≡ server
      → (bound : List Text) × SameKeys bound desired
        × ((observe_bindings api float32 server desired recorded
              (update_bindings api float32 server desired recorded true s).1).0
            ≡ returned (bound, true))
  unfolding observe_bindings
  observe_bindings-update_bindings desired recorded s exact =
      let u = (update_bindings api float32 server desired recorded true s).1 in
      let now = (update_bindings-assign desired recorded true s exact).1 in
      let bound = held (desired ++ recorded) u in
      let same_ids : SameKeys bound desired =
        λ k. keys_of bound desired k (held_as_assigned desired recorded s u k (now k)) in
      let equal = (string_sets_equal_iff bound desired).1 same_ids in
      (
        bound,
        same_ids,
        rw (bind-ended _ _ u u _ (observe_bound_floating_ips-held (desired ++ recorded) u), equal)
            refl,
      )
    where
      keys_of : (l m : List Text) (k : Text) → contains l k ≡ contains m k → In k l ↔ In k m
      keys_of l m k e =
          let a = contains_iff l k in
          let b = contains_iff m k in ((λ i. b.0 (sym e ∙ a.1 i)), (λ i. a.0 (e ∙ b.1 i)))
