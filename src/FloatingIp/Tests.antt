-- ===== src/FloatingIp/Tests.antt =====
-- Runs of internal/controller/compute/floatingip_bind.go at a small upstream, and the theorems at
-- it.
use crossplane_provider_time.Prelude.{
  ◌≡◌, refl, inl, Text, lit, List, [], ◌∷◌, Option, none, some, true, if◌then◌else◌, same, contains,
}
use crossplane_provider_time.Prelude.Int.{ℤ, pos}
use crossplane_provider_time.Prelude.Distinct.{SameKeys}
use crossplane_provider_time.FloatingIp.{
  returned, ResourceId, number, FloatingIp, FloatingIpApi, server_of, dedupe_from, dedupe_strings,
  all_in, string_sets_equal, observe_bindings, update_bindings,
}
use crossplane_provider_time.FloatingIp.Assign.{IsFaithful}
use crossplane_provider_time.FloatingIp.Refines.{
  assign, update_bindings-assign, observe_bindings-update_bindings,
}

-- The server of each floating IP.
abbrev Store : Type 0
Store = Text → Option ℤ

abbrev resource : Option ℤ → Option ResourceId
resource none = none
resource (some n) = some (number n)

abbrev set : Text → Option ℤ → Store → Store
set id o s = λ k. if same id k then o else s k

abbrev ip : Option ℤ → FloatingIp
ip o = record { resource_type = some (lit "server"); resource_id = resource o }

abbrev store_api : FloatingIpApi Store
store_api = record {
  get_floating_ip = λ id s. (returned (ip (s id)), s);
  bind_floating_ip = λ id n s. (returned tt, set id (some n) s);
  unbind_floating_ip = λ id s. (returned tt, set id none s);
}

shown : (o : Option ℤ) → server_of (ip o) ≡ o
unfolding server_of same
shown none = refl
shown (some n) = refl

store_api-IsFaithful : IsFaithful store_api (λ s. s)
store_api-IsFaithful = record {
  shows = λ id s. inl (ip (s id), refl, shown (s id));
  binds = λ id n s. (refl, λ k. refl);
  unbinds = λ id s. (inl refl, λ k. refl);
}

abbrev exact : ℤ → ℤ
exact n = n

-- The server 7 has "a" and "b", and the server 9 has "c".
abbrev before : Store
before =
    set (lit "a") (some (pos 7))
      (set (lit "b") (some (pos 7)) (set (lit "c") (some (pos 9)) (λ k. none)))

abbrev desired : List Text
desired = lit "b" ∷ lit "d" ∷ lit "b" ∷ []

abbrev recorded : List Text
recorded = lit "a" ∷ lit "b" ∷ []

-- "a" is unbound, and "c" stays where it is.
a_is_unbound : assign true desired recorded (pos 7) before (lit "a") ≡ none
unfolding assign contains same
a_is_unbound = refl

c_is_kept : assign true desired recorded (pos 7) before (lit "c") ≡ some (pos 9)
unfolding assign contains same
c_is_kept = refl

update_bindings-assign_example :
    ((update_bindings store_api exact (pos 7) desired recorded true before).0 ≡ returned tt)
    × ((k : Text)
        → (update_bindings store_api exact (pos 7) desired recorded true before).1 k
          ≡ assign true desired recorded (pos 7) before k)
update_bindings-assign_example =
    update_bindings-assign store_api exact (pos 7) (λ s. s) store_api-IsFaithful desired recorded
      true before refl

observe_bindings-update_bindings_example :
    (bound : List Text) × SameKeys bound desired
    × ((observe_bindings store_api exact
          (pos 7)
          desired
          recorded
          (update_bindings store_api exact (pos 7) desired recorded true before).1).0
        ≡ returned (bound, true))
observe_bindings-update_bindings_example =
    observe_bindings-update_bindings store_api exact (pos 7) (λ s. s) store_api-IsFaithful desired
      recorded before refl

repeats_do_not_count :
    string_sets_equal (lit "a" ∷ lit "b" ∷ lit "a" ∷ []) (lit "b" ∷ lit "a" ∷ []) ≡ true
unfolding string_sets_equal dedupe_strings dedupe_from all_in contains same
repeats_do_not_count = refl
