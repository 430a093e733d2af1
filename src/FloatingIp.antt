-- ===== src/FloatingIp.antt =====
-- internal/controller/compute/floatingip_bind.go, and how `Observe`, `Update` and `Delete` of
-- server_external.go call it: the floating IPs of a server. `float32` is the rounding to a 32-bit
-- float of the id in the requests.
pub mod Assign
pub mod Sets
pub mod Refines
mod Tests
use crossplane_provider_time.Prelude.{
  Text, lit, List, [], ◌∷◌, ◌++◌, Option, none, some, Bool, true, false, ◌&&◌, if◌then◌else◌, same,
  contains, length, ◌==◌,
}
use crossplane_provider_time.Prelude.Int.{ℤ, eq_ℤ}
use crossplane_provider_time.Prelude.Run
pub use crossplane_provider_time.Prelude.Run.{returned, failed}
use crossplane_provider_time.Prelude.Run.{Run, ◌>>=◌, ◌>>◌, attempt, done, fail}

pub data BindError : Type 0 where
  not_found : BindError
  api_failure : Text → BindError

abbrev pub Outcome : Type 0 → Type 0
Outcome A = Run.Outcome BindError A

-- The id of a resource: a number, or a text.
pub data ResourceId : Type 0 where
  number : ℤ → ResourceId
  other : Text → ResourceId

-- The answer to a request for a floating IP.
pub record FloatingIp : Type 0 where
  pub resource_type : Option Text
  pub resource_id : Option ResourceId

-- The calls of the API, classified and decoded.
pub record FloatingIpApi (S : Type 0) : Type 0 where
  pub get_floating_ip : Text → S → Outcome FloatingIp × S
  -- To bind to a server with this id.
  pub bind_floating_ip : Text → ℤ → S → Outcome (Unit {0}) × S
  pub unbind_floating_ip : Text → S → Outcome (Unit {0}) × S

abbrev server_id : Option ResourceId → Option ℤ
server_id (some (number n)) = some n
server_id _ = none

abbrev server_of_type : Option Text → Option ResourceId → Option ℤ
server_of_type none r = none
server_of_type (some t) r = if same t (lit "server") then server_id r else none

-- The server that a floating IP is bound to.
unfoldable pub server_of : FloatingIp → Option ℤ
server_of ip = server_of_type ip.resource_type ip.resource_id

abbrev pub is_server : ℤ → Option ℤ → Bool
is_server server none = false
is_server server (some n) = eq_ℤ n server

-- `dedupeStrings`, and the keys of the map that `toSet` makes.
unfoldable pub dedupe_from : List Text → List Text → List Text
dedupe_from seen [] = []
dedupe_from seen (s ∷ ss) =
    let skipped = dedupe_from seen ss in
    let kept = s ∷ dedupe_from (s ∷ seen) ss in if contains seen s then skipped else kept

unfoldable pub dedupe_strings : List Text → List Text
unfolding dedupe_from
dedupe_strings ss = dedupe_from [] ss

unfoldable pub all_in : List Text → List Text → Bool
all_in [] b = true
all_in (s ∷ a) b = contains b s && all_in a b

unfoldable pub string_sets_equal : List Text → List Text → Bool
unfolding dedupe_strings all_in
string_sets_equal a b =
    length (dedupe_strings a) == length (dedupe_strings b) && all_in (dedupe_strings a) b

module _ {S : Type 0} (api : FloatingIpApi S) (float32 : ℤ → ℤ) (server : ℤ) where
  abbrev pub Handler : Type 0 → Type 0
  Handler A = Run S BindError A

  unfoldable pub bound_server : Outcome FloatingIp → Handler (Option ℤ)
  unfolding server_of
  bound_server (failed not_found) = done none
  bound_server (failed x) = fail x
  bound_server (returned ip) = done (server_of ip)

  unfoldable pub floating_ip_bound_server : Text → Handler (Option ℤ)
  unfolding bound_server
  floating_ip_bound_server id = attempt (api.get_floating_ip id) bound_server

  unfoldable pub observe_each : List Text → Handler (List Text)
  unfolding floating_ip_bound_server
  observe_each [] = done []
  observe_each (id ∷ ids) =
      let others = observe_each ids in
      floating_ip_bound_server id >>= λ bound_to.
      others >>= λ rest. done (if is_server server bound_to then id ∷ rest else rest)

  unfoldable pub observe_bound_floating_ips : List Text → Handler (List Text)
  unfolding observe_each dedupe_strings
  observe_bound_floating_ips candidates = observe_each (dedupe_strings candidates)

  unfoldable pub bind_floating_ip : Text → Handler (Unit {0})
  bind_floating_ip id = api.bind_floating_ip id (float32 server)

  unfoldable pub unbound : Outcome (Unit {0}) → Handler (Unit {0})
  unbound (failed not_found) = done tt
  unbound (failed x) = fail x
  unbound (returned _) = done tt

  unfoldable pub unbind_floating_ip : Text → Handler (Unit {0})
  unfolding unbound
  unbind_floating_ip id = attempt (api.unbind_floating_ip id) unbound

  unfoldable pub unbind_each : List Text → List Text → Handler (Unit {0})
  unfolding unbind_floating_ip
  unbind_each desired [] = done tt
  unbind_each desired (id ∷ ids) =
      let rest = unbind_each desired ids in
      if contains desired id then rest else unbind_floating_ip id >> rest

  -- The loop ends at the first one to bind where the server is not on.
  unfoldable pub bind_each : List Text → Bool → List Text → Handler (Unit {0})
  unfolding bind_floating_ip
  bind_each bound server_on [] = done tt
  bind_each bound server_on (id ∷ ids) =
      let rest = bind_each bound server_on ids in
      if contains bound id then rest else if server_on then bind_floating_ip id >> rest else done tt

  unfoldable pub reconcile_floating_ip_bindings : List Text → List Text → Bool → Handler (Unit {0})
  unfolding unbind_each bind_each dedupe_strings
  reconcile_floating_ip_bindings desired currently_bound server_on =
      unbind_each desired (dedupe_strings currently_bound)
      >> bind_each currently_bound server_on (dedupe_strings desired)

  -- What `Observe` does, with the ids that the status records: those that are bound, and whether
  -- they are the desired ones.
  unfoldable pub observe_bindings : List Text → List Text → Handler (List Text × Bool)
  unfolding observe_bound_floating_ips string_sets_equal
  observe_bindings desired recorded = observe_bound_floating_ips (desired ++ recorded) >>= λ bound.
      done (bound, string_sets_equal bound desired)

  -- What `Update` does.
  unfoldable pub update_bindings : List Text → List Text → Bool → Handler (Unit {0})
  unfolding observe_bound_floating_ips reconcile_floating_ip_bindings
  update_bindings desired recorded server_on =
      observe_bound_floating_ips (desired ++ recorded) >>= λ bound.
      reconcile_floating_ip_bindings desired bound server_on

  -- What `Delete` does before it deletes the server.
  unfoldable pub delete_bindings : List Text → Handler (Unit {0})
  unfolding unbind_floating_ip
  delete_bindings [] = done tt
  delete_bindings (id ∷ ids) = let rest = delete_bindings ids in unbind_floating_ip id >> rest
