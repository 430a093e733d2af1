-- ===== src/Firewall/World.antt =====
-- What a handler of internal/controller/network/firewall_external.go works on: the resource, the
-- events that it emits, and the upstream.
use crossplane_provider_time.Prelude.{Bool, List, ◌∷◌, some, if◌then◌else◌}
use crossplane_provider_time.Prelude.Run.{Run}
unfoldable pub use crossplane_provider_time.Prelude.Run.{then_do, ◌>>=◌, ◌>>◌, attempt, each}
pub use crossplane_provider_time.Prelude.Run.{bind-returned, bind-returns, done, fail}
use crossplane_provider_time.Firewall.{Firewall, Reason, Outcome, returned, FirewallError}

-- `recorder` says whether the event recorder is set; the newest event comes first.
pub record World (S : Type 0) : Type 0 where
  pub cr : Firewall
  pub recorder : Bool
  pub events : List Reason
  pub upstream : S

abbrev pub Handler : Type 0 → Type 0 → Type 0
Handler S A = Run (World S) FirewallError A

module _ {S : Type 0} {A : Type 0} where
  -- A call of the upstream.
  abbrev pub call : (S → Outcome A × S) → Handler S A
  call f w = let r = f w.upstream in (r.0, record w { upstream = r.1 })

module _ {S : Type 0} where
  abbrev pub modify : (Firewall → Firewall) → Handler S (Unit {0})
  modify f w = (returned tt, record w { cr = f w.cr })

  -- `SetConditions` for the type Ready.
  abbrev pub set_ready : Reason → Handler S (Unit {0})
  set_ready r = modify (λ cr. record cr { ready = some r })

  -- `SetConditions(SyncedFalse(…))` with the warning event.
  abbrev pub warn : Reason → Handler S (Unit {0})
  warn r w = (
    returned tt,
    record w {
      cr = record w.cr { synced = some r };
      events = if w.recorder then r ∷ w.events else w.events;
    },
  )
