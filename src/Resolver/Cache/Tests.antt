-- ===== src/Resolver/Cache/Tests.antt =====
-- Runs of resolver/cache.go, and its theorems at concrete caches.
use crossplane_provider_time.Prelude.{
  ℕ, ◌+◌, ◌≡◌, refl, inl, inr, Text, lit, true, false, List, [], ◌∷◌, arith, All, same, length,
}
use crossplane_provider_time.Resolver.Errors.{Result, ok, err, catalog_unauthorized}
use crossplane_provider_time.Resolver.Cache.{
  enum, CacheKey, Payload, values, CacheEntry, Cache, minute, new_cache, same_key, find_key, store,
  invalidate, expired, fresh, Times, get_or_fetch,
}
use crossplane_provider_time.Resolver.Cache.Trace.{Op, get, drop, log, log-one_fetch}

abbrev key : Text → CacheKey
key name = record {
  pc = record { kind = lit "ProviderConfig"; name = name; namespace = lit "team" };
  dim = record { name = lit "KubernetesVersion"; kind = enum };
}

abbrev at : ℕ → Times
at n = record { first = n; again = n; stored = n }

abbrev versions : Result Payload
versions = ok (values (lit "v1.32" ∷ []))

abbrev empty : Cache
empty = record { entries = []; ttl = minute }

abbrev entry : CacheEntry
entry = record { outcome = versions; fetched_at = 5 }

abbrev warm : Cache
warm = record { entries = (key (lit "a"), entry) ∷ []; ttl = minute }

cache_run : Unit {0}
unfolding new_cache same_key find_key store invalidate expired fresh get_or_fetch same log
cache_run = tt

warm_hit :
    (get_or_fetch (key (lit "a")) (at minute) (err (catalog_unauthorized 401 [])) warm).answer
    ≡ versions
unfolding cache_run
warm_hit = refl

expired_refetch :
    (get_or_fetch
      (key (lit "a"))
      (at (minute + 5))
      (err (catalog_unauthorized 401 []))
      warm).fetched
    ≡ true
unfolding cache_run
expired_refetch = refl

abbrev calls : List Op
calls =
    get (key (lit "a")) (at 9) (err (catalog_unauthorized 401 []))
    ∷ drop (key (lit "b"))
    ∷ get (key (lit "b")) (at 10) versions
    ∷ get (key (lit "a")) (at minute) versions
    ∷ []

two_calls : length (log (key (lit "a")) calls warm) ≡ 2
unfolding cache_run
two_calls = refl

log-one_fetch_example :
    All (λ l. (l.answer ≡ versions) × (l.fetched ≡ false)) (log (key (lit "a")) calls warm)
unfolding cache_run
log-one_fetch_example =
    log-one_fetch (key (lit "a")) entry calls warm refl
      (inr (omega arith), (refl, (inl refl, (inr (omega arith), tt))))
