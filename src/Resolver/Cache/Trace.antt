-- ===== src/Resolver/Cache/Trace.antt =====
-- Sequences of calls on the cache of resolver/cache.go: how often a catalog is fetched.
use crossplane_provider_time.Prelude.{
  ℕ, ◌+◌, ◌<◌, ◌≡◌, refl, ◌⊎◌, inl, inr, Bool, true, false, none, some, List, [], ◌∷◌, arith,
  if◌then◌else◌, Bool-cases, All, subst, ap, ◌∙◌, sym,
}
use crossplane_provider_time.Resolver.Errors.{Result}
use crossplane_provider_time.Resolver.Cache.{
  CacheKey, Payload, CacheEntry, Cache, same_key, find_key, invalidate, expired, fresh_of, fresh,
  Times, get_or_fetch,
}
use crossplane_provider_time.Resolver.Cache.Keys.{same_key_iff, find_key-delete_key}
use crossplane_provider_time.Resolver.Cache.Call.{
  get_or_fetch-find_key, get_or_fetch-ttl, get_or_fetch-called,
}

-- A call of `Resolve` on a key, with what the fetcher would return, or of `Invalidate`.
pub data Op : Type 0 where
  get : CacheKey → Times → Result Payload → Op
  drop : CacheKey → Op

-- The calls on one key, as they went: the answer, and whether the fetcher was called.
pub record Log : Type 0 where
  pub answer : Result Payload
  pub fetched : Bool

-- The log of the key `k` over a sequence of calls on any keys.
unfoldable pub log : CacheKey → List Op → Cache → List Log
log k [] c = []
log k (drop j ∷ ops) c = log k ops (invalidate j c)
log k (get j t o ∷ ops) c =
    let r = get_or_fetch j t o c in
    let rest = log k ops r.cache in
    if same_key j k then record { answer = r.answer; fetched = r.fetched } ∷ rest else rest

-- The key is not invalidated, and each call on it begins before the time `until`.
abbrev pub IsQuiet : CacheKey → ℕ → Op → Type 0
IsQuiet k until (drop j) = same_key j k ≡ false
IsQuiet k until (get j t o) = (same_key j k ≡ false) ⊎ (t.first < until)

fresh_before :
    (k : CacheKey) (e : CacheEntry) (c : Cache) (now : ℕ)
    → find_key k c.entries ≡ some e
    → now < e.fetched_at + c.ttl
    → fresh c k now ≡ some e.outcome
unfolding fresh expired
fresh_before k e c now h lt = rw h (ground arith)

get_or_fetch-hit :
    (k : CacheKey) (t : Times) (o r : Result Payload) (c : Cache)
    → fresh c k t.first ≡ some r
    → get_or_fetch k t o c ≡ record { cache = c; answer = r; fetched = false }
unfolding get_or_fetch
get_or_fetch-hit k t o r c h = rw (h, get_or_fetch)

begins_before :
    (j k : CacheKey) (t : Times) (o : Result Payload) (until : ℕ)
    → same_key j k ≡ true
    → IsQuiet k until (get j t o)
    → t.first < until
begins_before j k t o until m (inl f) = cc
begins_before j k t o until m (inr lt) = lt

-- One fetch serves a key for the whole TTL: while a cache holds an entry for the key, through any
-- calls on any keys that do not invalidate this key, every call on the key that begins before the
-- entry is as old as the TTL is answered with the entry's outcome, and none calls the fetcher.
pub log-one_fetch :
    (k : CacheKey) (e : CacheEntry) (ops : List Op) (c : Cache)
    → find_key k c.entries ≡ some e
    → All (IsQuiet k (e.fetched_at + c.ttl)) ops
    → All (λ l. (l.answer ≡ e.outcome) × (l.fetched ≡ false)) (log k ops c)
unfolding log
log-one_fetch k e [] c h q = tt
log-one_fetch k e (drop j ∷ ops) c h q =
    log-one_fetch k e ops (invalidate j c)
      (unfold invalidate in (find_key-delete_key j k c.entries ∙ rw q.0 h))
      (unfold invalidate in q.1)
log-one_fetch k e (get j t o ∷ ops) c h q = elim (Bool-cases (same_key j k)) [
  | inr f ↦ rw f (
      log-one_fetch k e ops (get_or_fetch j t o c).cache (get_or_fetch-find_key j k t o c f ∙ h)
        (subst (λ n. All (IsQuiet k (e.fetched_at + n)) ops) (sym (get_or_fetch-ttl j t o c)) q.1))
  | inl m ↦
      let found : find_key j c.entries ≡ some e =
        subst (λ i. find_key i c.entries ≡ some e) (sym ((same_key_iff j k).0 m)) h in
      let hit =
        get_or_fetch-hit j t o e.outcome c
          (fresh_before j e c t.first found (begins_before j k t o _ m q.0)) in
      rw (m, hit) ((refl, refl), log-one_fetch k e ops c h q.1)
]

gone : (k : CacheKey) (c : Cache) → find_key k (invalidate k c).entries ≡ none
unfolding invalidate
gone k c = find_key-delete_key k k c.entries ∙ rw ((same_key_iff k k).1 refl) refl

fresh_gone : (k : CacheKey) (c : Cache) (now : ℕ) → fresh (invalidate k c) k now ≡ none
unfolding fresh
fresh_gone k c now = ap (fresh_of (invalidate k c) now) (gone k c)

-- After an invalidation the next call on the key fetches, whenever it comes.
pub get_or_fetch-invalidate :
    (k : CacheKey) (t : Times) (o : Result Payload) (c : Cache)
    → (get_or_fetch k t o (invalidate k c)).fetched ≡ true
get_or_fetch-invalidate k t o c =
    rw
      (get_or_fetch-called k t o (invalidate k c) (fresh_gone k c t.first) (fresh_gone k c t.again))
