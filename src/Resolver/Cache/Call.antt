-- ===== src/Resolver/Cache/Call.antt =====
-- One call of `getOrFetch` of resolver/cache.go: what it answers, stores and leaves alone.
use crossplane_provider_time.Prelude.{
  ℕ, ◌≡◌, refl, inl, inr, true, false, Option, none, some, List, [], ◌∷◌, arith, Bool-cases,
  Option-cases, All, subst, ap, ◌∙◌, ◌+◌, ◌<◌,
}
use crossplane_provider_time.Resolver.Errors.{catalog_transient, Result, ok, err}
use crossplane_provider_time.Resolver.Cache.{
  CacheKey, Payload, CacheEntry, Cache, same_key, find_key, delete_key, store, invalidate, expired,
  is_empty_slice, is_unauthorized, called, fresh_of, fresh, settle, Times, get_or_fetch,
}
use crossplane_provider_time.Resolver.Cache.Keys.{find_key-store}

-- An outcome that the cache may hold: a payload with entries, or the denial of the catalog.
abbrev pub IsCacheable : Result Payload → Type 0
IsCacheable (ok p) = is_empty_slice p ≡ false
IsCacheable (err x) = is_unauthorized x ≡ true

abbrev EntryIsCacheable : CacheKey × CacheEntry → Type 0
EntryIsCacheable (k, e) = IsCacheable e.outcome

-- What every cache satisfies.
abbrev pub IsSound : Cache → Type 0
IsSound c = All EntryIsCacheable c.entries

delete_key-All :
    (k : CacheKey) (m : List (CacheKey × CacheEntry))
    → All EntryIsCacheable m
    → All EntryIsCacheable (delete_key k m)
unfolding delete_key
delete_key-All k [] h = tt
delete_key-All k ((j, e) ∷ m) h = elim (Bool-cases (same_key j k)) [
  | inl t ↦ rw t (delete_key-All k m h.1)
  | inr f ↦ rw f (h.0, delete_key-All k m h.1)
]

store-IsSound :
    (k : CacheKey) (e : CacheEntry) (c : Cache)
    → IsCacheable e.outcome
    → IsSound c
    → IsSound (store k e c)
unfolding store
store-IsSound k e c p h = (p, delete_key-All k c.entries h)

settle-IsSound :
    (k : CacheKey) (now : ℕ) (o : Result Payload) (c : Cache)
    → IsSound c
    → IsSound (settle k now o c).0
unfolding settle
settle-IsSound k now (err x) c h = elim (Bool-cases (is_unauthorized x)) [
  | inl t ↦ rw t (store-IsSound k _ c t h)
  | inr f ↦ rw f h
]
settle-IsSound k now (ok p) c h = elim (Bool-cases (is_empty_slice p)) [
  | inl t ↦ rw t h
  | inr f ↦ rw f (store-IsSound k _ c f h)
]

-- The two ways of a call: an answer from the cache, or a fetch.
data Way (k : CacheKey) (t : Times) (o : Result Payload) (c : Cache) : Type 0 where
  hit :
      (now : ℕ) (r : Result Payload)
      → fresh c k now ≡ some r
      → get_or_fetch k t o c ≡ record { cache = c; answer = r; fetched = false }
      → Way k t o c
  miss :
      fresh c k t.first ≡ none
      → fresh c k t.again ≡ none
      → get_or_fetch k t o c ≡ called (settle k t.stored o c)
      → Way k t o c

way : (k : CacheKey) (t : Times) (o : Result Payload) (c : Cache) → Way k t o c
unfolding get_or_fetch
way k t o c = elim (Option-cases (fresh c k t.first)) [
  | inr (r, e) ↦ hit t.first r e (rw (e, get_or_fetch))
  | inl e ↦ elim (Option-cases (fresh c k t.again)) [
    | inr (r, f) ↦ hit t.again r f (rw (e, get_or_fetch) (rw f))
    | inl f ↦ miss e f (rw (e, get_or_fetch) (rw f))
  ]
]

-- Every call keeps the cache sound, whatever the fetcher returns.
pub get_or_fetch-IsSound :
    (k : CacheKey) (t : Times) (o : Result Payload) (c : Cache)
    → IsSound c
    → IsSound (get_or_fetch k t o c).cache
get_or_fetch-IsSound k t o c h = elim (way k t o c) [
  | hit now r f e ↦ rw e h
  | miss f g e ↦ rw e (settle-IsSound k t.stored o c h)
]

pub invalidate-IsSound : (k : CacheKey) (c : Cache) → IsSound c → IsSound (invalidate k c)
unfolding invalidate
invalidate-IsSound k c h = delete_key-All k c.entries h

find_key-All :
    (k : CacheKey) (m : List (CacheKey × CacheEntry)) (e : CacheEntry)
    → All EntryIsCacheable m
    → find_key k m ≡ some e
    → IsCacheable e.outcome
unfolding find_key
find_key-All k [] e h f = cc
find_key-All k ((j, x) ∷ m) e h f = elim (Bool-cases (same_key j k)) [
  | inl t ↦
      let g : some x ≡ some e = rw t at f in
      let p : x ≡ e = cc in subst (λ y. IsCacheable y.outcome) p h.0
  | inr t ↦ find_key-All k m e h.1 (rw t at f)
]

-- A fresh answer is that of an entry which has not expired.
pub fresh-some :
    (c : Cache) (k : CacheKey) (now : ℕ) (r : Result Payload)
    → fresh c k now ≡ some r
    → (e : CacheEntry) × (find_key k c.entries ≡ some e)
      × (e.outcome ≡ r)
      × (now < e.fetched_at + c.ttl)
unfolding fresh expired
fresh-some c k now r h = go (find_key k c.entries) refl
  where
    go :
        (o : Option CacheEntry)
        → find_key k c.entries ≡ o
        → (e : CacheEntry) × (find_key k c.entries ≡ some e)
          × (e.outcome ≡ r)
          × (now < e.fetched_at + c.ttl)
    go none f = let g : none ≡ some r = (rw f at h) in cc
    go (some e) f =
        let g : fresh_of c now (some e) ≡ some r = (rw f at h) in (e, f, ground arith, ground arith)

settle-ok :
    (k : CacheKey) (now : ℕ) (o : Result Payload) (c : Cache) (p : Payload)
    → (settle k now o c).1 ≡ ok p
    → (o ≡ ok p) × (is_empty_slice p ≡ false)
unfolding settle
settle-ok k now (err x) c p h = elim (Bool-cases (is_unauthorized x)) [
  | inl t ↦ let g : err x ≡ ok p = (rw t at h) in cc
  | inr f ↦ let g : err x ≡ ok p = (rw f at h) in cc
]
settle-ok k now (ok q) c p h = elim (Bool-cases (is_empty_slice q)) [
  | inl t ↦ let g : err (catalog_transient none []) ≡ ok p = (rw t at h) in cc
  | inr f ↦ let g : ok q ≡ ok p = (rw f at h) in (g, ground arith)
]

-- A sound cache never answers with an empty catalog, neither from the store nor from a fetch.
pub get_or_fetch-not_empty :
    (k : CacheKey) (t : Times) (o : Result Payload) (c : Cache) (p : Payload)
    → IsSound c
    → (get_or_fetch k t o c).answer ≡ ok p
    → is_empty_slice p ≡ false
get_or_fetch-not_empty k t o c p h a = elim (way k t o c) [
  | hit now r f e ↦
      let q : r ≡ ok p = (rw e at a) in
      let (x, found, same_out, _) = fresh-some c k now r f in
      subst IsCacheable (same_out ∙ q) (find_key-All k c.entries x h found)
  | miss f g e ↦ (settle-ok k t.stored o c p (rw e at a)).1
]

settle-other :
    (k j : CacheKey) (now : ℕ) (o : Result Payload) (c : Cache)
    → same_key k j ≡ false
    → find_key j (settle k now o c).0.entries ≡ find_key j c.entries
unfolding settle
settle-other k j now (err x) c h = elim (Bool-cases (is_unauthorized x)) [
  | inl t ↦ rw (t, find_key-store, h)
  | inr f ↦ rw f
]
settle-other k j now (ok p) c h = elim (Bool-cases (is_empty_slice p)) [
  | inl t ↦ rw t
  | inr f ↦ rw (f, find_key-store, h)
]

-- A call on one key leaves the entries of every other key as they were.
pub get_or_fetch-find_key :
    (k j : CacheKey) (t : Times) (o : Result Payload) (c : Cache)
    → same_key k j ≡ false
    → find_key j (get_or_fetch k t o c).cache.entries ≡ find_key j c.entries
get_or_fetch-find_key k j t o c h = elim (way k t o c) [
  | hit now r f e ↦ rw e
  | miss f g e ↦ rw e (settle-other k j t.stored o c h)
]

settle-ttl :
    (k : CacheKey) (now : ℕ) (o : Result Payload) (c : Cache) → (settle k now o c).0.ttl ≡ c.ttl
unfolding settle store
settle-ttl k now (err x) c = ground arith
settle-ttl k now (ok p) c = ground arith

pub get_or_fetch-ttl :
    (k : CacheKey) (t : Times) (o : Result Payload) (c : Cache)
    → (get_or_fetch k t o c).cache.ttl ≡ c.ttl
get_or_fetch-ttl k t o c = elim (way k t o c) [
  | hit now r f e ↦ rw e
  | miss f g e ↦ rw e (settle-ttl k t.stored o c)
]

pub get_or_fetch-called :
    (k : CacheKey) (t : Times) (o : Result Payload) (c : Cache)
    → fresh c k t.first ≡ none
    → fresh c k t.again ≡ none
    → get_or_fetch k t o c ≡ called (settle k t.stored o c)
unfolding get_or_fetch
get_or_fetch-called k t o c f g = rw (f, get_or_fetch) (rw g)

settle-stores :
    (k : CacheKey) (now : ℕ) (o : Result Payload) (c : Cache)
    → IsCacheable o
    → settle k now o c ≡ (store k (record { outcome = o; fetched_at = now }) c, o)
unfolding settle
settle-stores k now (err x) c h = rw h
settle-stores k now (ok p) c h = rw h

-- A call for a key without a fresh entry fetches; an outcome that is a payload with entries, or
-- the denial of the catalog, is the answer and is stored with the time at which it came.
pub get_or_fetch-stores :
    (k : CacheKey) (t : Times) (o : Result Payload) (c : Cache)
    → fresh c k t.first ≡ none
    → fresh c k t.again ≡ none
    → IsCacheable o
    → get_or_fetch k t o c ≡ record {
      cache = store k (record { outcome = o; fetched_at = t.stored }) c;
      answer = o;
      fetched = true;
    }
get_or_fetch-stores k t o c f g h =
    get_or_fetch-called k t o c f g ∙ ap called (settle-stores k t.stored o c h)

-- What is answered in place of an outcome that is not stored.
abbrev pub dropped : Result Payload → Result Payload
dropped (err x) = err x
dropped (ok p) = err (catalog_transient none [])

settle-drops :
    (k : CacheKey) (now : ℕ) (o : Result Payload) (c : Cache)
    → ¬ IsCacheable o
    → settle k now o c ≡ (c, dropped o)
unfolding settle
settle-drops k now (err x) c h = elim (Bool-cases (is_unauthorized x)) [
  | inl t ↦ absurd (h t)
  | inr f ↦ rw f
]
settle-drops k now (ok p) c h = elim (Bool-cases (is_empty_slice p)) [
  | inl t ↦ rw t
  | inr f ↦ absurd (h f)
]

-- A call for a key without a fresh entry fetches; any other outcome leaves the cache as it was, so
-- that the next call fetches again: a failure is passed on, and an empty catalog is answered as a
-- transient failure.
pub get_or_fetch-drops :
    (k : CacheKey) (t : Times) (o : Result Payload) (c : Cache)
    → fresh c k t.first ≡ none
    → fresh c k t.again ≡ none
    → ¬ IsCacheable o
    → get_or_fetch k t o c ≡ record { cache = c; answer = dropped o; fetched = true }
get_or_fetch-drops k t o c f g h =
    get_or_fetch-called k t o c f g ∙ ap called (settle-drops k t.stored o c h)
