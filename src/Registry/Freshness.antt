-- ===== src/Registry/Freshness.antt =====
-- What a lookup may return, and for how long a fetched entry is served.
use ai_platform_sdk.Prelude.{
  ℕ, ◌+◌, ◌<◌, ◌≤◌, String, ◌≡◌, refl, ◌⊎◌, inl, inr, false, Option, none, some, arith, ltb,
  if◌then◌else◌,
}
use text.Mathlib.TextPositions.{eq_refl}
use ai_platform_sdk.Prelude.Dict.{lookup, insert, lookup-insert}
use ai_platform_sdk.Resilience.{is_open, record_success, record_failure}
use ai_platform_sdk.Registry.{
  RegistryEntry, CacheEntry, RegistryClient, Answer, request_error, Found, found, raises,
  service_not_found, fetch, is_fresh, find,
}

-- A cached entry that may be served at a time: it is younger than the refresh interval, or than
-- the bound on stale entries.
abbrev pub Served : RegistryClient → ℕ → String → RegistryEntry → Type 0
Served r now name entry =
    (c : CacheEntry) × (lookup name r.cache ≡ some c)
    × (c.entry ≡ entry)
    × ((now < c.fetched_at + r.refresh_seconds) ⊎ (now < c.fetched_at + r.stale_cache_max_seconds))

-- The lookup with what it reads made explicit: the cached entry and the result of the request.
find_cached :
    (before after : ℕ) (answer : Answer) (name : String) (r : RegistryClient) (c : CacheEntry)
    (f : Found) (entry : RegistryEntry)
    → lookup name r.cache ≡ some c
    → fetch name answer ≡ f
    → (find before after answer name r).0 ≡ found entry
    → ((c.entry ≡ entry)
        × ((before < c.fetched_at + r.refresh_seconds)
            ⊎ (before < c.fetched_at + r.stale_cache_max_seconds)
            ⊎ (after < c.fetched_at + r.stale_cache_max_seconds)))
      ⊎ (f ≡ found entry)
unfolding find
find_cached before after answer name r c (found x) entry e g h = ground arith
find_cached before after answer name r c (raises x) entry e g h = ground arith

find_uncached :
    (before after : ℕ) (answer : Answer) (name : String) (r : RegistryClient) (f : Found)
    (entry : RegistryEntry)
    → lookup name r.cache ≡ none
    → fetch name answer ≡ f
    → (find before after answer name r).0 ≡ found entry
    → f ≡ found entry
unfolding find
find_uncached before after answer name r (found x) entry e g h = ground arith
find_uncached before after answer name r (raises x) entry e g h = ground arith

-- Every entry that a lookup returns was fetched by it, or is cached under the name and younger than
-- the refresh interval or the bound on stale entries.
pub find_sources :
    (before after : ℕ) (answer : Answer) (name : String) (r : RegistryClient)
    (entry : RegistryEntry)
    → (find before after answer name r).0 ≡ found entry
    → Served r before name entry ⊎ Served r after name entry ⊎ (fetch name answer ≡ found entry)
find_sources before after answer name r entry h = go (lookup name r.cache) refl
  where
    go :
        (o : Option CacheEntry)
        → lookup name r.cache ≡ o
        → Served r before name entry ⊎ Served r after name entry ⊎ (fetch name answer ≡ found entry)
    go none e =
        inr (inr (find_uncached before after answer name r (fetch name answer) entry e refl h))
    go (some c) e =
        elim (find_cached before after answer name r c (fetch name answer) entry e refl h) [
          | inl (same, inl fresh) ↦ inl (c, e, same, inl fresh)
          | inl (same, inr (inl stale)) ↦ inl (c, e, same, inr stale)
          | inl (same, inr (inr stale)) ↦ inr (inl (c, e, same, inr stale))
          | inr fetched ↦ inr (inr fetched)
        ]

abbrev store : ℕ → String → RegistryEntry → RegistryClient → RegistryClient
store after name entry r = record r {
  cb = record_success r.cb;
  cache = insert name (record { entry = entry; fetched_at = after }) r.cache;
}

find_fetched :
    (before after : ℕ) (answer : Answer) (name : String) (r : RegistryClient)
    (entry : RegistryEntry)
    → is_fresh before r.refresh_seconds (lookup name r.cache) ≡ none
    → is_open before r.cb ≡ false
    → fetch name answer ≡ found entry
    → find before after answer name r ≡ (found entry, store after name entry r)
unfolding find
find_fetched before after answer name r entry old closed fetched = ground arith

find_stored :
    (before after at : ℕ) (answer : Answer) (name : String) (r : RegistryClient)
    (entry : RegistryEntry)
    → before < at + r.refresh_seconds
    → find before after answer name (store at name entry r) ≡ (found entry, store at name entry r)
unfolding find
find_stored before after at answer name r entry soon = ground (
  arith,
  lookup-insert name name (record { entry = entry; fetched_at = at }) r.cache,
  eq_refl name,
)

-- A fetched entry is served: after a lookup that had to fetch and succeeded, a lookup of the same
-- name less than the refresh interval later returns the same entry and changes nothing, whatever
-- the registry would answer.
pub find_again :
    (before after before' after' : ℕ) (answer answer' : Answer) (name : String) (r : RegistryClient)
    (entry : RegistryEntry)
    → is_fresh before r.refresh_seconds (lookup name r.cache) ≡ none
    → is_open before r.cb ≡ false
    → fetch name answer ≡ found entry
    → before' < after + r.refresh_seconds
    → let r' = (find before after answer name r).1 in
      find before' after' answer' name r' ≡ (found entry, r')
find_again before after before' after' answer answer' name r entry old closed fetched soon =
    rw (find_fetched before after answer name r entry old closed fetched)
      (find_stored before' after' after answer' name r entry soon)

-- Through an outage: an entry that is cached but no longer fresh is returned while it is younger
-- than the bound on stale entries, and is reported as not found from then on; either way the
-- failure is counted and the cache is kept.
pub find_outage :
    (before after : ℕ) (name : String) (r : RegistryClient) (c : CacheEntry)
    → lookup name r.cache ≡ some c
    → c.fetched_at + r.refresh_seconds ≤ before
    → is_open before r.cb ≡ false
    → ((find before after request_error name r).0 ≡ (
        if ltb after (c.fetched_at + r.stale_cache_max_seconds)
        then found c.entry
        else raises (service_not_found name)))
      × ((find before after request_error name r).1.cb.failures ≡ r.cb.failures + 1)
      × ((find before after request_error name r).1.cache ≡ r.cache)
unfolding find record_failure
find_outage before after name r c cached old closed = ground arith
