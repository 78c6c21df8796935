-- ===== src/Cache/Defs.antt =====
-- server/utils/server-cache.ts. JavaScript runs one piece of the code at a time, so `cachedFetch`
-- is two steps: `cached_fetch` up to the `await`, which hits, joins or starts a promise, and
-- `settle_value` or `settle_error` when the fetch ends. A promise is a number. Times are natural
-- numbers of milliseconds, and `Date.now()` is an argument.
use esos_webui.Common.{
  Bool, List, Option, String, [], if◌then◌else◌, insert, lookup, ltb, none, or_else, remove, some,
  ℕ, ◌+◌,
}

pub data CacheSource : Type 0 where
  live cache stale : CacheSource

pub record CacheFetchMeta : Type 0 where
  pub source : CacheSource
  pub fetched_at : ℕ
  pub error : Option String

pub record CacheEnvelope {ℓ} (T : Type ℓ) : Type ℓ where
  pub content : T
  pub fetched_at : ℕ
  pub expires_at : ℕ
  pub stale_until : ℕ

abbrev pub default_stale_grace_ms : ℕ
default_stale_grace_ms = 604800000

pub record CachedFetchOptions : Type 0 where
  pub ttl_ms : ℕ
  pub stale_grace_ms : Option ℕ
  pub force_refresh : Bool
  pub stale_if_error : Bool

module _ {ℓ} (T : Type ℓ) where
  pub record CachedResult : Type ℓ where
    pub value : T
    pub meta : CacheFetchMeta

  -- The maps `envelopes` and `inFlight`.
  pub record ServerCache : Type ℓ where
    pub envelopes : List (String × CacheEnvelope T)
    pub in_flight : List (String × ℕ)

  -- How `cachedFetch` answers at once: a value, a promise of another call, or a new promise.
  pub data Reply : Type ℓ where
    hit : CachedResult → Reply
    joined : ℕ → Reply
    started : ℕ → Reply

  -- How the promise of a fetch ends.
  pub data Settled : Type ℓ where
    resolved : CachedResult → Settled
    rejected : String → Settled

module _ {ℓ} {T : Type ℓ} where
  -- `existing && now < existing.expiresAt`, with the cached answer.
  unfoldable pub fresh : ℕ → Option (CacheEnvelope T) → Option (CachedResult T)
  fresh now none = none
  fresh now (some e) =
      if ltb now e.expires_at
      then some (record {
        value = e.content;
        meta = record { source = cache; fetched_at = e.fetched_at; error = none };
      })
      else none

  -- `existing && now < existing.staleUntil`, with the stale answer.
  unfoldable pub stale_answer : ℕ → String → Option (CacheEnvelope T) → Option (CachedResult T)
  stale_answer now message none = none
  stale_answer now message (some e) =
      if ltb now e.stale_until
      then some (record {
        value = e.content;
        meta = record { source = stale; fetched_at = e.fetched_at; error = some message };
      })
      else none

  abbrev pub live_answer : T → ℕ → CachedResult T
  live_answer content fetched_at = record {
    value = content;
    meta = record { source = live; fetched_at = fetched_at; error = none };
  }

  abbrev pub envelope : T → ℕ → ℕ → ℕ → CacheEnvelope T
  envelope content fetched_at ttl_ms grace_ms = record {
    content = content;
    fetched_at = fetched_at;
    expires_at = fetched_at + ttl_ms;
    stale_until = fetched_at + grace_ms;
  }

  abbrev pub put : String → CacheEnvelope T → ServerCache T → ServerCache T
  put key e s = record s { envelopes = insert key e s.envelopes }

  -- The part of `cachedFetch` before the promise. `next` is the number of a new promise.
  unfoldable pub begin_fetch : String → CachedFetchOptions → ℕ → ℕ → ServerCache T → Reply T
  unfolding fresh
  begin_fetch key options now next s =
      let cached = if options.force_refresh then none else fresh now (lookup key s.envelopes) in
      elim cached [
        | some r ↦ hit r
        | none ↦ elim (lookup key s.in_flight) [ some id ↦ joined id | none ↦ started next ]
      ]

  -- `inFlight.set(key, promise)`, after the promise has run up to its first `await`.
  unfoldable pub register : String → Reply T → ServerCache T → ServerCache T
  register key (started id) s = record s { in_flight = insert key id s.in_flight }
  register key (hit r) s = s
  register key (joined id) s = s

  unfoldable pub cached_fetch :
      String → CachedFetchOptions → ℕ → ℕ → ServerCache T → Reply T × ServerCache T
  unfolding begin_fetch register
  cached_fetch key options now next s =
      let reply = begin_fetch key options now next s in (reply, register key reply s)

  -- `inFlight.delete(key)` of the `finally` block.
  abbrev pub leave_flight : String → ServerCache T → ServerCache T
  leave_flight key s = record s { in_flight = remove key s.in_flight }

  -- The fetch returned a value.
  unfoldable pub settle_value :
      String → CachedFetchOptions → T → ℕ → ServerCache T → Settled T × ServerCache T
  settle_value key options content fetched_at s =
      let grace = or_else options.stale_grace_ms default_stale_grace_ms in
      (
        resolved (live_answer content fetched_at),
        leave_flight key (put key (envelope content fetched_at options.ttl_ms grace) s),
      )

  -- The fetch failed; `now` is the time at which the fetch began.
  unfoldable pub settle_error :
      String → CachedFetchOptions → ℕ → String → ServerCache T → Settled T × ServerCache T
  unfolding stale_answer
  settle_error key options now message s =
      let old =
        if options.stale_if_error
        then stale_answer now message (lookup key s.envelopes)
        else none in
      (elim old [ some r ↦ resolved r | none ↦ rejected message ], leave_flight key s)

  -- A fetch function that throws before it returns a promise: the whole asynchronous block, with its
  -- `catch` and `finally`, has run before `inFlight.set`. With the reply, how its promise has ended.
  unfoldable pub cached_fetch_throwing :
      String
      → CachedFetchOptions
      → ℕ
      → ℕ
      → String
      → ServerCache T
      → Reply T × Option (Settled T) × ServerCache T
  unfolding begin_fetch register settle_error
  cached_fetch_throwing key options now next message s =
      let reply = begin_fetch key options now next s in
      let (outcome, left) = settle_error key options now message s in
      elim reply [
        | started id ↦ (started id, some outcome, register key (started id) left)
        | hit r ↦ (hit r, none, s)
        | joined id ↦ (joined id, none, s)
      ]

  unfoldable pub invalidate_server_cache_key : String → ServerCache T → ServerCache T
  invalidate_server_cache_key key s = record s {
    envelopes = remove key s.envelopes;
    in_flight = remove key s.in_flight;
  }

  unfoldable pub invalidate_server_cache : ServerCache T → ServerCache T
  invalidate_server_cache s = record s { envelopes = []; in_flight = [] }

  unfoldable pub store_stale_envelope :
      String → T → ℕ → Option ℕ → ℕ → ServerCache T → ServerCache T
  store_stale_envelope key content ttl_ms grace fetched_at s =
      put key (envelope content fetched_at ttl_ms (or_else grace default_stale_grace_ms)) s

  unfoldable pub resolve_with_stale_if_error :
      String → T → Bool → ℕ → ℕ → ServerCache T → CachedResult T × ServerCache T
  unfolding stale_answer
  resolve_with_stale_if_error key content is_failure ttl_ms now s =
      let stored = put key (envelope content now ttl_ms default_stale_grace_ms) s in
      let old =
        if is_failure then stale_answer now "upstream_failure" (lookup key s.envelopes) else none in
      elim old [ some r ↦ (r, s) | none ↦ (live_answer content now, stored) ]
