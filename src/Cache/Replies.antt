-- ===== src/Cache/Replies.antt =====
-- What a caller of the cache gets.
use package.text.Mathlib.TextPositions.{eq_refl}
use esos_webui.Common.{
  Option, String, arith, false, lookup, lookup-insert, none, or_else, refl, some, true, ℕ, ◌+◌, ◌<◌,
  ◌≡◌,
}
use esos_webui.Cache.Defs.{
  CacheEnvelope, CachedFetchOptions, CachedResult, ServerCache, hit, resolved, envelope, fresh,
  stale_answer, cache, begin_fetch, register, cached_fetch, settle_value, settle_error,
  default_stale_grace_ms,
}

module _ {ℓ} {T : Type ℓ} where
  fresh-some :
      (now : ℕ) (e : Option (CacheEnvelope T)) (r : CachedResult T)
      → fresh now e ≡ some r
      → (env : CacheEnvelope T) × (e ≡ some env)
        × (now < env.expires_at)
        × (r.value ≡ env.content)
        × (r.meta.fetched_at ≡ env.fetched_at)
  unfolding fresh
  fresh-some now none r h = absurd (ground arith)
  fresh-some now (some env) r h = (env, refl, ground arith, ground arith, ground arith)

  stale_answer-some :
      (now : ℕ) (message : String) (e : Option (CacheEnvelope T)) (r : CachedResult T)
      → stale_answer now message e ≡ some r
      → (env : CacheEnvelope T) × (e ≡ some env)
        × (now < env.stale_until)
        × (r.value ≡ env.content)
        × (r.meta.error ≡ some message)
  unfolding stale_answer
  stale_answer-some now message none r h = absurd (ground arith)
  stale_answer-some now message (some env) r h =
      (env, refl, ground arith, ground arith, ground arith)

  module _ (key : String) (options : CachedFetchOptions) (s : ServerCache T) where
    -- A cached answer is given only if no refresh is forced and the stored value has not expired; it
    -- is that value, with the time at which it was fetched, and the cache stays as it is.
    cached_fetch-hit :
        (now next : ℕ) (r : CachedResult T)
        → (cached_fetch key options now next s).0 ≡ hit r
        → (options.force_refresh ≡ false)
          × ((env : CacheEnvelope T) × (lookup key s.envelopes ≡ some env)
              × (now < env.expires_at)
              × (r.value ≡ env.content)
              × (r.meta.fetched_at ≡ env.fetched_at))
          × ((cached_fetch key options now next s).1 ≡ s)
    unfolding cached_fetch begin_fetch register
    cached_fetch-hit now next r h =
        (ground arith, fresh-some now (lookup key s.envelopes) r (ground arith), ground arith)

    -- A fetch that returned a value is answered from the cache until its time to live is over, by
    -- whatever options but a forced refresh.
    pub cached_fetch-settle_value :
        (content : T) (at now next : ℕ) (again : CachedFetchOptions)
        → again.force_refresh ≡ false
        → now < at + options.ttl_ms
        → (cached_fetch key again now next (settle_value key options content at s).1).0
          ≡ hit (record {
            value = content;
            meta = record { source = cache; fetched_at = at; error = none };
          })
    unfolding cached_fetch begin_fetch settle_value fresh
    cached_fetch-settle_value content at now next again keep soon = ground (
      arith,
      eq_refl key,
      lookup-insert key key
          (envelope content at options.ttl_ms
            (or_else options.stale_grace_ms default_stale_grace_ms))
          s.envelopes,
    )

    -- A failed fetch gives a value only if stale values are allowed and the stored one was still
    -- within its grace when the fetch began; it is that value, marked with the error. The stored
    -- values stay as they are.
    pub settle_error-resolved :
        (now : ℕ) (message : String) (r : CachedResult T)
        → (settle_error key options now message s).0 ≡ resolved r
        → (options.stale_if_error ≡ true)
          × ((env : CacheEnvelope T) × (lookup key s.envelopes ≡ some env)
              × (now < env.stale_until)
              × (r.value ≡ env.content)
              × (r.meta.error ≡ some message))
          × ((settle_error key options now message s).1.envelopes ≡ s.envelopes)
    unfolding settle_error
    settle_error-resolved now message r h = (
      ground arith,
      stale_answer-some now message (lookup key s.envelopes) r (ground arith),
      refl,
    )
