-- ===== src/Cache/Tests.antt =====
-- A cache that holds one number, and the theorems at calls of it.
use esos_webui.Common.{[], arith, false, lookup, none, refl, some, true, ℕ, ◌<◌, ◌∷◌, ◌≡◌, ◌≤◌}
use esos_webui.Cache.Defs.{
  CachedFetchOptions, CachedResult, CacheEnvelope, ServerCache, hit, resolved, envelope,
  cached_fetch, settle_value, settle_error, cache, stale,
}
use esos_webui.Cache.Replies.{cached_fetch-settle_value, settle_error-resolved}
use esos_webui.Cache.Flights.{Flight, CacheRun, call, here, next, calls, flights, flights-le-one}

abbrev options : CachedFetchOptions
options = record {
  ttl_ms = 50;
  stale_grace_ms = some 500;
  force_refresh = false;
  stale_if_error = true;
}

abbrev refresh : CachedFetchOptions
refresh = record {
  ttl_ms = 50;
  stale_grace_ms = some 500;
  force_refresh = true;
  stale_if_error = false;
}

abbrev filled : ServerCache ℕ
filled = record { envelopes = ("k", envelope 7 100 50 500) ∷ []; in_flight = [] }

abbrev empty : ServerCache ℕ
empty = record { envelopes = []; in_flight = [] }

abbrev answer : ℕ → CachedResult ℕ
answer n = record { value = n; meta = record { source = cache; fetched_at = 100; error = none } }

abbrev stale_answer_7 : CachedResult ℕ
stale_answer_7 = record {
  value = 7;
  meta = record { source = stale; fetched_at = 100; error = some "down" };
}

hit_at_120 : (cached_fetch "k" options 120 1 filled).0 ≡ hit (answer 7)
unfolding cached_fetch lookup
hit_at_120 = refl

cached_fetch-settle_value_example :
    (cached_fetch "k" options 140 2 (settle_value "k" options 9 100 empty).1).0 ≡ hit (answer 9)
cached_fetch-settle_value_example =
    cached_fetch-settle_value "k" options empty 9 100 140 2 options refl (omega arith)

stale_at_300 : (settle_error "k" options 300 "down" filled).0 ≡ resolved stale_answer_7
unfolding settle_error lookup
stale_at_300 = refl

settle_error-resolved_example :
    (options.stale_if_error ≡ true)
    × ((env : CacheEnvelope ℕ) × (some (envelope 7 100 50 500) ≡ some env)
        × (300 < env.stale_until)
        × (7 ≡ env.content)
        × (stale_answer_7.meta.error ≡ some "down"))
    × ((settle_error "k" options 300 "down" filled).1.envelopes ≡ filled.envelopes)
unfolding lookup
settle_error-resolved_example =
    settle_error-resolved "k" options filled 300 "down" stale_answer_7 stale_at_300

abbrev flight : Flight
flight = record { key = "k"; options = refresh; began = 200 }

abbrev idle : CacheRun ℕ
idle = record { store = empty; pending = [] }

flights-le-one_example : flights "k" (call flight 6 (call flight 5 idle)).pending ≤ 1
flights-le-one_example =
    flights-le-one [] (call flight 6 (call flight 5 idle))
      (next (next here (calls idle flight 5)) (calls (call flight 5 idle) flight 6)) "k"
