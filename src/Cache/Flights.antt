-- ===== src/Cache/Flights.antt =====
-- The promises in flight, over every order of calls, endings and failures. A fetch that is pending
-- is `cachedFetch`'s promise between its `await` and its `finally`.
use package.text.Mathlib.TextEquality.{eq_iff}
use esos_webui.Common.{
  List, String, [], arith, if◌then◌else◌, is_some, lookup, lookup-insert, lookup-remove, refl,
  remove, str_eq, suc, ℕ, ◌++◌, ◌+◌, ◌∷◌, ◌≡◌, ◌≤◌,
}
use esos_webui.Cache.Defs.{
  CachedFetchOptions, CacheEnvelope, ServerCache, Reply, hit, joined, started, begin_fetch,
  register, cached_fetch, settle_value, settle_error,
}

pub record Flight : Type 0 where
  pub key : String
  pub options : CachedFetchOptions
  pub began : ℕ

-- How many pending fetches are for a key.
abbrev pub flights : String → List Flight → ℕ
flights k [] = 0
flights k (f ∷ fs) = let n = flights k fs in if str_eq f.key k then suc n else n

flights-append :
    (k : String) (fs gs : List Flight) → flights k (fs ++ gs) ≡ flights k fs + flights k gs
flights-append k [] gs = omega arith
flights-append k (f ∷ fs) gs = ground (arith, flights-append k fs gs)

settle-IsCoalesced :
    (in_flight : List (String × ℕ)) (earlier later : List Flight) (f : Flight) (k : String)
    → flights k (earlier ++ (f ∷ later)) ≡ (if is_some (lookup k in_flight) then 1 else 0)
    → flights k (earlier ++ later) ≡ (if is_some (lookup k (remove f.key in_flight)) then 1 else 0)
settle-IsCoalesced in_flight earlier later f k c = ground (
  arith,
  flights-append k earlier (f ∷ later),
  flights-append k earlier later,
  lookup-remove f.key k in_flight,
)

module _ {ℓ} (T : Type ℓ) where
  pub record CacheRun : Type ℓ where
    pub store : ServerCache T
    pub pending : List Flight

module _ {ℓ} {T : Type ℓ} where
  abbrev launched : Reply T → Flight → List Flight
  launched (started id) f = f ∷ []
  launched (hit r) f = []
  launched (joined id) f = []

  -- A call of `cachedFetch`: it runs up to its `await`.
  unfoldable pub call : Flight → ℕ → CacheRun T → CacheRun T
  call f next s =
      let (reply, store) = cached_fetch f.key f.options f.began next s.store in
      record { store = store; pending = launched reply f ++ s.pending }

  -- One step: a call, or the ending of any pending fetch, with a value or with an error.
  pub data Step : CacheRun T → CacheRun T → Type ℓ where
    calls : (s : CacheRun T) (f : Flight) (next : ℕ) → Step s (call f next s)
    returns :
        (store : ServerCache T) (earlier later : List Flight) (f : Flight) (content : T) (at : ℕ)
        → Step
            (record { store = store; pending = earlier ++ (f ∷ later) })
            (record {
              store = (settle_value f.key f.options content at store).1;
              pending = earlier ++ later;
            })
    fails :
        (store : ServerCache T) (earlier later : List Flight) (f : Flight) (message : String)
        → Step
            (record { store = store; pending = earlier ++ (f ∷ later) })
            (record {
              store = (settle_error f.key f.options f.began message store).1;
              pending = earlier ++ later;
            })

  pub data Reach (s : CacheRun T) : CacheRun T → Type ℓ where
    here : Reach s s
    next : {t u : CacheRun T} → Reach s t → Step t u → Reach s u

  -- A key has one pending fetch if it is in flight, and none otherwise.
  abbrev IsCoalesced : CacheRun T → Type 0
  IsCoalesced s =
      (k : String) → flights k s.pending ≡ (if is_some (lookup k s.store.in_flight) then 1 else 0)

  call-IsCoalesced :
      (s : CacheRun T) (f : Flight) (n : ℕ) → IsCoalesced s → IsCoalesced (call f n s)
  unfolding call cached_fetch begin_fetch register
  call-IsCoalesced s f n c k =
      ground (arith, c k, c f.key, eq_iff f.key k, lookup-insert f.key k n s.store.in_flight)

  Step-IsCoalesced : {s t : CacheRun T} → Step s t → IsCoalesced s → IsCoalesced t
  unfolding settle_value settle_error
  Step-IsCoalesced (calls s f n) c k = call-IsCoalesced s f n c k
  Step-IsCoalesced (returns store earlier later f content at) c k =
      settle-IsCoalesced store.in_flight earlier later f k (c k)
  Step-IsCoalesced (fails store earlier later f message) c k =
      settle-IsCoalesced store.in_flight earlier later f k (c k)

  Reach-IsCoalesced : {s t : CacheRun T} → IsCoalesced s → Reach s t → IsCoalesced t
  Reach-IsCoalesced c here = c
  Reach-IsCoalesced c (next r st) = Step-IsCoalesced st (Reach-IsCoalesced c r)

  -- From a cache with nothing in flight, in any order of calls and endings and with no
  -- invalidation, at most one fetch is pending for each key.
  pub flights-le-one :
      (envelopes : List (String × CacheEnvelope T)) (t : CacheRun T)
      → Reach (record { store = record { envelopes = envelopes; in_flight = [] }; pending = [] }) t
      → (k : String) → flights k t.pending ≤ 1
  unfolding lookup
  flights-le-one envelopes t r k =
      let c : flights k t.pending ≡ (if is_some (lookup k t.store.in_flight) then 1 else 0) =
        Reach-IsCoalesced (λ j. refl) r k in
      ground arith
