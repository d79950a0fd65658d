-- ===== src/Router/Counts.antt =====
-- korith_vllm_ext/tiered_router.py: the counters of hits and of miss reasons.
use axropus_deploy.Prelude.{
  ℕ, suc, ◌+◌, ◌≡◌, refl, String, Bool, false, List, [], ◌∷◌, Option, none, some, arith, either_of,
  sort_by, add_key,
}
use axropus_deploy.Pool.{CompressedKv, PoolEntry, Pool, Floats, contains}
use axropus_deploy.Pool as Vram
use axropus_deploy.Pool.Insert.{Clock, Result, ok, raise}
use axropus_deploy.Pool.Put.{Tensor, put_from_raw}
use axropus_deploy.LmCache.{Engine, LmCache, fetch}
use axropus_deploy.Router.{
  lmcache_disabled, lmcache_miss, lmcache_error, prefix_too_short, WritePolicy, Router, Readings,
  tensor, entry, is_too_short, should_mirror, is_before, new_router, promote, after_fetch,
  after_get, lookup, after_put, store_after_prefill, prefetch, promote_if, warm, work_on,
  prefetch_round,
}
use axropus_deploy.Router.Machine.{Call, looks_up, stores, prefetches, works, step, run}
use axropus_deploy.Router.Tallies.{
  total, reported, CountedRouter, CountedAfter, recount, miss-Counted, note_hit-Counted,
}

-- How many of the calls are lookups
abbrev pub lookups : {F T : Type 0} → List (Call F T) → ℕ
lookups [] = 0
lookups (looks_up env k tokens ∷ cs) = suc (lookups cs)
lookups (stores env k n kv savings format ∷ cs) = lookups cs
lookups (prefetches k priority ∷ cs) = lookups cs
lookups (works env resolver ∷ cs) = lookups cs

module _ {C F E T : Type 0} (fl : Floats F) (codecs : String → Option (T → Option (CompressedKv C)))
    (lib : Engine E (Tensor T)) where
  after_fetch-Counted :
      (env : Readings F) (k : String) (kv : Option (Tensor T)) (n : ℕ) (r : Router C F E T)
      → CountedRouter n r
      → CountedRouter (suc n) (after_fetch fl codecs lib env k kv r).1
  after_fetch-Counted env k none n r c = miss-Counted fl k lmcache_miss env.latency n r refl c
  after_fetch-Counted env k (some kv) n r c =
      (note_hit-Counted fl k (tensor kv) env.latency n (promote fl codecs lib env.clock k kv r) c).1

  after_get-Counted :
      (env : Readings F) (k : String) (e : Option (PoolEntry C F)) (n : ℕ) (r : Router C F E T)
      → CountedRouter n r
      → CountedRouter (suc n) (after_get fl codecs lib env k e r).1
  after_get-Counted env k (some e) n r c = (note_hit-Counted fl k (entry e) env.latency n r c).0
  after_get-Counted env k none n r c =
      let (kv, l) = fetch lib env.disk k r.lmcache in
      let r' = record r { lmcache = l } in
      either_of (CountedAfter (suc n)) r.lmcache.enabled _ _
        (either_of (CountedAfter (suc n)) env.raises _ _
          (miss-Counted fl k lmcache_error env.latency n r refl c)
          (after_fetch-Counted env k kv n r' c))
        (miss-Counted fl k lmcache_disabled env.latency n r refl c)

  lookup-Counted :
      (env : Readings F) (k : String) (tokens : Option ℕ) (n : ℕ) (r : Router C F E T)
      → CountedRouter n r
      → CountedRouter (suc n) (lookup fl codecs lib env k tokens r).1
  unfolding lookup
  lookup-Counted env k tokens n r c =
      let (e, p) = Vram.lookup env.now k r.pool in
      either_of (CountedAfter (suc n)) (is_too_short tokens r.min_prefix_tokens) _ _
        (miss-Counted fl k prefix_too_short env.latency n r refl c)
        (after_get-Counted env k e n (record r { pool = p }) c)

  -- A store and a round of the worker leave the counters.
  after_put-Counted :
      (env : Readings F) (k : String) (n m : ℕ) (kv : Tensor T) (o : Result Bool)
      (r : Router C F E T)
      → CountedRouter m r
      → CountedRouter m (after_put fl codecs lib env k n kv o r).1
  after_put-Counted env k n m kv (ok b) r c =
      either_of (CountedRouter m) (should_mirror r.write_policy n r.large_write_threshold false) _ _
        c c
  after_put-Counted env k n m kv (raise e) r c = c

  promote_if-Counted :
      (clock : Clock) (k : String) (kv : Option (Tensor T)) (n : ℕ) (r : Router C F E T)
      → CountedRouter n r
      → CountedRouter n (promote_if fl codecs lib clock k kv r)
  promote_if-Counted clock k none n r c = c
  promote_if-Counted clock k (some kv) n r c = c

  warm-Counted :
      (env : Readings F) (k : String) (kv : Option (Tensor T)) (n : ℕ) (r : Router C F E T)
      → CountedRouter n r
      → CountedRouter n (warm fl codecs lib env k kv r)
  warm-Counted env k (some kv) n r c = c
  warm-Counted env k none n r c =
      let (kv, l) = fetch lib env.disk k r.lmcache in
      either_of (CountedRouter n) r.lmcache.enabled _ _
        (either_of (CountedRouter n) env.raises _ _ c
          (promote_if-Counted env.clock k kv n (record r { lmcache = l }) c))
        c

  work_on-Counted :
      (env : Readings F) (resolver : String → Option (Tensor T)) (q : List (ℕ × String)) (n : ℕ)
      (r : Router C F E T)
      → CountedRouter n r
      → CountedRouter n (work_on fl codecs lib env resolver q r)
  work_on-Counted env resolver [] n r c = c
  work_on-Counted env resolver ((priority, k) ∷ rest) n r c =
      either_of (CountedRouter n) (contains k r.pool) _ _ c
        (warm-Counted env k (resolver k) n (record r { prefetch_queue = rest }) c)

  run-Counted :
      (cs : List (Call F T)) (n : ℕ) (r : Router C F E T)
      → CountedRouter n r
      → CountedRouter (n + lookups cs) (run fl codecs lib cs r)
  unfolding run step prefetch_round store_after_prefill prefetch
  run-Counted [] n r c = recount n (n + 0) r (omega arith) c
  run-Counted (looks_up env k tokens ∷ cs) n r c =
      let q = lookup fl codecs lib env k tokens r in
      recount (suc n + lookups cs) (n + suc (lookups cs)) (run fl codecs lib cs q.1) (omega arith)
        (run-Counted cs (suc n) q.1 (lookup-Counted env k tokens n r c))
  run-Counted (stores env k m kv savings format ∷ cs) n r c =
      let (result, p) = put_from_raw fl codecs env.clock k kv format savings r.pool in
      run-Counted cs n _
        (after_put-Counted env k m n kv result (record r { seen = add_key k r.seen; pool = p }) c)
  run-Counted (prefetches k priority ∷ cs) n r c = run-Counted cs n _ c
  run-Counted (works env resolver ∷ cs) n r c =
      run-Counted cs n _ (work_on-Counted env resolver (sort_by is_before r.prefetch_queue) n r c)

  -- After any calls on a new router, the hits of the three tiers together are as many as the lookups;
  -- the cold ones are those with a reason, which is that the prefix is new, that it was evicted, that
  -- LMCache failed or that it is too short; no other reason is ever counted.
  pub lookups_counted :
      (pool : Pool C F) (c : LmCache E (Tensor T)) (least : ℕ) (policy : WritePolicy)
      (threshold : ℕ) (cs : List (Call F T))
      → let r = run fl codecs lib cs (new_router fl pool c least policy threshold) in
        (total r.hit_counts ≡ lookups cs)
        × ((reported r.miss_counts ≡ r.hit_counts.cold)
            × ((r.miss_counts.lmcache_disabled ≡ 0)
                × ((r.miss_counts.lmcache_miss ≡ 0) × (r.miss_counts.format_mismatch ≡ 0))))
  unfolding new_router
  lookups_counted pool c least policy threshold cs =
      let start : CountedRouter 0 (new_router fl pool c least policy threshold) = record {
        hits_total = refl;
        misses_total = refl;
        unused = (refl, (refl, refl));
      } in
      let done = run-Counted cs 0 (new_router fl pool c least policy threshold) start in
      (omega (arith, done.hits_total), (done.misses_total, done.unused))
