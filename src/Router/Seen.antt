-- ===== src/Router/Seen.antt =====
-- korith_vllm_ext/tiered_router.py: the reason of a miss, against the calls that came before.
use axropus_deploy.Prelude.{
  ℕ, ◌≡◌, refl, ap, ◌∙◌, String, Bool, true, false, ◌&&◌, ◌||◌, List, [], ◌∷◌, Option, none, some,
  if◌then◌else◌, arith, either_of, either_at, sort_by, has, add_key, has-add_key, str_eq,
}
use axropus_deploy.Pool.{CompressedKv, PoolEntry, Pool, Floats, contains}
use axropus_deploy.Pool as Vram
use axropus_deploy.Pool.Insert.{Result, ok, raise}
use axropus_deploy.Pool.Put.{Tensor, put_from_raw}
use axropus_deploy.LmCache.{Engine, LmCache, fetch}
use axropus_deploy.Router.{
  CacheTier, g1_amf, g3_lmcache, cold, MissReason, first_request, evicted_from_amf,
  lmcache_disabled, lmcache_miss, lmcache_error, prefix_too_short, WritePolicy, Router, Payload,
  LookupResult, Readings, tensor, entry, nothing, upgrade, is_too_short, should_mirror, is_before,
  new_router, miss, note_hit, promote, after_fetch, after_get, lookup, after_put,
  store_after_prefill, prefetch, promote_if, warm, work_on, prefetch_round,
}
use axropus_deploy.Router.Machine.{Call, looks_up, stores, prefetches, works, step, run}

abbrev pub is_warm : CacheTier → Bool
is_warm g1_amf = true
is_warm g3_lmcache = true
is_warm cold = false

module _ {C F E T : Type 0} (fl : Floats F) (codecs : String → Option (T → Option (CompressedKv C)))
    (lib : Engine E (Tensor T)) where
  -- Whether a call notes the prefix: a call of `store_after_prefill` for it, whatever it
  -- returns or raises, or a lookup that finds it; a round of the worker does not
  abbrev pub notes : String → Call F T → Router C F E T → Bool
  notes k (looks_up env j tokens) r =
      str_eq j k && is_warm (lookup fl codecs lib env j tokens r).0.tier
  notes k (stores env j n kv savings format) r = str_eq j k
  notes k (prefetches j priority) r = false
  notes k (works env resolver) r = false

  -- Whether any of the calls does
  abbrev pub noted : String → List (Call F T) → Router C F E T → Bool
  noted k [] r = false
  noted k (c ∷ cs) r = notes k c r || noted k cs (step fl codecs lib c r)

  -- The prefixes seen after a lookup of j
  abbrev SeenAfter : String → String → Bool → LookupResult C F T × Router C F E T → Type 0
  SeenAfter k j before o = has k o.1.seen ≡ before || (str_eq j k && is_warm o.0.tier)

  -- What a lookup of j reports of a miss
  abbrev Reported : Bool → Bool → LookupResult C F T × Router C F E T → Type 0
  Reported short known o =
      o.0.tier ≡ CacheTier.cold
      → short ≡ false
      → o.0.payload ≡ nothing (if known then evicted_from_amf else first_request)

  miss-SeenAfter :
      (k j : String) (reason : MissReason) (latency : F) (r : Router C F E T)
      → SeenAfter k j (has k r.seen) (miss fl j reason latency r)
  unfolding miss
  miss-SeenAfter k j reason latency r = ground arith

  hit-SeenAfter :
      (k j : String) (payload : Payload C F T) (latency : F) (r : Router C F E T)
      → SeenAfter k j (has k r.seen) (note_hit fl j g1_amf payload latency r)
        × SeenAfter k j (has k r.seen) (note_hit fl j g3_lmcache payload latency r)
  unfolding note_hit
  hit-SeenAfter k j payload latency r =
      let added = has-add_key k j r.seen in (added ∙ ground arith, added ∙ ground arith)

  after_fetch-SeenAfter :
      (env : Readings F) (k j : String) (kv : Option (Tensor T)) (r : Router C F E T)
      → SeenAfter k j (has k r.seen) (after_fetch fl codecs lib env j kv r)
  after_fetch-SeenAfter env k j none r = miss-SeenAfter k j lmcache_miss env.latency r
  after_fetch-SeenAfter env k j (some kv) r =
      (hit-SeenAfter k j (tensor kv) env.latency (promote fl codecs lib env.clock j kv r)).1

  after_get-SeenAfter :
      (env : Readings F) (k j : String) (e : Option (PoolEntry C F)) (r : Router C F E T)
      → SeenAfter k j (has k r.seen) (after_get fl codecs lib env j e r)
  after_get-SeenAfter env k j (some e) r = (hit-SeenAfter k j (entry e) env.latency r).0
  after_get-SeenAfter env k j none r =
      let (kv, l) = fetch lib env.disk j r.lmcache in
      either_of (SeenAfter k j (has k r.seen)) r.lmcache.enabled _ _
        (either_of (SeenAfter k j (has k r.seen)) env.raises _ _
          (miss-SeenAfter k j lmcache_error env.latency r)
          (after_fetch-SeenAfter env k j kv (record r { lmcache = l })))
        (miss-SeenAfter k j lmcache_disabled env.latency r)

  lookup-SeenAfter :
      (env : Readings F) (k j : String) (tokens : Option ℕ) (r : Router C F E T)
      → SeenAfter k j (has k r.seen) (lookup fl codecs lib env j tokens r)
  unfolding lookup
  lookup-SeenAfter env k j tokens r =
      let (e, p) = Vram.lookup env.now j r.pool in
      either_of (SeenAfter k j (has k r.seen)) (is_too_short tokens r.min_prefix_tokens) _ _
        (miss-SeenAfter k j prefix_too_short env.latency r)
        (after_get-SeenAfter env k j e (record r { pool = p }))

  abbrev Same : List String → Router C F E T → Type 0
  Same seen r = r.seen ≡ seen

  after_put-Same :
      (env : Readings F) (k : String) (n : ℕ) (kv : Tensor T) (o : Result Bool) (r : Router C F E T)
      → Same r.seen (after_put fl codecs lib env k n kv o r).1
  after_put-Same env k n kv (ok b) r =
      either_of (Same r.seen) (should_mirror r.write_policy n r.large_write_threshold false) _ _
        refl refl
  after_put-Same env k n kv (raise e) r = refl

  warm-Same :
      (env : Readings F) (k : String) (kv : Option (Tensor T)) (r : Router C F E T)
      → Same r.seen (warm fl codecs lib env k kv r)
  warm-Same env k (some kv) r = refl
  warm-Same env k none r =
      let (kv, l) = fetch lib env.disk k r.lmcache in
      either_of (Same r.seen) r.lmcache.enabled _ _
        (either_of (Same r.seen) env.raises _ _ refl (promoted kv l)) refl
    where
      promoted :
          (kv : Option (Tensor T)) (l : LmCache E (Tensor T))
          → Same r.seen (promote_if fl codecs lib env.clock k kv (record r { lmcache = l }))
      promoted none l = refl
      promoted (some kv) l = refl

  work_on-Same :
      (env : Readings F) (resolver : String → Option (Tensor T)) (q : List (ℕ × String))
      (r : Router C F E T)
      → Same r.seen (work_on fl codecs lib env resolver q r)
  work_on-Same env resolver [] r = refl
  work_on-Same env resolver ((priority, k) ∷ rest) r =
      either_of (Same r.seen) (contains k r.pool) _ _ refl
        (warm-Same env k (resolver k) (record r { prefetch_queue = rest }))

  step-seen :
      (k : String) (c : Call F T) (r : Router C F E T)
      → has k (step fl codecs lib c r).seen ≡ has k r.seen || notes k c r
  unfolding step store_after_prefill prefetch prefetch_round
  step-seen k (looks_up env j tokens) r = lookup-SeenAfter env k j tokens r
  step-seen k (stores env j n kv savings format) r =
      let (result, p) = put_from_raw fl codecs env.clock j kv format savings r.pool in
      ap (has k) (after_put-Same env j n kv result (record r { seen = add_key j r.seen; pool = p }))
      ∙ (has-add_key k j r.seen ∙ ground arith)
  step-seen k (prefetches j priority) r = ground arith
  step-seen k (works env resolver) r =
      ap (has k) (work_on-Same env resolver (sort_by is_before r.prefetch_queue) r) ∙ ground arith

  run-seen :
      (k : String) (cs : List (Call F T)) (r : Router C F E T)
      → has k (run fl codecs lib cs r).seen ≡ has k r.seen || noted k cs r
  unfolding run
  run-seen k [] r = ground arith
  run-seen k (c ∷ cs) r =
      run-seen k cs (step fl codecs lib c r)
      ∙ (ap (λ b. b || noted k cs (step fl codecs lib c r)) (step-seen k c r) ∙ ground arith)

  warm_ne : {P : Type 0} → g1_amf ≡ cold → P
  warm_ne h = absurd cc

  warm_ne' : {P : Type 0} → g3_lmcache ≡ cold → P
  warm_ne' h = absurd cc

  upgrade_lem :
      (known : Bool)
      → (upgrade known lmcache_miss ≡ (if known then evicted_from_amf else first_request))
        × (upgrade known lmcache_disabled ≡ (if known then evicted_from_amf else first_request))
  upgrade_lem true = (refl, refl)
  upgrade_lem false = (refl, refl)

  true_ne : {P : Type 0} {b : Bool} → b ≡ true → b ≡ false → P
  true_ne h k = absurd (ground arith)

  lookup_reports :
      (env : Readings F) (k : String) (tokens : Option ℕ) (r : Router C F E T)
      → env.raises ≡ false
      → Reported
          (is_too_short tokens r.min_prefix_tokens)
          (has k r.seen)
          (lookup fl codecs lib env k tokens r)
  unfolding lookup note_hit miss
  lookup_reports env k tokens r fine =
      let (e, p) = Vram.lookup env.now k r.pool in
      either_at (Reported (is_too_short tokens r.min_prefix_tokens) (has k r.seen))
        (is_too_short tokens r.min_prefix_tokens) _ _ (λ short t not_short. true_ne short not_short)
        (λ long. found e (record r { pool = p }))
    where
      fetched :
          {short : Bool} (kv : Option (Tensor T)) (q : Router C F E T)
          → Reported short (has k q.seen) (after_fetch fl codecs lib env k kv q)
      fetched none q = λ t s. ap nothing (upgrade_lem (has k q.seen)).0
      fetched (some kv) q = λ t s. warm_ne' t

      found :
          {short : Bool} (e : Option (PoolEntry C F)) (q : Router C F E T)
          → Reported short (has k q.seen) (after_get fl codecs lib env k e q)
      found (some e) q = λ t s. warm_ne t
      found {short = short} none q =
          let (kv, l) = fetch lib env.disk k q.lmcache in
          either_of (Reported short (has k q.seen)) q.lmcache.enabled _ _
            (either_at (Reported short (has k q.seen)) env.raises _ _
              (λ raised t s. true_ne raised fine) (λ e. fetched kv (record q { lmcache = l })))
            (λ t s. ap nothing (upgrade_lem (has k q.seen)).1)

  module _ (pool : Pool C F) (c : LmCache E (Tensor T)) (least : ℕ) (policy : WritePolicy)
      (threshold : ℕ) (cs : List (Call F T)) where
    abbrev start : Router C F E T
    start = new_router fl pool c least policy threshold

    abbrev found : Readings F → String → Option ℕ → LookupResult C F T
    found env k tokens = (lookup fl codecs lib env k tokens (run fl codecs lib cs start)).0

    -- After any calls on a new router, a lookup of a prefix that is long enough and is not found, and
    -- for which LMCache does not raise, reports an eviction if `store_after_prefill` was called before
    -- for the prefix, whatever it returned or raised, or a lookup found the prefix; otherwise it
    -- reports a first request, also if the worker of the prefetches had put the prefix in the pool.
    pub miss_reason :
        (env : Readings F) (k : String) (tokens : Option ℕ)
        → env.raises ≡ false
        → is_too_short tokens (run fl codecs lib cs start).min_prefix_tokens ≡ false
        → (found env k tokens).tier ≡ CacheTier.cold
        → (found env k tokens).payload
          ≡ nothing (if noted k cs start then evicted_from_amf else first_request)
    unfolding new_router
    miss_reason env k tokens fine long not_found =
        lookup_reports env k tokens (run fl codecs lib cs start) fine not_found long
        ∙ ap (λ b. nothing (if b then evicted_from_amf else first_request)) (run-seen k cs start)
