-- ===== src/Router/Mirrored.antt =====
-- korith_vllm_ext/tiered_router.py: the prefixes that a store mirrored into LMCache's dict in memory.
use axropus_deploy.Prelude.{
  ℕ, ◌≡◌, refl, String, Bool, true, false, List, [], ◌∷◌, Option, none, some, arith, either_of,
  either_at, sort_by, add_key, eq_refl,
}
use axropus_deploy.Dict.Laws.{get-put}
use axropus_deploy.Pool.{CompressedKv, PoolEntry, Pool, Floats, contains}
use axropus_deploy.Pool as Vram
use axropus_deploy.Pool.Insert.{Error, Result, ok, raise}
use axropus_deploy.Pool.Put.{Tensor, put_from_raw}
use axropus_deploy.LmCache.Held.{is_found, Kept, fetch-Kept, store_lem, store-Kept, fetch_found}
use axropus_deploy.LmCache.{Engine, fetch}
use axropus_deploy.Router.{
  Router, LookupResult, Readings, is_too_short, should_mirror, is_before, miss, note_hit,
  after_fetch, after_get, lookup, mirror, after_put, store_after_prefill, prefetch, promote_if,
  warm, work_on, prefetch_round,
}
use axropus_deploy.Router.Machine.{Call, looks_up, stores, prefetches, works, step, run}
use axropus_deploy.Router.Seen.{is_warm}

module _ {C F E T : Type 0} (fl : Floats F) (codecs : String → Option (T → Option (CompressedKv C)))
    (lib : Engine E (Tensor T)) where
  abbrev Keeps : String → Router C F E T → Type 0
  Keeps k r = Kept k r.lmcache

  abbrev KeepsAfter : String → LookupResult C F T × Router C F E T → Type 0
  KeepsAfter k o = Kept k o.1.lmcache

  after_get-Keeps :
      (env : Readings F) (k j : String) (e : Option (PoolEntry C F)) (r : Router C F E T)
      → Keeps k r
      → KeepsAfter k (after_get fl codecs lib env j e r)
  unfolding miss note_hit
  after_get-Keeps env k j (some e) r h = h
  after_get-Keeps env k j none r h =
      either_of (KeepsAfter k) r.lmcache.enabled _ _
        (either_of (KeepsAfter k) env.raises _ _ h
          (fetched (fetch lib env.disk j r.lmcache).0 _ (fetch-Kept lib env.disk k j r.lmcache h)))
        h
    where
      fetched :
          (kv : Option (Tensor T)) (q : Router C F E T)
          → Keeps k q
          → KeepsAfter k (after_fetch fl codecs lib env j kv q)
      fetched none q g = g
      fetched (some kv) q g = g

  after_put-Keeps :
      (env : Readings F) (k j : String) (n : ℕ) (kv : Tensor T) (o : Result Bool)
      (r : Router C F E T)
      → Keeps k r
      → Keeps k (after_put fl codecs lib env j n kv o r).1
  after_put-Keeps env k j n kv (ok b) r h =
      either_of (Keeps k) (should_mirror r.write_policy n r.large_write_threshold false) _ _
        (store-Kept lib env.disk k j kv r.lmcache h) h
  after_put-Keeps env k j n kv (raise e) r h = h

  warm-Keeps :
      (env : Readings F) (k j : String) (kv : Option (Tensor T)) (r : Router C F E T)
      → Keeps k r
      → Keeps k (warm fl codecs lib env j kv r)
  warm-Keeps env k j (some kv) r h = h
  warm-Keeps env k j none r h =
      either_of (Keeps k) r.lmcache.enabled _ _
        (either_of (Keeps k) env.raises _ _ h
          (promoted (fetch lib env.disk j r.lmcache).0 _ (fetch-Kept lib env.disk k j r.lmcache h)))
        h
    where
      promoted :
          (kv : Option (Tensor T)) (q : Router C F E T)
          → Keeps k q
          → Keeps k (promote_if fl codecs lib env.clock j kv q)
      promoted none q g = g
      promoted (some kv) q g = g

  work_on-Keeps :
      (env : Readings F) (resolver : String → Option (Tensor T)) (k : String)
      (q : List (ℕ × String)) (r : Router C F E T)
      → Keeps k r
      → Keeps k (work_on fl codecs lib env resolver q r)
  work_on-Keeps env resolver k [] r h = h
  work_on-Keeps env resolver k ((priority, j) ∷ rest) r h =
      either_of (Keeps k) (contains j r.pool) _ _ h
        (warm-Keeps env k j (resolver j) (record r { prefetch_queue = rest }) h)

  step-Keeps :
      (k : String) (c : Call F T) (r : Router C F E T)
      → Keeps k r
      → Keeps k (step fl codecs lib c r)
  unfolding step lookup miss store_after_prefill prefetch prefetch_round
  step-Keeps k (looks_up env j tokens) r h =
      let (e, p) = Vram.lookup env.now j r.pool in
      either_of (KeepsAfter k) (is_too_short tokens r.min_prefix_tokens) _ _ h
        (after_get-Keeps env k j e (record r { pool = p }) h)
  step-Keeps k (stores env j n kv savings format) r h =
      let (result, p) = put_from_raw fl codecs env.clock j kv format savings r.pool in
      after_put-Keeps env k j n kv result (record r { seen = add_key j r.seen; pool = p }) h
  step-Keeps k (prefetches j priority) r h = h
  step-Keeps k (works env resolver) r h =
      work_on-Keeps env resolver k (sort_by is_before r.prefetch_queue) r h

  run-Keeps :
      (k : String) (cs : List (Call F T)) (r : Router C F E T)
      → Keeps k r
      → Keeps k (run fl codecs lib cs r)
  unfolding run
  run-Keeps k [] r h = h
  run-Keeps k (c ∷ cs) r h = run-Keeps k cs (step fl codecs lib c r) (step-Keeps k c r h)

  -- A prefix that is held is found.
  abbrev Warm : LookupResult C F T × Router C F E T → Type 0
  Warm o = is_warm o.0.tier ≡ true

  clash : {P : Type 0} {b : Bool} → b ≡ true → b ≡ false → P
  clash h g = absurd (ground arith)

  lookup-Warm :
      (env : Readings F) (k : String) (tokens : Option ℕ) (r : Router C F E T)
      → env.raises ≡ false
      → is_too_short tokens r.min_prefix_tokens ≡ false
      → Keeps k r
      → Warm (lookup fl codecs lib env k tokens r)
  unfolding lookup note_hit
  lookup-Warm env k tokens r fine long h =
      let (e, p) = Vram.lookup env.now k r.pool in rw long (found e (record r { pool = p }) h)
    where
      fetched :
          (kv : Option (Tensor T)) (q : Router C F E T)
          → is_found kv ≡ true
          → Warm (after_fetch fl codecs lib env k kv q)
      fetched none q g = absurd (ground arith)
      fetched (some kv) q g = refl

      found :
          (e : Option (PoolEntry C F)) (q : Router C F E T)
          → Keeps k q
          → Warm (after_get fl codecs lib env k e q)
      found (some e) q g = refl
      found none q g =
          either_at Warm q.lmcache.enabled _ _
            (λ on.
              either_at Warm env.raises _ _ (λ raised. clash raised fine)
                (λ e.
                  fetched (fetch lib env.disk k q.lmcache).0 _
                    (fetch_found lib env.disk k q.lmcache g)))
            (λ off. clash g.enabled off)

  stored_held :
      (env : Readings F) (k : String) (n : ℕ) (kv : Tensor T) (q : Router C F E T)
      → q.lmcache.enabled ≡ true
      → q.lmcache.on_nvme ≡ false
      → q.lmcache.engine ≡ none
      → should_mirror q.write_policy n q.large_write_threshold false ≡ true
      → Keeps k (mirror fl codecs lib env k n kv q)
  stored_held env k n kv q on memory bare mirrors =
      either_at (Keeps k) (should_mirror q.write_policy n q.large_write_threshold false) _ _
        (λ e. rw (store_lem lib env.disk k kv q.lmcache on memory bare) (record {
          enabled = on;
          in_memory = memory;
          no_engine = bare;
          held = rw (get-put k k kv q.lmcache.cpu_store, eq_refl k) refl;
        }))
        (λ off. clash mirrors off)

  raise_ne : {P : Type 0} {x : Error} {b : Bool} → raise x ≡ ok b → P
  raise_ne h = absurd cc

  -- If a store of a prefix does not raise and is mirrored, with LMCache enabled, its library absent and
  -- the dict in memory as its backend, then after any calls of the router a lookup of the prefix that is
  -- long enough and does not raise finds it in the pool or in LMCache, whatever the pool evicted.
  pub mirrored_is_found :
      (env : Readings F) (k : String) (n : ℕ) (kv : Tensor T) (savings : F) (format : Option String)
      (r : Router C F E T) (b : Bool) (cs : List (Call F T)) (env' : Readings F) (tokens : Option ℕ)
      → r.lmcache.enabled ≡ true
      → r.lmcache.on_nvme ≡ false
      → r.lmcache.engine ≡ none
      → should_mirror r.write_policy n r.large_write_threshold false ≡ true
      → (store_after_prefill fl codecs lib env k n kv savings format r).0 ≡ ok b
      → env'.raises ≡ false
      → is_too_short tokens
          (run fl codecs lib cs
            (store_after_prefill fl codecs lib env k n kv savings format r).1).min_prefix_tokens
        ≡ false
      → is_warm
          (lookup fl codecs lib env' k tokens (
            run fl codecs lib cs
              (store_after_prefill fl codecs lib env k n kv savings format r).1)).0.tier
        ≡ true
  unfolding store_after_prefill
  mirrored_is_found env k n kv savings format r b cs env' tokens on memory bare mirrors stored fine
        long =
      let (result, p) = put_from_raw fl codecs env.clock k kv format savings r.pool in
      lookup-Warm env' k tokens _ fine long (
        run-Keeps k cs _ (
          put_held result (record r { seen = add_key k r.seen; pool = p }) on memory bare mirrors
            stored))
    where
      put_held :
          (o : Result Bool) (q : Router C F E T)
          → q.lmcache.enabled ≡ true
          → q.lmcache.on_nvme ≡ false
          → q.lmcache.engine ≡ none
          → should_mirror q.write_policy n q.large_write_threshold false ≡ true
          → (after_put fl codecs lib env k n kv o q).0 ≡ ok b
          → Keeps k (after_put fl codecs lib env k n kv o q).1
      put_held (ok c) q a d e m g = stored_held env k n kv q a d e m
      put_held (raise x) q a d e m g = raise_ne g
