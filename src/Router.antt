-- ===== src/Router.antt =====
-- korith_vllm_ext/tiered_router.py: the router over the pool in VRAM and LMCache. Latencies are
-- floats, which are an argument like the clock's readings.
pub mod Machine
pub mod Tallies
pub mod Counts
pub mod Seen
pub mod Mirrored
pub mod Restored
mod Tests
use axropus_deploy.Prelude.{
  ℕ, suc, ◌+◌, String, Bool, true, false, not, ◌&&◌, List, [], ◌∷◌, ◌++◌, Option, none, some,
  if◌then◌else◌, ltb, leb, ◌==◌, has, add_key, text_le, sort_by,
}
use axropus_deploy.Pool.{CompressedKv, PoolEntry, Pool, Floats, contains}
use axropus_deploy.Pool as Vram
use axropus_deploy.Pool.Insert.{Clock, Result, ok, raise}
use axropus_deploy.Pool.Put.{Tensor, put_from_raw}
use axropus_deploy.LmCache.{Engine, LmCache, Disk, fetch, store}

pub data CacheTier : Type 0 where
  g1_amf g3_lmcache cold : CacheTier

pub data MissReason : Type 0 where
  first_request evicted_from_amf lmcache_disabled lmcache_miss lmcache_error : MissReason
  format_mismatch prefix_too_short : MissReason

pub data WritePolicy : Type 0 where
  always large_only on_eviction never : WritePolicy

-- A value for each tier
pub record Tiers (A : Type 0) : Type 0 where
  pub amf : A
  pub lmcache : A
  pub cold : A

abbrev pub at_tier : {A : Type 0} → (A → A) → CacheTier → Tiers A → Tiers A
at_tier f g1_amf t = record t { amf = f t.amf }
at_tier f g3_lmcache t = record t { lmcache = f t.lmcache }
at_tier f cold t = record t { cold = f t.cold }

pub record MissCounts : Type 0 where
  pub first_request : ℕ
  pub evicted_from_amf : ℕ
  pub lmcache_disabled : ℕ
  pub lmcache_miss : ℕ
  pub lmcache_error : ℕ
  pub format_mismatch : ℕ
  pub prefix_too_short : ℕ

abbrev pub count_miss : MissReason → MissCounts → MissCounts
count_miss first_request c = record c { first_request = suc c.first_request }
count_miss evicted_from_amf c = record c { evicted_from_amf = suc c.evicted_from_amf }
count_miss lmcache_disabled c = record c { lmcache_disabled = suc c.lmcache_disabled }
count_miss lmcache_miss c = record c { lmcache_miss = suc c.lmcache_miss }
count_miss lmcache_error c = record c { lmcache_error = suc c.lmcache_error }
count_miss format_mismatch c = record c { format_mismatch = suc c.format_mismatch }
count_miss prefix_too_short c = record c { prefix_too_short = suc c.prefix_too_short }

pub record Router (C F E T : Type 0) : Type 0 where
  pub pool : Pool C F
  pub lmcache : LmCache E (Tensor T)
  pub min_prefix_tokens : ℕ
  pub write_policy : WritePolicy
  pub large_write_threshold : ℕ
  pub seen : List String
  pub miss_counts : MissCounts
  pub hit_counts : Tiers ℕ
  pub latency_sum : Tiers F
  pub prefetch_queue : List (ℕ × String)

-- What a lookup finds
pub data Payload (C F T : Type 0) : Type 0 where
  entry : PoolEntry C F → Payload C F T
  tensor : Tensor T → Payload C F T
  nothing : MissReason → Payload C F T

pub record LookupResult (C F T : Type 0) : Type 0 where
  pub prefix_hash : String
  pub tier : CacheTier
  pub payload : Payload C F T
  pub latency_ms : F

-- What a call reads of its environment: the clock at a lookup in the pool and in an
-- insertion, the latency that it measures, the disk,
-- and whether the lookup in LMCache raises.
pub record Readings (F : Type 0) : Type 0 where
  pub now : ℕ
  pub clock : Clock
  pub latency : F
  pub disk : Disk
  pub raises : Bool

-- The reason that `_miss` reports
abbrev pub upgrade : Bool → MissReason → MissReason
upgrade true lmcache_miss = evicted_from_amf
upgrade true lmcache_disabled = evicted_from_amf
upgrade false lmcache_miss = first_request
upgrade false lmcache_disabled = first_request
upgrade known first_request = first_request
upgrade known evicted_from_amf = evicted_from_amf
upgrade known lmcache_error = lmcache_error
upgrade known format_mismatch = format_mismatch
upgrade known prefix_too_short = prefix_too_short

abbrev pub is_too_short : Option ℕ → ℕ → Bool
is_too_short none least = false
is_too_short (some n) least = ltb n least

-- `_should_mirror` on the number of tokens
abbrev pub should_mirror : WritePolicy → ℕ → ℕ → Bool → Bool
should_mirror always n threshold is_eviction = true
should_mirror large_only n threshold is_eviction = leb threshold n
should_mirror on_eviction n threshold is_eviction = is_eviction
should_mirror never n threshold is_eviction = false

-- The order of the queue: by priority, then by prefix
abbrev pub is_before : ℕ × String → ℕ × String → Bool
is_before a b = if a.0 == b.0 then text_le a.1 b.1 else ltb a.0 b.0

-- `__init__`
unfoldable pub new_router :
    {C F E T : Type 0}
    → Floats F
    → Pool C F
    → LmCache E (Tensor T)
    → ℕ
    → WritePolicy
    → ℕ
    → Router C F E T
new_router fl pool lmcache least policy threshold = record {
  pool = pool;
  lmcache = lmcache;
  min_prefix_tokens = least;
  write_policy = policy;
  large_write_threshold = threshold;
  seen = [];
  miss_counts = record {
    first_request = 0;
    evicted_from_amf = 0;
    lmcache_disabled = 0;
    lmcache_miss = 0;
    lmcache_error = 0;
    format_mismatch = 0;
    prefix_too_short = 0;
  };
  hit_counts = record { amf = 0; lmcache = 0; cold = 0 };
  latency_sum = record { amf = fl.of_nat 0; lmcache = fl.of_nat 0; cold = fl.of_nat 0 };
  prefetch_queue = [];
}

module _ {C F E T : Type 0} (fl : Floats F) where
  unfoldable pub miss :
      String → MissReason → F → Router C F E T → LookupResult C F T × Router C F E T
  miss k reason latency r =
      let reason' = upgrade (has k r.seen) reason in
      (
        record {
          prefix_hash = k;
          tier = CacheTier.cold;
          payload = nothing reason';
          latency_ms = latency;
        },
        record r {
          miss_counts = count_miss reason' r.miss_counts;
          hit_counts = at_tier suc cold r.hit_counts;
          latency_sum = at_tier (λ s. fl.add s latency) cold r.latency_sum;
        },
      )

  -- The bookkeeping of a hit
  unfoldable pub note_hit :
      String → CacheTier → Payload C F T → F → Router C F E T → LookupResult C F T × Router C F E T
  note_hit k tier payload latency r = (
    record { prefix_hash = k; tier = tier; payload = payload; latency_ms = latency },
    record r {
      hit_counts = at_tier suc tier r.hit_counts;
      latency_sum = at_tier (λ s. fl.add s latency) tier r.latency_sum;
      seen = add_key k r.seen;
    },
  )

module _ {C F E T : Type 0} (fl : Floats F) (codecs : String → Option (T → Option (CompressedKv C)))
    (lib : Engine E (Tensor T)) where
  -- `_schedule_promotion`: what the insertion returns or raises is not looked at.
  abbrev pub promote : Clock → String → Tensor T → Router C F E T → Router C F E T
  promote clock k kv r = record r {
    pool = (put_from_raw fl codecs clock k kv none (fl.of_nat 0) r.pool).1;
  }

  -- After the lookup in LMCache
  abbrev pub after_fetch :
      Readings F → String → Option (Tensor T) → Router C F E T → LookupResult C F T × Router C F E T
  after_fetch env k none r = miss fl k lmcache_miss env.latency r
  after_fetch env k (some kv) r =
      note_hit fl k g3_lmcache (tensor kv) env.latency (promote env.clock k kv r)

  abbrev pub ask_lmcache :
      Readings F → String → Router C F E T → LookupResult C F T × Router C F E T
  ask_lmcache env k r =
      let (kv, c) = fetch lib env.disk k r.lmcache in
      let found = after_fetch env k kv (record r { lmcache = c }) in
      if r.lmcache.enabled
      then (if env.raises then miss fl k lmcache_error env.latency r else found)
      else miss fl k lmcache_disabled env.latency r

  -- After the lookup in the pool
  abbrev pub after_get :
      Readings F
      → String
      → Option (PoolEntry C F)
      → Router C F E T
      → LookupResult C F T × Router C F E T
  after_get env k (some e) r = note_hit fl k g1_amf (entry e) env.latency r
  after_get env k none r = ask_lmcache env k r

  -- `lookup`; of the tokens only their number counts.
  unfoldable pub lookup :
      Readings F → String → Option ℕ → Router C F E T → LookupResult C F T × Router C F E T
  lookup env k tokens r =
      let (e, p) = Vram.lookup env.now k r.pool in
      let found = after_get env k e (record r { pool = p }) in
      if is_too_short tokens r.min_prefix_tokens
      then miss fl k prefix_too_short env.latency r
      else found

  -- The mirroring; an exception of LMCache is only logged.
  abbrev pub mirror : Readings F → String → ℕ → Tensor T → Router C F E T → Router C F E T
  mirror env k n kv r =
      let c = (store lib env.disk k kv r.lmcache).1 in
      if should_mirror r.write_policy n r.large_write_threshold false
      then record r { lmcache = c }
      else r

  abbrev pub after_put :
      Readings F
      → String
      → ℕ
      → Tensor T
      → Result Bool
      → Router C F E T
      → Result Bool × Router C F E T
  after_put env k n kv (ok b) r = (ok b, mirror env k n kv r)
  after_put env k n kv (raise e) r = (raise e, r)

  -- `store_after_prefill`, with the number of tokens
  unfoldable pub store_after_prefill :
      Readings F
      → String
      → ℕ
      → Tensor T
      → F
      → Option String
      → Router C F E T
      → Result Bool × Router C F E T
  store_after_prefill env k n kv savings format r =
      let (result, p) = put_from_raw fl codecs env.clock k kv format savings r.pool in
      after_put env k n kv result (record r { seen = add_key k r.seen; pool = p })

  -- `prefetch`, less the thread and the hint, which nothing reads
  unfoldable pub prefetch : String → ℕ → Router C F E T → Router C F E T
  prefetch k priority r = record r { prefetch_queue = r.prefetch_queue ++ (priority, k) ∷ [] }

  abbrev pub promote_if : Clock → String → Option (Tensor T) → Router C F E T → Router C F E T
  promote_if clock k none r = r
  promote_if clock k (some kv) r = promote clock k kv r

  -- What the worker does with a prefix: `resolved` is what the resolver returns, if there is one.
  abbrev pub warm : Readings F → String → Option (Tensor T) → Router C F E T → Router C F E T
  warm env k (some kv) r = promote env.clock k kv r
  warm env k none r =
      let (kv, c) = fetch lib env.disk k r.lmcache in
      let warmed = promote_if env.clock k kv (record r { lmcache = c }) in
      if r.lmcache.enabled then (if env.raises then r else warmed) else r

  abbrev pub work_on :
      Readings F
      → (String → Option (Tensor T))
      → List (ℕ × String)
      → Router C F E T
      → Router C F E T
  work_on env resolver [] r = r
  work_on env resolver ((priority, k) ∷ rest) r =
      let warmed = warm env k (resolver k) (record r { prefetch_queue = rest }) in
      if contains k r.pool then record r { prefetch_queue = rest } else warmed

  -- One round of `_prefetch_worker`
  unfoldable pub prefetch_round :
      Readings F → (String → Option (Tensor T)) → Router C F E T → Router C F E T
  prefetch_round env resolver r = work_on env resolver (sort_by is_before r.prefetch_queue) r
