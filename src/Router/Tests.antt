-- ===== src/Router/Tests.antt =====
-- Runs of a router over a small pool, and the theorems at concrete inputs.
use axropus_deploy.Prelude.{
  arith, ℕ, suc, ◌+◌, ◌-◌, ◌*◌, ◌/◌, max, String, ◌≡◌, refl, true, false, List, [], ◌∷◌, Option,
  none, some, ltb, if◌then◌else◌, str_eq,
}
use axropus_deploy.Dict.{get, pop, put}
use axropus_deploy.Slab.{alloc_span, free_span, units}
use axropus_deploy.Pool.{
  CompressedKv, Pool, Floats, Weights, init, clear, delete, evict_one, alloc_layer, free_extents,
  free_extent, alloc_at, next_round, nbytes, reuse_score,
}
use axropus_deploy.Pool as Vram
use axropus_deploy.Pool.Restore.{decode_all}
use axropus_deploy.Pool.Stored.{IsCodec}
use axropus_deploy.Pool.Insert.{insert}
use axropus_deploy.Pool.Put.{
  compress_all, put_layout, put_blobs, Tensor, put_from_raw, infer_layout,
}
use axropus_deploy.LmCache.{Engine, LmCache, fetch, store, evict}
use axropus_deploy.Router.{
  g1_amf, evicted_from_amf, large_only, Router, Readings, nothing, new_router, miss, note_hit,
  lookup, store_after_prefill, prefetch, prefetch_round,
}
use axropus_deploy.Router.Machine.{Call, looks_up, stores, step, run}
use axropus_deploy.Router.Tallies.{total, reported}
use axropus_deploy.Router.Counts.{lookups_counted}
use axropus_deploy.Router.Seen.{is_warm, miss_reason}
use axropus_deploy.Router.Mirrored.{mirrored_is_found}
use axropus_deploy.Router.Restored.{DecodesTo, lookup-store_after_prefill}

-- Floats as numbers above 0, which stands for minus infinity
abbrev plain : Floats ℕ
plain = record {
  of_nat = λ n. n;
  add = λ a b. a + b;
  sub = λ a b. suc (a - b);
  mul = λ a b. a * b;
  div = λ a b. a / b;
  maximum = λ a b. max a b;
  greater = λ a b. ltb b a;
  minus_inf = 0;
}

abbrev keep_number : ℕ → CompressedKv ℕ
keep_number n = record {
  format = "fp16";
  data_bytes = 12;
  scale_bytes = 0;
  shape = [];
  content = n / 2;
}

abbrev keep : ℕ → Option (CompressedKv ℕ)
keep n = some (keep_number n)

abbrev codecs : String → Option (ℕ → Option (CompressedKv ℕ))
codecs f = if str_eq f "fp16" then some keep else none

abbrev content_of : CompressedKv ℕ → Option ℕ
content_of c = some (c.content * 2)

abbrev decoders : String → Option (CompressedKv ℕ → Option ℕ)
decoders f = if str_eq f "fp16" then some content_of else none

abbrev kv : ℕ → Tensor ℕ
kv n = record { shape = 2 ∷ 2 ∷ 3 ∷ 1 ∷ 8 ∷ []; one_byte = false; layer = λ i. i + n }

-- Two layers of two blocks of ten bytes, so that one prefix fills the pool
abbrev small : Pool ℕ ℕ
small = init 2 20 10 "fp16" (record { alpha = 1; beta = 1; gamma = 1; delta = 1 })

-- No library: its state is a number that is never read.
abbrev no_library : Engine ℕ (Tensor ℕ)
no_library = record { fetch = λ k e. none; keep = λ k v e. none; bytes = λ v. 96 }

abbrev in_memory : LmCache ℕ (Tensor ℕ)
in_memory = record {
  enabled = true;
  on_nvme = false;
  engine = none;
  cpu_store = [];
  files = [];
  stat_hits = 0;
  stat_misses = 0;
  stat_stores = 0;
  stat_bytes_in = 0;
  stat_bytes_out = 0;
}

abbrev fresh : Router ℕ ℕ ℕ ℕ
fresh = new_router plain small in_memory 64 large_only 2048

abbrev at_time : ℕ → Readings ℕ
at_time n = record {
  now = n;
  clock = record { scored = λ layer round k. n; created = n; last_hit = n };
  latency = 1;
  disk = record { loads = true; saves = true };
  raises = false;
}

-- The second store evicts the first prefix from the pool; the first was mirrored, being large.
abbrev calls : List (Call ℕ ℕ)
calls =
    looks_up (at_time 0) "a" (some 100)
    ∷ stores (at_time 1) "a" 3000 (kv 7) 0 none
    ∷ stores (at_time 2) "b" 100 (kv 9) 0 none
    ∷ looks_up (at_time 3) "a" (some 100)
    ∷ looks_up (at_time 4) "b" none
    ∷ []

program : Unit {0}
unfolding infer_layout init insert clear delete evict_one alloc_layer free_extents free_extent
    alloc_at next_round nbytes reuse_score alloc_span free_span units get pop put put_from_raw
    compress_all put_layout put_blobs decode_all Vram.lookup fetch store evict new_router miss
    note_hit lookup store_after_prefill prefetch prefetch_round step run
program = tt

tiers_lem :
    (run plain codecs no_library calls fresh).hit_counts ≡ record { amf = 0; lmcache = 1; cold = 2 }
unfolding program
tiers_lem = refl

-- The worker warms the prefix.
prefetched_lem :
    (lookup plain codecs no_library (at_time 6) "c" none (
      prefetch_round plain codecs no_library
        (at_time 5)
        (λ k. some (kv 3))
        (prefetch plain codecs no_library "c" 0 fresh))).0.tier
    ≡ g1_amf
unfolding program
prefetched_lem = refl

lookups_counted_example :
    let r = run plain codecs no_library calls fresh in
    (total r.hit_counts ≡ 3)
    × ((reported r.miss_counts ≡ r.hit_counts.cold)
        × ((r.miss_counts.lmcache_disabled ≡ 0)
            × ((r.miss_counts.lmcache_miss ≡ 0) × (r.miss_counts.format_mismatch ≡ 0))))
lookups_counted_example =
    lookups_counted plain codecs no_library small in_memory 64 large_only 2048 calls

-- A prefix that was stored, and evicted without a mirror
miss_reason_example :
    (lookup plain codecs no_library
      (at_time 9)
      "b"
      none
      (run plain codecs no_library calls fresh)).0.payload
    ≡ nothing evicted_from_amf
unfolding program
miss_reason_example =
    miss_reason plain codecs no_library small in_memory 64 large_only 2048 calls (at_time 9) "b"
      none refl refl refl

mirrored_is_found_example :
    is_warm
      (lookup plain codecs no_library (at_time 9) "a" (some 64) (
        run plain codecs no_library calls
          (store_after_prefill plain codecs no_library
            (at_time 0)
            "a"
            2048
            (kv 7)
            0
            none
            fresh).1)).0.tier
    ≡ true
unfolding program
mirrored_is_found_example =
    mirrored_is_found plain codecs no_library (at_time 0) "a" 2048 (kv 7) 0 none fresh true calls
      (at_time 9) (some 64) refl refl refl refl refl refl refl

halves_IsCodec : IsCodec decoders keep (λ n. n / 2 * 2)
unfolding program
halves_IsCodec = record {
  decode = content_of;
  has_decoder = λ x b h. named x b h;
  restores = λ x b h. back x b h;
}
  where
    kept : (x : ℕ) (b : CompressedKv ℕ) → keep x ≡ some b → keep_number x ≡ b
    kept x b h = ground arith

    named : (x : ℕ) (b : CompressedKv ℕ) → keep x ≡ some b → decoders b.format ≡ some content_of
    named x b h = rw (← kept x b h)

    back : (x : ℕ) (b : CompressedKv ℕ) → keep x ≡ some b → content_of b ≡ some (x / 2 * 2)
    back x b h = rw (← kept x b h)

lookup-store_after_prefill_example :
    let o =
      lookup plain codecs no_library
        (at_time 5)
        "a"
        none
        (store_after_prefill plain codecs no_library (at_time 4) "a" 100 (kv 7) 0 none fresh).1 in
    (o.0.tier ≡ g1_amf) × DecodesTo decoders (6 ∷ 8 ∷ []) o.0.payload
unfolding program
lookup-store_after_prefill_example =
    lookup-store_after_prefill plain codecs no_library decoders keep (λ n. n / 2 * 2) halves_IsCodec
      (at_time 4) "a" 100 (kv 7) 0 none fresh 2 3 1 8 (at_time 5) none refl refl refl refl
