-- ===== src/Pool.antt =====
-- korith_vllm_ext/compressed_vram_pool.py: the records of the pool, its queries and its slab
-- allocator. `C` is what a codec returns beside the sizes (tensors, tensor scale, meta), which only
-- the codecs read; `F` is the type of floats. Each reading of the clock is an argument: an eviction
-- reads it once for each entry that it scores.
pub mod Insert
pub mod Put
pub mod Restore
pub mod Balance
pub mod Release
pub mod Evict
pub mod Allocate
pub mod Evictions
pub mod Accounts
pub mod Layers
pub mod Rejected
pub mod Victim
pub mod Stored
pub mod Machine
mod Tests
use axropus_deploy.Prelude.{
  ℕ, zero, suc, ◌+◌, ◌-◌, ◌*◌, ◌/◌, max, String, Bool, true, false, List, [], ◌∷◌, ◌++◌, map,
  Option, none, some, if◌then◌else◌, length, get_elem?, set, replicate, sum, any_of, str_eq,
}
use axropus_deploy.Dict.{Dict, get, pop, put, values}
use axropus_deploy.Slab.{span, alloc_span, free_span, units}

pub record CompressedKv (C : Type 0) : Type 0 where
  pub format : String
  pub data_bytes : ℕ
  pub scale_bytes : ℕ
  pub shape : List ℕ
  pub content : C

pub record CompressedBlock (C : Type 0) : Type 0 where
  pub layer_id : ℕ
  pub block_id : ℕ
  pub format : String
  pub num_tokens : ℕ
  pub num_heads : ℕ
  pub head_dim : ℕ
  pub data_offset : ℕ
  pub data_bytes : ℕ
  pub scale_offset : ℕ
  pub scale_bytes : ℕ
  pub content : C

pub record PoolEntry (C F : Type 0) : Type 0 where
  pub prefix_hash : String
  pub num_layers : ℕ
  pub num_tokens : ℕ
  pub format : String
  pub blocks : List (CompressedBlock C)
  pub blobs : List (CompressedKv C)
  pub created_ns : ℕ
  pub last_hit_ns : ℕ
  pub hit_count : ℕ
  pub avg_savings_ms : F

pub record Stats : Type 0 where
  pub hits : ℕ
  pub misses : ℕ
  pub inserts : ℕ
  pub evictions : ℕ
  pub bytes_stored : ℕ
  pub bytes_evicted : ℕ

-- What `stats` returns
pub record PoolStats : Type 0 where
  pub counters : Stats
  pub num_prefixes : ℕ
  pub used_bytes : ℕ
  pub capacity_bytes : ℕ

-- The weights of the eviction score.
pub record Weights (F : Type 0) : Type 0 where
  pub alpha : F
  pub beta : F
  pub gamma : F
  pub delta : F

pub record Pool (C F : Type 0) : Type 0 where
  pub num_layers : ℕ
  pub bytes_per_layer : ℕ
  pub block_bytes : ℕ
  pub default_format : String
  pub weights : Weights F
  pub free_lists : List (List ℕ)
  pub index : Dict (PoolEntry C F)
  pub stats : Stats

-- The floating-point operations that the eviction score uses.
pub record Floats (F : Type 0) : Type 0 where
  pub of_nat : ℕ → F
  pub add : F → F → F
  pub sub : F → F → F
  pub mul : F → F → F
  pub div : F → F → F
  pub maximum : F → F → F
  pub greater : F → F → Bool
  pub minus_inf : F

-- Blocks `start` to `start + len - 1` of a layer's slab.
pub record Extent : Type 0 where
  pub layer : ℕ
  pub start : ℕ
  pub len : ℕ

-- `_free_span` on the list of free lists.
unfoldable pub free_extent : Extent → List (List ℕ) → List (List ℕ)
free_extent e fl = elim (get_elem? fl e.layer) [
  | none ↦ fl
  | some free ↦ set fl e.layer (free_span e.start e.len free)
]

unfoldable pub free_extents : List Extent → List (List ℕ) → List (List ℕ)
free_extents [] fl = fl
free_extents (e ∷ es) fl = free_extents es (free_extent e fl)

-- What `_alloc_span` returns, or the IndexError of `self._free_lists[layer_id]`.
pub data Span : Type 0 where
  at : ℕ → Span
  no_run no_layer : Span

abbrev pub span_of : Option ℕ → Span
span_of none = no_run
span_of (some start) = at start

unfoldable pub alloc_at : ℕ → ℕ → List (List ℕ) → Span × List (List ℕ)
alloc_at layer n fl = elim (get_elem? fl layer) [
  | none ↦ (no_layer, fl)
  | some free ↦ (span_of (alloc_span n free).0, set fl layer (alloc_span n free).1)
]

module _ {C : Type 0} where
  abbrev pub block_extent : ℕ → CompressedBlock C → Extent
  block_extent block_bytes b = record {
    layer = b.layer_id;
    start = b.block_id;
    len = units block_bytes (b.data_bytes + b.scale_bytes);
  }

  abbrev pub blob_bytes : CompressedKv C → ℕ
  blob_bytes b = b.data_bytes + b.scale_bytes

module _ {C F : Type 0} where
  abbrev pub entry_extents : ℕ → PoolEntry C F → List Extent
  entry_extents block_bytes e = map (block_extent block_bytes) e.blocks

  -- `PoolEntry.nbytes`
  unfoldable pub nbytes : PoolEntry C F → ℕ
  nbytes e = sum (map (λ (b : CompressedBlock C). b.data_bytes + b.scale_bytes) e.blocks)

  -- `_release_entry`
  pub release_entry : PoolEntry C F → Pool C F → Pool C F
  release_entry e p = record p {
    free_lists = free_extents (entry_extents p.block_bytes e) p.free_lists;
  }

  pub capacity_bytes : Pool C F → ℕ
  capacity_bytes p = p.num_layers * p.bytes_per_layer

  pub used_bytes : Pool C F → ℕ
  used_bytes p = sum (map nbytes (values p.index))

  -- `__len__`
  abbrev pub num_prefixes : Pool C F → ℕ
  num_prefixes p = length p.index

  -- `__contains__`
  abbrev pub contains : String → Pool C F → Bool
  contains k p = any_of (λ (e : String × PoolEntry C F). str_eq e.0 k) p.index

  abbrev pub pool_stats : Pool C F → PoolStats
  pool_stats p = record {
    counters = p.stats;
    num_prefixes = num_prefixes p;
    used_bytes = used_bytes p;
    capacity_bytes = capacity_bytes p;
  }

  -- `__init__`: every block of every layer is free.
  unfoldable pub init : ℕ → ℕ → ℕ → String → Weights F → Pool C F
  init num_layers bytes_per_layer block_bytes default_format weights = record {
    num_layers = num_layers;
    bytes_per_layer = bytes_per_layer;
    block_bytes = block_bytes;
    default_format = default_format;
    weights = weights;
    free_lists = replicate num_layers (span 0 (bytes_per_layer / block_bytes));
    index = [];
    stats = record {
      hits = 0;
      misses = 0;
      inserts = 0;
      evictions = 0;
      bytes_stored = 0;
      bytes_evicted = 0;
    };
  }

  -- `CompressedVRAMPool.get`: the entry after the hit is counted, which is also the stored one.
  unfoldable pub hit : ℕ → PoolEntry C F → PoolEntry C F
  hit now e = record e { last_hit_ns = now; hit_count = e.hit_count + 1 }

  unfoldable pub lookup : ℕ → String → Pool C F → Option (PoolEntry C F) × Pool C F
  unfolding hit
  lookup now k p = elim (get k p.index) [
    | none ↦ (none, record p { stats = record p.stats { misses = p.stats.misses + 1 } })
    | some e ↦ (
      some (hit now e),
      record p {
        index = put k (hit now e) p.index;
        stats = record p.stats { hits = p.stats.hits + 1 };
      },
    )
  ]

  unfoldable pub delete : String → Pool C F → Bool × Pool C F
  unfolding release_entry
  delete k p = elim (get k p.index) [
    | none ↦ (false, p)
    | some e ↦ (true, release_entry e (record p { index = pop k p.index }))
  ]

  pub release_all : List (PoolEntry C F) → Pool C F → Pool C F
  release_all [] p = p
  release_all (e ∷ es) p = release_all es (release_entry e p)

  unfoldable pub clear : Pool C F → Pool C F
  unfolding release_all
  clear p = record (release_all (values p.index) p) { index = [] }

  -- One test of the `while span is None` loop: `again` is what the later rounds return, from the
  -- pool `q` that an eviction left.
  unfoldable pub next_round : Span → Pool C F → Bool → Pool C F → Span × Pool C F → Span × Pool C F
  next_round (at start) p evicted q again = (at start, p)
  next_round no_layer p evicted q again = (no_layer, p)
  next_round no_run p true q again = again
  next_round no_run p false q again = (no_run, q)

  module _ (fl : Floats F) where
    open fl use {of_nat, add, sub, mul, div, maximum, greater, minus_inf}

    -- `_reuse_score` at the reading `now` of the clock. The difference on ℕ stops at 0, as the age does.
    unfoldable pub reuse_score : Weights F → ℕ → PoolEntry C F → F
    reuse_score w now e =
        let age_s = div (of_nat (now - e.last_hit_ns)) (of_nat 1000000000) in
        let size_mb = div (of_nat (nbytes e)) (of_nat 1048576) in
        let savings = maximum (of_nat 0) e.avg_savings_ms in
        sub
          (add (add (mul w.alpha age_s) (div w.beta (of_nat (max 1 e.hit_count))))
            (mul w.gamma size_mb))
          (mul w.delta savings)

    -- The loop of `_evict_one`: `scan k` is the reading of the clock at which the entry of `k` is scored.
    -- A key replaces the one before only with a higher score.
    pub worst_of :
        Weights F → (String → ℕ) → Option String → F → Dict (PoolEntry C F) → Option String
    worst_of w scan worst best [] = worst
    worst_of w scan worst best ((k, e) ∷ m) =
        worst_of w scan (if greater (reuse_score w (scan k) e) best then some k else worst)
          (if greater (reuse_score w (scan k) e) best then reuse_score w (scan k) e else best) m

    -- The rest of `_evict_one`, from the key that the loop chose.
    pub evict_key : Option String → Pool C F → Bool × Pool C F
    evict_key none p = (false, p)
    evict_key (some k) p = elim (get k p.index) [
      | none ↦ (false, p)
      | some e ↦ (
        true,
        release_entry e (record p {
          index = pop k p.index;
          stats = record p.stats {
            evictions = p.stats.evictions + 1;
            bytes_evicted = p.stats.bytes_evicted + nbytes e;
          };
        }),
      )
    ]

    -- `_evict_one`
    unfoldable pub evict_one : (String → ℕ) → Pool C F → Bool × Pool C F
    unfolding worst_of evict_key release_entry
    evict_one scan p = evict_key (worst_of p.weights scan none minus_inf p.index) p

    -- The `while span is None` loop for one layer. Each round but the last evicts an entry,
    -- and makes its own readings of the clock, which are numbered by the rounds that are left.
    unfoldable pub alloc_layer : ℕ → (ℕ → String → ℕ) → ℕ → ℕ → Pool C F → Span × Pool C F
    alloc_layer zero clock layer n p = (no_run, p)
    alloc_layer (suc fuel) clock layer n p =
        let (span, lists) = alloc_at layer n p.free_lists in
        let p' = record p { free_lists = lists } in
        let (evicted, q) = evict_one (clock fuel) p' in
        next_round span p' evicted q (alloc_layer fuel clock layer n q)
