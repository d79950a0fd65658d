-- ===== src/Pool/Insert.antt =====
-- korith_vllm_ext/compressed_vram_pool.py: `_allocate` over all layers, and the part of an insertion
-- under the lock.
use axropus_deploy.Prelude.{
  ℕ, suc, ◌+◌, ◌*◌, String, Bool, true, false, List, [], ◌∷◌, ◌++◌, map, none, some, length, sum,
}
use axropus_deploy.Dict.{get, pop, put}
use axropus_deploy.Slab.{units}
use axropus_deploy.Pool.{
  CompressedKv, CompressedBlock, PoolEntry, Pool, Floats, Extent, Span, at, no_run, no_layer,
  free_extents, blob_bytes, release_entry, alloc_layer,
}

pub record Alloc : Type 0 where
  pub block_id : ℕ
  pub data_offset : ℕ
  pub scale_offset : ℕ

-- What `_allocate` returns, or the IndexError of a layer that the pool does not have.
pub data Allocated : Type 0 where
  allocated : List Alloc → Allocated
  no_room bad_layer : Allocated

pub data Error : Type 0 where
  value_error codec_error compress_error decompress_error stack_error index_error : Error

-- The readings of `time.monotonic_ns` in one insertion: of each entry that an eviction scores (by the
-- layer, the rounds left and the key), and the two of the new entry.
pub record Clock : Type 0 where
  pub scored : ℕ → ℕ → String → ℕ
  pub created : ℕ
  pub last_hit : ℕ

pub data Result {ℓ} (A : Type ℓ) : Type ℓ where
  ok : A → Result A
  raise : Error → Result A

module _ {C : Type 0} where
  abbrev pub alloc_for : ℕ → ℕ → CompressedKv C → Alloc
  alloc_for block_bytes block_id blob = record {
    block_id = block_id;
    data_offset = block_id * block_bytes;
    scale_offset = block_id * block_bytes + blob.data_bytes;
  }

  -- The spans of a partial allocation, which starts at layer `layer`.
  abbrev pub alloc_extents : ℕ → ℕ → List Alloc → List (CompressedKv C) → List Extent
  alloc_extents block_bytes layer [] blobs = []
  alloc_extents block_bytes layer (a ∷ allocs) [] = []
  alloc_extents block_bytes layer (a ∷ allocs) (b ∷ blobs) =
      record { layer = layer; start = a.block_id; len = units block_bytes (blob_bytes b) }
      ∷ alloc_extents block_bytes (layer + 1) allocs blobs

  -- `enumerate(allocation)` in both insertions.
  abbrev pub make_blocks :
      String
      → ℕ
      → (CompressedKv C → ℕ × ℕ)
      → ℕ
      → List Alloc
      → List (CompressedKv C)
      → List (CompressedBlock C)
  make_blocks fmt tokens dims layer [] blobs = []
  make_blocks fmt tokens dims layer (a ∷ allocs) [] = []
  make_blocks fmt tokens dims layer (a ∷ allocs) (b ∷ blobs) =
      record {
        layer_id = layer;
        block_id = a.block_id;
        format = fmt;
        num_tokens = tokens;
        num_heads = (dims b).0;
        head_dim = (dims b).1;
        data_offset = a.data_offset;
        data_bytes = b.data_bytes;
        scale_offset = a.scale_offset;
        scale_bytes = b.scale_bytes;
        content = b.content;
      }
      ∷ make_blocks fmt tokens dims (layer + 1) allocs blobs

-- What an insertion was asked to store.
pub record Request (C F : Type 0) : Type 0 where
  pub prefix_hash : String
  pub format : String
  pub num_layers : ℕ
  pub num_tokens : ℕ
  pub dims : CompressedKv C → ℕ × ℕ
  pub savings_ms : F
  pub blobs : List (CompressedKv C)

module _ {C F : Type 0} where
  -- After the loop for one layer: go on with its block, or roll back, which leaves `back`.
  unfoldable pub next_layer :
      Span → Pool C F → (ℕ → Allocated × Pool C F) → Pool C F → Allocated × Pool C F
  next_layer (at id) q more back = more id
  next_layer no_run q more back = (no_room, back)
  next_layer no_layer q more back = (bad_layer, q)

  -- `self._release_entry(self._index.pop(prefix_hash))` if the prefix is there.
  unfoldable pub drop_existing : String → Pool C F → Pool C F
  drop_existing k p = elim (get k p.index) [
    | none ↦ p
    | some e ↦ release_entry e (record p { index = pop k p.index })
  ]

  abbrev pub new_entry : Clock → Request C F → List Alloc → PoolEntry C F
  new_entry clock r allocs = record {
    prefix_hash = r.prefix_hash;
    num_layers = r.num_layers;
    num_tokens = r.num_tokens;
    format = r.format;
    blocks = make_blocks r.format r.num_tokens r.dims 0 allocs r.blobs;
    blobs = r.blobs;
    created_ns = clock.created;
    last_hit_ns = clock.last_hit;
    hit_count = 0;
    avg_savings_ms = r.savings_ms;
  }

  unfoldable pub commit : Clock → Request C F → Allocated → Pool C F → Result Bool × Pool C F
  commit clock r (allocated allocs) p = (
    ok true,
    record p {
      index = put r.prefix_hash (new_entry clock r allocs) p.index;
      stats = record p.stats {
        inserts = p.stats.inserts + 1;
        bytes_stored = p.stats.bytes_stored + sum (map blob_bytes r.blobs);
      };
    },
  )
  commit clock r no_room p = (ok false, p)
  commit clock r bad_layer p = (raise index_error, p)

module _ {C F : Type 0} (fl : Floats F) where
  -- The `for` loop of `_allocate` from layer `layer`; `done` is what it allocated so far.
  unfoldable pub allocate_from :
      (ℕ → ℕ → String → ℕ)
      → ℕ
      → List Alloc
      → List (CompressedKv C)
      → List (CompressedKv C)
      → Pool C F
      → Allocated × Pool C F
  unfolding next_layer
  allocate_from clock layer done blobs [] p = (allocated done, p)
  allocate_from clock layer done blobs (b ∷ rest) p =
      let n = units p.block_bytes (blob_bytes b) in
      let (span, q) = alloc_layer fl (suc (length p.index)) (clock layer) layer n p in
      next_layer span q
        (λ id.
          allocate_from clock (layer + 1) (done ++ alloc_for p.block_bytes id b ∷ []) blobs rest q)
        (record q {
          free_lists = free_extents (alloc_extents q.block_bytes 0 done blobs) q.free_lists;
        })

  -- `_allocate`
  unfoldable pub allocate :
      (ℕ → ℕ → String → ℕ) → List (CompressedKv C) → Pool C F → Allocated × Pool C F
  unfolding allocate_from
  allocate clock blobs p = allocate_from clock 0 [] blobs blobs p

  -- The part of an insertion under the lock, the same in `put_from_raw` and `put_from_vllm`.
  unfoldable pub insert : Clock → Request C F → Pool C F → Result Bool × Pool C F
  unfolding allocate drop_existing commit
  insert clock r p =
      let (result, q) = allocate clock.scored r.blobs (drop_existing r.prefix_hash p) in
      commit clock r result q
