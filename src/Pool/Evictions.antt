-- ===== src/Pool/Evictions.antt =====
-- korith_vllm_ext/compressed_vram_pool.py: the index under an allocation, by what `pop` keeps.
use axropus_deploy.Prelude.{
  ℕ, zero, suc, ◌+◌, String, ◌≡◌, inl, inr, Bool, true, false, List, [], ◌∷◌, ◌++◌, Option, none,
  some, arith, length, Option-cases, Bool-cases, str_eq, eq_iff,
}
use axropus_deploy.Dict.{Dict, get, pop, IsDict}
use axropus_deploy.Dict.Laws.{pop-IsDict, get-pop_self, get-pop_ne, get-pop_absent}
use axropus_deploy.Slab.{units}
use axropus_deploy.Pool.{
  CompressedKv, PoolEntry, Pool, Floats, Weights, Span, at, no_run, no_layer, blob_bytes, alloc_at,
  release_entry, evict_key, evict_one, next_round, alloc_layer,
}
use axropus_deploy.Pool.Insert.{Alloc, alloc_for, Allocated, next_layer, allocate_from, allocate}

module _ {C F : Type 0} (fl : Floats F) (P : Weights F → Dict (PoolEntry C F) → Type 0)
    (closed : (w : Weights F) (k : String) (m : Dict (PoolEntry C F)) → P w m → P w (pop k m)) where
  evict_key-closed :
      (o : Option String) (p : Pool C F)
      → P p.weights p.index
      → P (evict_key fl o p).1.weights (evict_key fl o p).1.index
  unfolding evict_key release_entry
  evict_key-closed none p h = h
  evict_key-closed (some k) p h = elim (Option-cases (get k p.index)) [
    | inl gone ↦ rw (gone, evict_key) h
    | inr (e, found) ↦ rw (found, evict_key) (closed p.weights k p.index h)
  ]

  pub evict_one-closed :
      (scan : String → ℕ) (p : Pool C F)
      → P p.weights p.index
      → P (evict_one fl scan p).1.weights (evict_one fl scan p).1.index
  unfolding evict_one
  evict_one-closed scan p h = evict_key-closed _ p h

  next_round-closed :
      (s : Span) (p : Pool C F) (evicted : Bool) (q : Pool C F) (again : Span × Pool C F)
      → P p.weights p.index
      → P q.weights q.index
      → P again.1.weights again.1.index
      → P (next_round s p evicted q again).1.weights (next_round s p evicted q again).1.index
  unfolding next_round
  next_round-closed (at start) p evicted q again hp hq ha = hp
  next_round-closed no_layer p evicted q again hp hq ha = hp
  next_round-closed no_run p true q again hp hq ha = ha
  next_round-closed no_run p false q again hp hq ha = hq

  pub alloc_layer-closed :
      (fuel : ℕ) (clock : ℕ → String → ℕ) (layer n : ℕ) (p : Pool C F)
      → P p.weights p.index
      → P
          (alloc_layer fl fuel clock layer n p).1.weights
          (alloc_layer fl fuel clock layer n p).1.index
  unfolding alloc_layer
  alloc_layer-closed zero clock layer n p h = h
  alloc_layer-closed (suc fuel) clock layer n p h =
      let p' = record p { free_lists = (alloc_at layer n p.free_lists).1 } in
      let hq = evict_one-closed (clock fuel) p' h in
      next_round-closed (alloc_at layer n p.free_lists).0 p' (evict_one fl (clock fuel) p').0
        (evict_one fl (clock fuel) p').1
        (alloc_layer fl fuel clock layer n (evict_one fl (clock fuel) p').1) h hq
        (alloc_layer-closed fuel clock layer n (evict_one fl (clock fuel) p').1 hq)

  next_layer-closed :
      (s : Span) (q : Pool C F) (more : ℕ → Allocated × Pool C F) (back : Pool C F)
      → P q.weights q.index
      → ((id : ℕ) → P (more id).1.weights (more id).1.index)
      → P back.weights back.index
      → P (next_layer s q more back).1.weights (next_layer s q more back).1.index
  unfolding next_layer
  next_layer-closed (at id) q more back hq hm hb = hm id
  next_layer-closed no_run q more back hq hm hb = hb
  next_layer-closed no_layer q more back hq hm hb = hq

  allocate_from-closed :
      (clock : ℕ → ℕ → String → ℕ) (layer : ℕ) (done : List Alloc)
      (blobs rest : List (CompressedKv C)) (p : Pool C F)
      → P p.weights p.index
      → P
          (allocate_from fl clock layer done blobs rest p).1.weights
          (allocate_from fl clock layer done blobs rest p).1.index
  unfolding allocate_from
  allocate_from-closed clock layer done blobs [] p h = h
  allocate_from-closed clock layer done blobs (b ∷ rest) p h =
      let n = units p.block_bytes (blob_bytes b) in
      let r = alloc_layer fl (suc (length p.index)) (clock layer) layer n p in
      let hr = alloc_layer-closed (suc (length p.index)) (clock layer) layer n p h in
      next_layer-closed r.0 r.1 _ _ hr
        (λ id.
          allocate_from-closed clock (layer + 1) (done ++ alloc_for p.block_bytes id b ∷ []) blobs
            rest r.1 hr)
        hr

  pub allocate-closed :
      (clock : ℕ → ℕ → String → ℕ) (blobs : List (CompressedKv C)) (p : Pool C F)
      → P p.weights p.index
      → P (allocate fl clock blobs p).1.weights (allocate fl clock blobs p).1.index
  unfolding allocate
  allocate-closed clock blobs p h = allocate_from-closed clock 0 [] blobs blobs p h

module _ {C F : Type 0} (fl : Floats F) where
  -- An absent prefix stays absent through an allocation.
  pub allocate-absent :
      (clock : ℕ → ℕ → String → ℕ) (blobs : List (CompressedKv C)) (k : String) (p : Pool C F)
      → get k p.index ≡ none
      → get k (allocate fl clock blobs p).1.index ≡ none
  allocate-absent clock blobs k p h =
      allocate-closed fl (λ w m. get k m ≡ none) (λ w j m g. get-pop_absent k j m g) clock blobs p h

-- Every entry of the index `m` is an entry of `before`, and no key stands twice.
pub record Kept {C F : Type 0} (before m : Dict (PoolEntry C F)) : Type 0 where
  pub keys : IsDict m
  pub entries : (j : String) (e : PoolEntry C F) → get j m ≡ some e → get j before ≡ some e

module _ {C F : Type 0} where
  pub Kept-pop :
      (before : Dict (PoolEntry C F)) (k : String) (m : Dict (PoolEntry C F))
      → Kept before m
      → Kept before (pop k m)
  Kept-pop before k m h = record {
    keys = pop-IsDict k m h.keys;
    entries = λ j e g. elim (Bool-cases (str_eq k j)) [
      | inl same ↦
          let at : k ≡ j = (eq_iff k j).0 same in
          absurd (ground (arith, get-pop_self k m h.keys, at))
      | inr other ↦ h.entries j e (rw (← get-pop_ne j k m other) g)
    ];
  }
