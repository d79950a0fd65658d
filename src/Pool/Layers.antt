-- ===== src/Pool/Layers.antt =====
-- korith_vllm_ext/compressed_vram_pool.py: requests against the number of layers of the pool.
use axropus_deploy.Prelude.{
  String, ℕ, zero, suc, ◌+◌, ◌<◌, ◌≤◌, ◌≡◌, ◌≢◌, refl, inl, inr, Bool, true, false, List, [], ◌∷◌,
  ◌++◌, Option, none, some, arith, length, get_elem?, Option-cases,
}
use axropus_deploy.Slab.{units, alloc_span}
use axropus_deploy.Pool.{
  CompressedKv, Pool, Floats, Extent, Span, at, no_run, no_layer, alloc_at, span_of, evict_one,
  next_round, alloc_layer, blob_bytes,
}
use axropus_deploy.Pool.Insert.{
  Alloc, Allocated, bad_layer, alloc_for, next_layer, allocate_from, allocate,
}
use axropus_deploy.Pool.Balance.{taken}
use axropus_deploy.Pool.Release.{Shape, Accounts}
use axropus_deploy.Pool.Evict.{evict_one-Accounts, alloc_at-Accounts, alloc_layer-Accounts}
use axropus_deploy.Pool.Allocate.{units_pos}

get_elem?-none : (xs : List (List ℕ)) (i : ℕ) → get_elem? xs i ≡ none → length xs ≤ i
get_elem?-none [] i h = omega arith
get_elem?-none (x ∷ xs) zero h = absurd (ground arith)
get_elem?-none (x ∷ xs) (suc i) h = omega (arith, get_elem?-none xs i h)

alloc_at-ne-no_layer :
    (layer n : ℕ) (fl : List (List ℕ)) → layer < length fl → (alloc_at layer n fl).0 ≢ no_layer
unfolding alloc_at
alloc_at-ne-no_layer layer n fl lt = elim (Option-cases (get_elem? fl layer)) [
  | inl gone ↦ absurd (omega (arith, get_elem?-none fl layer gone))
  | inr (free, there) ↦ rw (there, alloc_at) (span_of-ne (alloc_span n free).0)
]
  where
    span_of-ne : (o : Option ℕ) → span_of o ≢ no_layer
    span_of-ne none = λ e. cc e
    span_of-ne (some s) = λ e. cc e

module _ {C F : Type 0} (fl : Floats F) (c : Shape) where
  next_round-ne-no_layer :
      (s : Span) (p : Pool C F) (evicted : Bool) (q : Pool C F) (again : Span × Pool C F)
      → s ≢ no_layer
      → again.0 ≢ no_layer
      → (next_round s p evicted q again).0 ≢ no_layer
  unfolding next_round
  next_round-ne-no_layer (at start) p evicted q again hs ha = hs
  next_round-ne-no_layer no_layer p evicted q again hs ha = hs
  next_round-ne-no_layer no_run p true q again hs ha = ha
  next_round-ne-no_layer no_run p false q again hs ha = hs

  alloc_layer-ne-no_layer :
      (fuel : ℕ) (clock : ℕ → String → ℕ) (layer n : ℕ) (pending : List Extent) (p : Pool C F)
      → 0 < n
      → layer < c.layers
      → Accounts c pending p
      → (alloc_layer fl fuel clock layer n p).0 ≢ no_layer
  unfolding alloc_layer
  alloc_layer-ne-no_layer zero clock layer n pending p pos lt a = λ e. cc e
  alloc_layer-ne-no_layer (suc fuel) clock layer n pending p pos lt a =
      let s = (alloc_at layer n p.free_lists).0 in
      let p' = record p { free_lists = (alloc_at layer n p.free_lists).1 } in
      let h = alloc_at-Accounts fl c layer n pending p pos a in
      let q = (evict_one fl (clock fuel) p').1 in
      let hq = evict_one-Accounts fl c (clock fuel) (taken layer n s ++ pending) p' h in
      next_round-ne-no_layer s p' (evict_one fl (clock fuel) p').0 q
        (alloc_layer fl fuel clock layer n q)
        (alloc_at-ne-no_layer layer n p.free_lists (omega (arith, a.layer_count)))
        (alloc_layer-ne-no_layer fuel clock layer n (taken layer n s ++ pending) q pos lt hq)

  next_layer-ne-bad_layer :
      (s : Span) (q : Pool C F) (more : ℕ → Allocated × Pool C F) (back : Pool C F)
      → s ≢ no_layer
      → ((id : ℕ) → (more id).0 ≢ bad_layer)
      → (next_layer s q more back).0 ≢ bad_layer
  unfolding next_layer
  next_layer-ne-bad_layer (at id) q more back hs hm = hm id
  next_layer-ne-bad_layer no_run q more back hs hm = λ e. cc e
  next_layer-ne-bad_layer no_layer q more back hs hm = absurd (hs refl)

  allocate_from-ne-bad_layer :
      (clock : ℕ → ℕ → String → ℕ) (layer : ℕ) (done : List Alloc)
      (blobs rest : List (CompressedKv C)) (pending : List Extent) (p : Pool C F)
      → layer + length rest ≤ c.layers
      → Accounts c pending p
      → (allocate_from fl clock layer done blobs rest p).0 ≢ bad_layer
  unfolding allocate_from
  allocate_from-ne-bad_layer clock layer done blobs [] pending p fits a = λ e. cc e
  allocate_from-ne-bad_layer clock layer done blobs (b ∷ rest) pending p fits a =
      let n = units p.block_bytes (blob_bytes b) in
      let fuel = suc (length p.index) in
      let r = alloc_layer fl fuel (clock layer) layer n p in
      let h = alloc_layer-Accounts fl c fuel (clock layer) layer n pending p (units_pos _ _) a in
      next_layer-ne-bad_layer r.0 r.1 _ _
        (alloc_layer-ne-no_layer fuel (clock layer) layer n pending p (units_pos _ _) (omega arith)
          a)
        (λ id.
          allocate_from-ne-bad_layer clock (layer + 1) (done ++ alloc_for p.block_bytes id b ∷ [])
            blobs rest (taken layer n r.0 ++ pending) r.1 (omega arith) h)

  pub allocate-ne-bad_layer :
      (clock : ℕ → ℕ → String → ℕ) (blobs : List (CompressedKv C)) (p : Pool C F)
      → length blobs ≤ c.layers
      → Accounts c [] p
      → (allocate fl clock blobs p).0 ≢ bad_layer
  unfolding allocate
  allocate-ne-bad_layer clock blobs p fits a =
      allocate_from-ne-bad_layer clock 0 [] blobs blobs [] p (omega arith) a
