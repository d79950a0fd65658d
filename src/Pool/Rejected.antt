-- ===== src/Pool/Rejected.antt =====
-- korith_vllm_ext/compressed_vram_pool.py: insertions that are rejected, and the loop of `_allocate`
-- that gives up.
use axropus_deploy.Prelude.{
  ℕ, zero, suc, ◌+◌, ◌<◌, String, ◌≡◌, ◌≢◌, refl, ap, inl, inr, Bool, true, false, List, [], ◌∷◌,
  ◌++◌, Option, none, some, arith, length, Option-cases, Bool-cases, str_eq, either_of, All, ◌⊎◌,
  eq_iff, ◌∙◌,
}
use axropus_deploy.Dict.{Dict, get, pop}
use axropus_deploy.Dict.Laws.{length-pop}
use axropus_deploy.Slab.{units}
use axropus_deploy.Pool.Evictions.{evict_one-closed, alloc_layer-closed}
use axropus_deploy.Pool.{
  CompressedKv, PoolEntry, Pool, Floats, Weights, Span, at, no_run, no_layer, alloc_at,
  release_entry, reuse_score, worst_of, evict_key, evict_one, next_round, alloc_layer, blob_bytes,
}
use axropus_deploy.Pool.Insert.{
  Clock, Alloc, Allocated, allocated, no_room, bad_layer, alloc_for, next_layer, allocate_from,
  allocate, ok, Request, drop_existing, commit, insert,
}

-- Every entry of the index scores above minus infinity, at each reading that may be made of it.
abbrev pub AllFinite :
    {C F : Type 0} → Floats F → (ℕ → ℕ → String → ℕ) → Weights F → Dict (PoolEntry C F) → Type 0
AllFinite fl clock w = All (λ x.
    (layer round : ℕ)
    → fl.greater (reuse_score fl w (clock layer round x.0) x.1) fl.minus_inf ≡ true)

module _ {C F : Type 0} (fl : Floats F) where
  -- Once the loop has a key, it ends with a key.
  worst_of-some :
      (w : Weights F) (scan : String → ℕ) (k : String) (best : F) (m : Dict (PoolEntry C F))
      → worst_of fl w scan (some k) best m ≢ none
  unfolding worst_of
  worst_of-some w scan k best [] = λ e. cc e
  worst_of-some w scan k best ((j, e) ∷ m) =
      elim (Bool-cases (fl.greater (reuse_score fl w (scan j) e) best)) [
        | inl above ↦ rw above (worst_of-some w scan j (reuse_score fl w (scan j) e) m)
        | inr below ↦ rw below (worst_of-some w scan k best m)
      ]

  -- The key that the loop ends with is the one that it began with, or a key of the index.
  worst_of-key :
      (w : Weights F) (scan : String → ℕ) (o : Option String) (best : F) (m : Dict (PoolEntry C F))
      (k : String)
      → worst_of fl w scan o best m ≡ some k
      → (o ≡ some k) ⊎ ((e : PoolEntry C F) × (get k m ≡ some e))
  unfolding worst_of get
  worst_of-key w scan o best [] k h = inl h
  worst_of-key w scan o best ((j, e) ∷ m) k h = elim (Bool-cases (str_eq j k)) [
    | inl same ↦ inr (e, rw same)
    | inr other ↦ rw other (elim (Bool-cases (fl.greater (reuse_score fl w (scan j) e) best)) [
      | inl above ↦
          elim (worst_of-key w scan (some j) (reuse_score fl w (scan j) e) m k (rw above at h)) [
            | inl now_k ↦ absurd (ground (arith, eq_iff j k))
            | inr later ↦ inr later
          ]
      | inr below ↦ worst_of-key w scan o best m k (rw below at h)
    ])
  ]

  worst_of_first :
      (w : Weights F) (scan : String → ℕ) (m : Dict (PoolEntry C F))
      → All (λ x. fl.greater (reuse_score fl w (scan x.0) x.1) fl.minus_inf ≡ true) m
      → worst_of fl w scan none fl.minus_inf m ≡ none
      → m ≡ []
  unfolding worst_of
  worst_of_first w scan [] finite h = refl
  worst_of_first w scan ((j, e) ∷ m) finite h =
      absurd (worst_of-some w scan j (reuse_score fl w (scan j) e) m (rw finite.0 at h))

  -- An eviction takes one entry out, or finds the index empty.
  evict_one_lem :
      (scan : String → ℕ) (p : Pool C F)
      → All (λ x. fl.greater (reuse_score fl p.weights (scan x.0) x.1) fl.minus_inf ≡ true) p.index
      → (((evict_one fl scan p).0 ≡ true)
          × (length (evict_one fl scan p).1.index + 1 ≡ length p.index))
        ⊎ (((evict_one fl scan p).0 ≡ false) × ((evict_one fl scan p).1.index ≡ []))
  unfolding evict_one evict_key release_entry
  evict_one_lem scan p finite =
      elim (Option-cases (worst_of fl p.weights scan none fl.minus_inf p.index)) [
        | inl nothing ↦
            rw (nothing, evict_key)
              (inr (refl, worst_of_first p.weights scan p.index finite nothing))
        | inr (k, chosen) ↦ elim (worst_of-key p.weights scan none fl.minus_inf p.index k chosen) [
          | inl impossible ↦ absurd (ground arith)
          | inr (e, found) ↦
              rw (chosen, found, evict_key) (inl (refl, length-pop k e p.index found))
        ]
      ]

  next_round_exhausted :
      (s : Span) (p : Pool C F) (evicted : Bool) (q : Pool C F) (again : Span × Pool C F)
      → (next_round s p evicted q again).0 ≡ no_run
      → ((evicted ≡ false) → q.index ≡ [])
      → ((evicted ≡ true) → again.0 ≡ no_run → again.1.index ≡ [])
      → (next_round s p evicted q again).1.index ≡ []
  unfolding next_round
  next_round_exhausted (at start) p evicted q again h he ha = absurd (ground arith)
  next_round_exhausted no_layer p evicted q again h he ha = absurd (ground arith)
  next_round_exhausted no_run p true q again h he ha = ha refl h
  next_round_exhausted no_run p false q again h he ha = he refl

  All-weaken :
      {P Q : String × PoolEntry C F → Type 0} (m : Dict (PoolEntry C F))
      → ((x : String × PoolEntry C F) → P x → Q x)
      → All P m
      → All Q m
  All-weaken [] f h = tt
  All-weaken (x ∷ m) f h = (f x h.0, All-weaken m f h.1)

  All-pop :
      (P : String × PoolEntry C F → Type 0) (k : String) (m : Dict (PoolEntry C F))
      → All P m
      → All P (pop k m)
  unfolding pop
  All-pop P k [] h = tt
  All-pop P k ((j, e) ∷ m) h =
      either_of (All P) (str_eq j k) m ((j, e) ∷ pop k m) h.1 (h.0, All-pop P k m h.1)

  module _ (clock : ℕ → ℕ → String → ℕ) where
    -- The hypothesis, of a pool
    abbrev Finite : Pool C F → Type 0
    Finite p = AllFinite fl clock p.weights p.index

    at_scan :
        (layer round : ℕ) (p : Pool C F)
        → Finite p
        → All
            (λ x.
              fl.greater (reuse_score fl p.weights (clock layer round x.0) x.1) fl.minus_inf ≡ true)
            p.index
    at_scan layer round p finite = All-weaken p.index (λ x h. h layer round) finite

    -- With more fuel than there are entries the loop for one layer gives up only with an empty index.
    alloc_layer_exhausted :
        (fuel layer n : ℕ) (p : Pool C F)
        → Finite p
        → length p.index < fuel
        → (alloc_layer fl fuel (clock layer) layer n p).0 ≡ no_run
        → (alloc_layer fl fuel (clock layer) layer n p).1.index ≡ []
    unfolding alloc_layer
    alloc_layer_exhausted zero layer n p finite enough h = absurd (omega arith)
    alloc_layer_exhausted (suc fuel) layer n p finite enough h =
        let p' = record p { free_lists = (alloc_at layer n p.free_lists).1 } in
        let q = (evict_one fl (clock layer fuel) p').1 in
        let taken = evict_one_lem (clock layer fuel) p' (at_scan layer fuel p finite) in
        let finite' =
          evict_one-closed fl (AllFinite fl clock) (λ w k m. All-pop _ k m) (clock layer fuel) p'
            finite in
        next_round_exhausted (alloc_at layer n p.free_lists).0 p'
          (evict_one fl (clock layer fuel) p').0 q (alloc_layer fl fuel (clock layer) layer n q) h
          (λ none_left. ground (arith, taken))
          (λ evicted stuck.
            alloc_layer_exhausted fuel layer n q finite' (ground (arith, taken)) stuck)

    next_layer_no_room :
        (s : Span) (q : Pool C F) (more : ℕ → Allocated × Pool C F) (back : Pool C F)
        → (next_layer s q more back).0 ≡ no_room
        → ((id : ℕ) → (more id).0 ≡ no_room → (more id).1.index ≡ [])
        → (s ≡ no_run → back.index ≡ [])
        → (next_layer s q more back).1.index ≡ []
    unfolding next_layer
    next_layer_no_room (at id) q more back h hm hb = hm id h
    next_layer_no_room no_run q more back h hm hb = hb refl
    next_layer_no_room no_layer q more back h hm hb = absurd (ground arith)

    allocate_from_no_room :
        (layer : ℕ) (done : List Alloc) (blobs rest : List (CompressedKv C)) (p : Pool C F)
        → Finite p
        → (allocate_from fl clock layer done blobs rest p).0 ≡ no_room
        → (allocate_from fl clock layer done blobs rest p).1.index ≡ []
    unfolding allocate_from
    allocate_from_no_room layer done blobs [] p finite h = absurd (ground arith)
    allocate_from_no_room layer done blobs (b ∷ rest) p finite h =
        let n = units p.block_bytes (blob_bytes b) in
        let r = alloc_layer fl (suc (length p.index)) (clock layer) layer n p in
        let finite' =
          alloc_layer-closed fl (AllFinite fl clock) (λ w k m. All-pop _ k m) (suc (length p.index))
            (clock layer) layer n p finite in
        next_layer_no_room r.0 r.1 _ _ h
          (λ id again.
            allocate_from_no_room (layer + 1) (done ++ alloc_for p.block_bytes id b ∷ []) blobs rest
              r.1 finite' again)
          (alloc_layer_exhausted (suc (length p.index)) layer n p finite (omega arith))

    allocate_no_room :
        (blobs : List (CompressedKv C)) (p : Pool C F)
        → Finite p
        → (allocate fl clock blobs p).0 ≡ no_room
        → (allocate fl clock blobs p).1.index ≡ []
    unfolding allocate
    allocate_no_room blobs p finite h = allocate_from_no_room 0 [] blobs blobs p finite h

  drop_existing-Finite :
      (clock : ℕ → ℕ → String → ℕ) (k : String) (p : Pool C F)
      → Finite clock p
      → Finite clock (drop_existing k p)
  unfolding drop_existing release_entry
  drop_existing-Finite clock k p finite = elim (Option-cases (get k p.index)) [
    | inl gone ↦ rw (gone, drop_existing) finite
    | inr (e, found) ↦ rw (found, drop_existing) (All-pop _ k p.index finite)
  ]

  commit-false :
      (clock : Clock) (r : Request C F) (o : Allocated) (q : Pool C F)
      → (commit clock r o q).0 ≡ ok false
      → (o ≡ no_room) × ((commit clock r o q).1 ≡ q)
  unfolding commit
  commit-false clock r (allocated allocs) q h = absurd (ground arith)
  commit-false clock r no_room q h = (refl, refl)
  commit-false clock r bad_layer q h = absurd (ground arith)

  -- If each entry of the pool, at the readings of the clock that the insertion makes of it, scores above
  -- minus infinity with the weights of the pool, an insertion that returns False has evicted every
  -- prefix of the pool.
  pub insert_rejected :
      (clock : Clock) (r : Request C F) (p : Pool C F)
      → AllFinite fl clock.scored p.weights p.index
      → (insert fl clock r p).0 ≡ ok false
      → (insert fl clock r p).1.index ≡ []
  unfolding insert
  insert_rejected clock r p finite h =
      let p' = drop_existing r.prefix_hash p in
      let o = allocate fl clock.scored r.blobs p' in
      let (full, same) = commit-false clock r o.0 o.1 h in
      ap (λ (q : Pool C F). q.index) same
      ∙ allocate_no_room clock.scored r.blobs p'
          (drop_existing-Finite clock.scored r.prefix_hash p finite) full
