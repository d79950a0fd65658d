-- ===== src/Pool/Allocate.antt =====
-- `_allocate` over all layers: what it returns, what it gives back, and what an index error leaks.
use mathlib.Core.List.{append_assoc}
use axropus_deploy.Prelude.{
  String, ℕ, suc, ◌+◌, ◌<◌, ◌≡◌, refl, ap, List, [], ◌∷◌, ◌++◌, arith, length, length-append, ◌∙◌,
}
use mathlib.Core.Path.{subst}
use axropus_deploy.Slab.{units}
use axropus_deploy.Pool.{
  CompressedKv, Pool, Floats, Extent, Span, at, no_run, no_layer, alloc_layer, free_extents,
  blob_bytes,
}
use axropus_deploy.Pool.Insert.{
  Alloc, Allocated, allocated, no_room, bad_layer, alloc_for, alloc_extents, next_layer,
  allocate_from, allocate,
}
use axropus_deploy.Pool.Balance.{taken, Balance-same, Balance-free_extents, holders, holders-append}
use axropus_deploy.Pool.Release.{Shape, Accounts, live, length-free_extents}
use axropus_deploy.Pool.Evict.{alloc_layer-Accounts}

pub units_pos : (bb size : ℕ) → 0 < units bb size
unfolding units
units_pos bb size = omega arith

-- A layer more: its span comes last.
alloc_extents-append_last :
    {C : Type 0} (bb l : ℕ) (done : List Alloc) (seen : List (CompressedKv C)) (a : Alloc)
    (b : CompressedKv C) (rest : List (CompressedKv C))
    → length done ≡ length seen
    → alloc_extents bb l (done ++ a ∷ []) (seen ++ b ∷ rest)
      ≡ alloc_extents bb l done (seen ++ b ∷ rest)
        ++ record { layer = l + length done; start = a.block_id; len = units bb (blob_bytes b) }
          ∷ []
alloc_extents-append_last bb l [] [] a b rest h = let e : l + 0 ≡ l = omega arith in rw e
alloc_extents-append_last bb l [] (s ∷ seen) a b rest h = absurd (omega arith)
alloc_extents-append_last bb l (d ∷ done) [] a b rest h = absurd (omega arith)
alloc_extents-append_last bb l (d ∷ done) (s ∷ seen) a b rest h =
    let e : l + suc (length done) ≡ l + 1 + length done = omega arith in
    rw e (
      ap (λ r. record { layer = l; start = d.block_id; len = units bb (blob_bytes s) } ∷ r)
        (alloc_extents-append_last bb (l + 1) done seen a b rest (omega arith)))

module _ {C F : Type 0} (fl : Floats F) (c : Shape) where
  -- What stands behind each outcome: the spans of the allocation, nothing, or what was leaked.
  abbrev pub Outcome : List (CompressedKv C) → Allocated → Pool C F → Type 0
  Outcome blobs (allocated allocs) q = Accounts c (alloc_extents c.block_bytes 0 allocs blobs) q
  Outcome blobs no_room q = Accounts c [] q
  Outcome blobs bad_layer q = (leaked : List Extent) × Accounts c leaked q

  roll_back-Accounts :
      (es fs : List Extent) (q : Pool C F)
      → fs ≡ es
      → Accounts c es q
      → Accounts c [] (record q { free_lists = free_extents fs q.free_lists })
  roll_back-Accounts es fs q same a = record {
    layer_count = rw length-free_extents a.layer_count;
    unit_bytes = a.unit_bytes;
    balance =
        rw same
          (Balance-free_extents c.blocks q.free_lists es (live c.block_bytes q.index) a.balance);
    keys = a.keys;
  }

  Accounts-same :
      (es fs : List Extent) (q : Pool C F)
      → ((l b : ℕ) → holders l b es ≡ holders l b fs)
      → Accounts c es q
      → Accounts c fs q
  Accounts-same es fs q same a = record {
    layer_count = a.layer_count;
    unit_bytes = a.unit_bytes;
    balance =
        Balance-same c.blocks q.free_lists (es ++ live c.block_bytes q.index)
          (fs ++ live c.block_bytes q.index)
          (λ l b. omega (
            arith,
            same l b,
            holders-append l b es (live c.block_bytes q.index),
            holders-append l b fs (live c.block_bytes q.index),
          ))
          a.balance;
    keys = a.keys;
  }

  -- The block that the loop found joins the partial allocation.
  append-Accounts :
      (layer : ℕ) (done : List Alloc) (seen : List (CompressedKv C)) (b : CompressedKv C)
      (rest blobs : List (CompressedKv C)) (bb id : ℕ) (q : Pool C F)
      → length done ≡ length seen
      → layer ≡ length done
      → seen ++ b ∷ rest ≡ blobs
      → bb ≡ c.block_bytes
      → Accounts c
          (record { layer = layer; start = id; len = units bb (blob_bytes b) }
            ∷ alloc_extents c.block_bytes 0 done blobs)
          q
      → Accounts c (alloc_extents c.block_bytes 0 (done ++ alloc_for bb id b ∷ []) blobs) q
  append-Accounts layer done seen b rest blobs bb id q same at_layer parts unit a =
      let e : layer ≡ 0 + length done = omega arith in
      let new : Extent = record { layer = layer; start = id; len = units bb (blob_bytes b) } in
      let old = alloc_extents c.block_bytes 0 done blobs in
      let joined : alloc_extents c.block_bytes 0 (done ++ alloc_for bb id b ∷ []) blobs
          ≡ old ++ new ∷ [] =
        rw (← parts, e, unit)
          (alloc_extents-append_last c.block_bytes 0 done seen (alloc_for c.block_bytes id b) b rest
            same) in
      rw joined (
        Accounts-same (new ∷ old) (old ++ new ∷ []) q
          (λ l x. omega (arith, holders-append l x old (new ∷ []))) a)

  next_layer-Outcome :
      (layer n : ℕ) (pending : List Extent) (blobs : List (CompressedKv C)) (s : Span)
      (q : Pool C F) (more : ℕ → Allocated × Pool C F) (back : Pool C F)
      → Accounts c (taken layer n s ++ pending) q
      → ((id : ℕ) → s ≡ at id → Outcome blobs (more id).0 (more id).1)
      → (Accounts c pending q → Accounts c [] back)
      → Outcome blobs (next_layer s q more back).0 (next_layer s q more back).1
  unfolding next_layer
  next_layer-Outcome layer n pending blobs (at id) q more back a hm hb = hm id refl
  next_layer-Outcome layer n pending blobs no_run q more back a hm hb = hb a
  next_layer-Outcome layer n pending blobs no_layer q more back a hm hb = (pending, a)

  -- The invariant of the loop over the layers.
  allocate_from-Outcome :
      (clock : ℕ → ℕ → String → ℕ) (layer : ℕ) (done : List Alloc)
      (seen rest : List (CompressedKv C)) (blobs : List (CompressedKv C)) (p : Pool C F)
      → length done ≡ length seen
      → layer ≡ length done
      → seen ++ rest ≡ blobs
      → Accounts c (alloc_extents c.block_bytes 0 done blobs) p
      → Outcome blobs
          (allocate_from fl clock layer done blobs rest p).0
          (allocate_from fl clock layer done blobs rest p).1
  unfolding allocate_from
  allocate_from-Outcome clock layer done seen [] blobs p same at_layer parts a = a
  allocate_from-Outcome clock layer done seen (b ∷ rest) blobs p same at_layer parts a =
      let n = units p.block_bytes (blob_bytes b) in
      let pending = alloc_extents c.block_bytes 0 done blobs in
      let r = alloc_layer fl (suc (length p.index)) (clock layer) layer n p in
      let h =
        alloc_layer-Accounts fl c (suc (length p.index)) (clock layer) layer n pending p
          (units_pos _ _) a in
      next_layer-Outcome layer n pending blobs r.0 r.1 _ _ h
        (λ id found.
          allocate_from-Outcome clock (layer + 1) (done ++ alloc_for p.block_bytes id b ∷ [])
            (seen ++ b ∷ []) rest blobs r.1
            (omega (
              arith,
              length-append done (alloc_for p.block_bytes id b ∷ []),
              length-append seen (b ∷ []),
            ))
            (omega (arith, length-append done (alloc_for p.block_bytes id b ∷ [])))
            (append_assoc seen (b ∷ []) rest ∙ parts)
            (append-Accounts layer done seen b rest blobs p.block_bytes id r.1 same at_layer parts
              a.unit_bytes (subst (λ s. Accounts c (taken layer n s ++ pending) r.1) found h)))
        (λ hq.
          roll_back-Accounts pending (alloc_extents r.1.block_bytes 0 done blobs) r.1
            (ap (λ u. alloc_extents u 0 done blobs) hq.unit_bytes) hq)

  -- `_allocate` keeps the accounts on every outcome: what it returns has left the free lists, a
  -- failure gives everything back, and an index error leaks what it had.
  pub allocate-Outcome :
      (clock : ℕ → ℕ → String → ℕ) (blobs : List (CompressedKv C)) (p : Pool C F)
      → Accounts c [] p
      → Outcome blobs (allocate fl clock blobs p).0 (allocate fl clock blobs p).1
  unfolding allocate
  allocate-Outcome clock blobs p a =
      allocate_from-Outcome clock 0 [] [] blobs blobs p refl refl refl a
