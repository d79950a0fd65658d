-- ===== src/Pool/Evict.antt =====
-- korith_vllm_ext/compressed_vram_pool.py: the accounts of the pool under `_evict_one` and the loop
-- of `_allocate` for one layer.
use mathlib.Core.List.{append_assoc}
use axropus_deploy.Prelude.{
  ℕ, zero, suc, ◌<◌, String, ◌≡◌, refl, inl, inr, Bool, true, false, List, ◌++◌, Option, none, some,
  length, get_elem?, Option-cases, length-set,
}
use axropus_deploy.Dict.{get}
use axropus_deploy.Slab.{alloc_span}
use axropus_deploy.Pool.{
  Pool, Floats, Extent, Span, at, no_run, no_layer, alloc_at, next_round, evict_key, evict_one,
  alloc_layer,
}
use axropus_deploy.Pool.Balance.{taken, Balance-alloc_at}
use axropus_deploy.Pool.Release.{Shape, Accounts, live, release_entry-Accounts}

length-alloc_at : (layer n : ℕ) (fl : List (List ℕ)) → length (alloc_at layer n fl).1 ≡ length fl
unfolding alloc_at
length-alloc_at layer n fl = elim (Option-cases (get_elem? fl layer)) [
  | inl gone ↦ rw (gone, alloc_at)
  | inr (old, there) ↦ rw (there, alloc_at) (length-set fl layer (alloc_span n old).1)
]

module _ {C F : Type 0} (fl : Floats F) (c : Shape) where
  evict_key-Accounts :
      (o : Option String) (pending : List Extent) (p : Pool C F)
      → Accounts c pending p
      → Accounts c pending (evict_key fl o p).1
  unfolding evict_key
  evict_key-Accounts none pending p a = a
  evict_key-Accounts (some k) pending p a = elim (Option-cases (get k p.index)) [
    | inl gone ↦ rw (gone, evict_key) a
    | inr (e, found) ↦
        rw (found, evict_key) (release_entry-Accounts c pending k e p _ a found refl refl refl)
  ]

  pub evict_one-Accounts :
      (scan : String → ℕ) (pending : List Extent) (p : Pool C F)
      → Accounts c pending p
      → Accounts c pending (evict_one fl scan p).1
  unfolding evict_one
  evict_one-Accounts scan pending p a = evict_key-Accounts _ pending p a

  pub alloc_at-Accounts :
      (layer n : ℕ) (pending : List Extent) (p : Pool C F)
      → 0 < n
      → Accounts c pending p
      → Accounts c
          (taken layer n (alloc_at layer n p.free_lists).0 ++ pending)
          (record p { free_lists = (alloc_at layer n p.free_lists).1 })
  alloc_at-Accounts layer n pending p pos a = record {
    layer_count = rw (length-alloc_at layer n p.free_lists) a.layer_count;
    unit_bytes = a.unit_bytes;
    balance = rw append_assoc (
        Balance-alloc_at c.blocks layer n p.free_lists (pending ++ live c.block_bytes p.index) pos
          a.balance);
    keys = a.keys;
  }

  next_round-Accounts :
      (layer n : ℕ) (pending : List Extent) (s : Span) (p : Pool C F) (evicted : Bool)
      (q : Pool C F) (again : Span × Pool C F)
      → Accounts c (taken layer n s ++ pending) p
      → Accounts c (taken layer n s ++ pending) q
      → Accounts c (taken layer n again.0 ++ (taken layer n s ++ pending)) again.1
      → Accounts c
          (taken layer n (next_round s p evicted q again).0 ++ pending)
          (next_round s p evicted q again).1
  unfolding next_round
  next_round-Accounts layer n pending (at start) p evicted q again h hq ha = h
  next_round-Accounts layer n pending no_layer p evicted q again h hq ha = h
  next_round-Accounts layer n pending no_run p true q again h hq ha = ha
  next_round-Accounts layer n pending no_run p false q again h hq ha = hq

  -- The loop ends with the span that it found moved out of the free blocks.
  pub alloc_layer-Accounts :
      (fuel : ℕ) (clock : ℕ → String → ℕ) (layer n : ℕ) (pending : List Extent) (p : Pool C F)
      → 0 < n
      → Accounts c pending p
      → Accounts c
          (taken layer n (alloc_layer fl fuel clock layer n p).0 ++ pending)
          (alloc_layer fl fuel clock layer n p).1
  unfolding alloc_layer
  alloc_layer-Accounts zero clock layer n pending p pos a = a
  alloc_layer-Accounts (suc fuel) clock layer n pending p pos a =
      let s = (alloc_at layer n p.free_lists).0 in
      let p' = record p { free_lists = (alloc_at layer n p.free_lists).1 } in
      let h = alloc_at-Accounts layer n pending p pos a in
      let hq = evict_one-Accounts (clock fuel) (taken layer n s ++ pending) p' h in
      let q = (evict_one fl (clock fuel) p').1 in
      next_round-Accounts layer n pending s p' (evict_one fl (clock fuel) p').0 q
        (alloc_layer fl fuel clock layer n q) h hq
        (alloc_layer-Accounts fuel clock layer n (taken layer n s ++ pending) q pos hq)
