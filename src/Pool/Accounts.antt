-- ===== src/Pool/Accounts.antt =====
-- korith_vllm_ext/compressed_vram_pool.py: the accounts of the pool under its public operations.
use axropus_deploy.Prelude.{
  ℕ, zero, suc, ◌+◌, ◌/◌, String, ◌≡◌, refl, ap, inl, inr, Bool, List, [], ◌∷◌, ◌++◌, map, none,
  some, arith, length, get_elem?, replicate, count, Option-cases, ◌∙◌,
}
use axropus_deploy.Dict.{Dict, get, put, IsDict, values}
use axropus_deploy.Dict.Laws.{put-IsDict, get-pop_self}
use axropus_deploy.Slab.{span}
use axropus_deploy.Pool.{
  CompressedKv, PoolEntry, Pool, Floats, Weights, Extent, block_extent, entry_extents,
  release_entry, hit, lookup, delete, clear, release_all, init,
}
use axropus_deploy.Pool.Insert.{
  Clock, Alloc, Allocated, allocated, no_room, bad_layer, Result, ok, raise, Request, alloc_extents,
  make_blocks, allocate, drop_existing, new_entry, commit, insert,
}
use axropus_deploy.Pool.Balance.{
  holders, holders-append, Balance, Balance-same, Balance-free_extents,
}
use axropus_deploy.Pool.Release.{
  Shape, Accounts, live, length-free_extents, holders-put_fresh, live-put_same,
  release_entry-Accounts,
}
use axropus_deploy.Pool.Evictions.{allocate-absent}
use axropus_deploy.Pool.Allocate.{Outcome, allocate-Outcome}

get_elem?-replicate : (n i : ℕ) (xs ys : List ℕ) → get_elem? (replicate n xs) i ≡ some ys → ys ≡ xs
get_elem?-replicate zero i xs ys h = absurd (ground arith)
get_elem?-replicate (suc n) zero xs ys h = ground arith
get_elem?-replicate (suc n) (suc i) xs ys h = get_elem?-replicate n i xs ys h

length-replicate : (n : ℕ) (xs : List ℕ) → length (replicate n xs) ≡ n
length-replicate zero xs = refl
length-replicate (suc n) xs = ap suc (length-replicate n xs)

-- The blocks of a new entry are the spans that were allocated for it.
extents-make_blocks :
    {C : Type 0} (bb layer : ℕ) (fmt : String) (tokens : ℕ) (dims : CompressedKv C → ℕ × ℕ)
    (allocs : List Alloc) (blobs : List (CompressedKv C))
    → map (block_extent bb) (make_blocks fmt tokens dims layer allocs blobs)
      ≡ alloc_extents bb layer allocs blobs
extents-make_blocks bb layer fmt tokens dims [] blobs = refl
extents-make_blocks bb layer fmt tokens dims (a ∷ allocs) [] = refl
extents-make_blocks bb layer fmt tokens dims (a ∷ allocs) (b ∷ blobs) =
    rw (extents-make_blocks bb (layer + 1) fmt tokens dims allocs blobs)

module _ {C F : Type 0} where
  pub init-Accounts :
      (layers bytes bb : ℕ) (fmt : String) (w : Weights F)
      → Accounts {C = C}
          (record { layers = layers; blocks = bytes / bb; block_bytes = bb })
          []
          (init layers bytes bb fmt w)
  unfolding init
  init-Accounts layers bytes bb fmt w = record {
    layer_count = length-replicate layers (span 0 (bytes / bb));
    unit_bytes = refl;
    balance = record {
      cell = λ l b free e.
          omega (arith, ap (count b) (get_elem?-replicate layers l (span 0 (bytes / bb)) free e));
    };
    keys = tt;
  }

module _ {C F : Type 0} (c : Shape) where
  pub lookup-Accounts :
      (now : ℕ) (k : String) (p : Pool C F) → Accounts c [] p → Accounts c [] (lookup now k p).1
  unfolding lookup
  lookup-Accounts now k p a = elim (Option-cases (get k p.index)) [
    | inl gone ↦
        rw (gone, lookup)
          (record {
            layer_count = a.layer_count;
            unit_bytes = a.unit_bytes;
            balance = a.balance;
            keys = a.keys;
          })
    | inr (e, found) ↦
        rw (found, lookup)
          (record {
            layer_count = a.layer_count;
            unit_bytes = a.unit_bytes;
            balance = rw (live-put_same c.block_bytes k e (hit now e) p.index found refl) a.balance;
            keys = put-IsDict k (hit now e) p.index a.keys;
          })
  ]

  pub delete-Accounts : (k : String) (p : Pool C F) → Accounts c [] p → Accounts c [] (delete k p).1
  unfolding delete
  delete-Accounts k p a = elim (Option-cases (get k p.index)) [
    | inl gone ↦ rw (gone, delete) a
    | inr (e, found) ↦
        rw (found, delete) (release_entry-Accounts c [] k e p _ a found refl refl refl)
  ]

  release_all-Balance :
      (m : Dict (PoolEntry C F)) (p : Pool C F)
      → p.block_bytes ≡ c.block_bytes
      → Balance c.blocks p.free_lists (live c.block_bytes m)
      → Balance c.blocks (release_all (values m) p).free_lists []
  unfolding release_all release_entry
  release_all-Balance [] p unit h = h
  release_all-Balance ((k, e) ∷ m) p unit h = release_all-Balance m (release_entry e p) unit (
      rw unit (
        Balance-free_extents c.blocks p.free_lists (entry_extents c.block_bytes e)
          (live c.block_bytes m) h))

  release_all_sizes :
      (es : List (PoolEntry C F)) (p : Pool C F)
      → (length (release_all es p).free_lists ≡ length p.free_lists)
        × ((release_all es p).block_bytes ≡ p.block_bytes)
  unfolding release_all release_entry
  release_all_sizes [] p = (refl, refl)
  release_all_sizes (e ∷ es) p =
      let (len, unit) = release_all_sizes es (release_entry e p) in
      (len ∙ length-free_extents (entry_extents p.block_bytes e) p.free_lists, unit)

  pub clear-Accounts : (p : Pool C F) → Accounts c [] p → Accounts c [] (clear p)
  unfolding clear
  clear-Accounts p a =
      let (len, unit) = release_all_sizes (values p.index) p in
      record {
        layer_count = len ∙ a.layer_count;
        unit_bytes = unit ∙ a.unit_bytes;
        balance = release_all-Balance p.index p a.unit_bytes a.balance;
        keys = tt;
      }

  pub drop_existing-Accounts :
      (k : String) (p : Pool C F) → Accounts c [] p → Accounts c [] (drop_existing k p)
  unfolding drop_existing
  drop_existing-Accounts k p a = elim (Option-cases (get k p.index)) [
    | inl gone ↦ rw (gone, drop_existing) a
    | inr (e, found) ↦
        rw (found, drop_existing) (release_entry-Accounts c [] k e p _ a found refl refl refl)
  ]

  pub drop_existing-absent :
      (k : String) (p : Pool C F) → IsDict p.index → get k (drop_existing k p).index ≡ none
  unfolding drop_existing release_entry
  drop_existing-absent k p d = elim (Option-cases (get k p.index)) [
    | inl gone ↦ rw (gone, drop_existing) gone
    | inr (e, found) ↦ rw (found, drop_existing) (get-pop_self k p.index d)
  ]

  -- What an insertion leaves: balanced accounts, or leaked spans after an index error.
  abbrev pub Settled : Result Bool → Pool C F → Type 0
  Settled (ok b) q = Accounts c [] q
  Settled (raise e) q = (leaked : List Extent) × Accounts c leaked q

  commit-Settled :
      (fl : Floats F) (clock : Clock) (r : Request C F) (o : Allocated) (q : Pool C F)
      → get r.prefix_hash q.index ≡ none
      → Outcome fl c r.blobs o q
      → Settled (commit clock r o q).0 (commit clock r o q).1
  unfolding commit
  commit-Settled fl clock r no_room q absent a = a
  commit-Settled fl clock r bad_layer q absent a = a
  commit-Settled fl clock r (allocated allocs) q absent a = record {
    layer_count = a.layer_count;
    unit_bytes = a.unit_bytes;
    balance =
        Balance-same c.blocks q.free_lists
          (alloc_extents c.block_bytes 0 allocs r.blobs ++ live c.block_bytes q.index)
          (live c.block_bytes (put r.prefix_hash (new_entry clock r allocs) q.index))
          (λ l b. omega (
            arith,
            holders-append l b (alloc_extents c.block_bytes 0 allocs r.blobs)
                (live c.block_bytes q.index),
            holders-put_fresh c.block_bytes l b r.prefix_hash (new_entry clock r allocs) q.index
                absent,
            ap (holders l b)
                (extents-make_blocks c.block_bytes 0 r.format r.num_tokens r.dims allocs r.blobs),
          ))
          a.balance;
    keys = put-IsDict r.prefix_hash (new_entry clock r allocs) q.index a.keys;
  }

  -- An insertion into a pool whose blocks are all accounted for, by the free lists or by the entries,
  -- leaves such a pool, or, if it raises, one whose blocks are accounted for together with those of
  -- the spans that it leaked.
  pub insert-Settled :
      (fl : Floats F) (clock : Clock) (r : Request C F) (p : Pool C F)
      → Accounts c [] p
      → Settled (insert fl clock r p).0 (insert fl clock r p).1
  unfolding insert
  insert-Settled fl clock r p a =
      let p' = drop_existing r.prefix_hash p in
      commit-Settled fl clock r (allocate fl clock.scored r.blobs p').0
        (allocate fl clock.scored r.blobs p').1
        (allocate-absent fl clock.scored r.blobs r.prefix_hash p'
          (drop_existing-absent r.prefix_hash p a.keys))
        (allocate-Outcome fl c clock.scored r.blobs p' (drop_existing-Accounts r.prefix_hash p a))
