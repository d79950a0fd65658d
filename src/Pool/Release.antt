-- ===== src/Pool/Release.antt =====
-- The live spans of the index under the dict operations, and the pool's invariant.
use axropus_deploy.Prelude.{
  ℕ, ◌+◌, String, ◌≡◌, refl, ap, inl, inr, List, [], ◌∷◌, ◌++◌, none, some, arith, str_eq, length,
  get_elem?, Bool-cases, Option-cases, length-set, ◌∙◌,
}
use axropus_deploy.Dict.{Dict, get, pop, put, IsDict}
use axropus_deploy.Dict.Laws.{pop-IsDict}
use axropus_deploy.Slab.{free_span}
use axropus_deploy.Pool.{
  PoolEntry, Pool, Extent, entry_extents, free_extent, free_extents, release_entry,
}
use axropus_deploy.Pool.Balance.{
  holders, Balance, holders-append, Balance-same, Balance-free_extents,
}

-- Sizes that no operation changes.
pub record Shape : Type 0 where
  pub layers : ℕ
  pub blocks : ℕ
  pub block_bytes : ℕ

length-free_extent : (e : Extent) (fl : List (List ℕ)) → length (free_extent e fl) ≡ length fl
unfolding free_extent
length-free_extent e fl = elim (Option-cases (get_elem? fl e.layer)) [
  | inl gone ↦ rw (gone, free_extent)
  | inr (old, there) ↦ rw (there, free_extent) (length-set fl e.layer (free_span e.start e.len old))
]

pub length-free_extents :
    (es : List Extent) (fl : List (List ℕ)) → length (free_extents es fl) ≡ length fl
unfolding free_extents
length-free_extents [] fl = refl
length-free_extents (e ∷ es) fl =
    length-free_extents es (free_extent e fl) ∙ length-free_extent e fl

module _ {C F : Type 0} where
  -- The spans of every entry of the index.
  abbrev pub live : ℕ → Dict (PoolEntry C F) → List Extent
  live bb [] = []
  live bb ((k, e) ∷ m) = entry_extents bb e ++ live bb m

  -- The invariant: free blocks, live spans and the spans `pending` outside the index make up each
  -- slab exactly, and no key stands twice.
  pub record Accounts (c : Shape) (pending : List Extent) (p : Pool C F) : Type 0 where
    pub layer_count : length p.free_lists ≡ c.layers
    pub unit_bytes : p.block_bytes ≡ c.block_bytes
    pub balance : Balance c.blocks p.free_lists (pending ++ live c.block_bytes p.index)
    pub keys : IsDict p.index

  pub holders-pop :
      (bb l b : ℕ) (k : String) (e : PoolEntry C F) (m : Dict (PoolEntry C F))
      → get k m ≡ some e
      → holders l b (live bb m) ≡ holders l b (entry_extents bb e) + holders l b (live bb (pop k m))
  unfolding get pop
  holders-pop bb l b k e [] h = absurd (ground arith)
  holders-pop bb l b k e ((j, d) ∷ m) h = elim (Bool-cases (str_eq j k)) [
    | inl same ↦
        let is_e : d ≡ e = ground arith in
        rw (same, is_e) (holders-append l b (entry_extents bb e) (live bb m))
    | inr other ↦ rw other (
        omega (
          arith,
          holders-append l b (entry_extents bb d) (live bb m),
          holders-append l b (entry_extents bb d) (live bb (pop k m)),
          holders-pop bb l b k e m (rw other at h),
        ))
  ]

  pub holders-put_fresh :
      (bb l b : ℕ) (k : String) (e : PoolEntry C F) (m : Dict (PoolEntry C F))
      → get k m ≡ none
      → holders l b (live bb (put k e m))
        ≡ holders l b (entry_extents bb e) + holders l b (live bb m)
  unfolding get put
  holders-put_fresh bb l b k e [] h = holders-append l b (entry_extents bb e) []
  holders-put_fresh bb l b k e ((j, d) ∷ m) h = elim (Bool-cases (str_eq j k)) [
    | inl same ↦ absurd (ground arith)
    | inr other ↦ rw other (
        omega (
          arith,
          holders-append l b (entry_extents bb d) (live bb m),
          holders-append l b (entry_extents bb d) (live bb (put k e m)),
          holders-put_fresh bb l b k e m (rw other at h),
        ))
  ]

  -- A new value with the same spans, as after a hit.
  pub live-put_same :
      (bb : ℕ) (k : String) (e e' : PoolEntry C F) (m : Dict (PoolEntry C F))
      → get k m ≡ some e
      → entry_extents bb e' ≡ entry_extents bb e
      → live bb (put k e' m) ≡ live bb m
  unfolding get put
  live-put_same bb k e e' [] h same = absurd (ground arith)
  live-put_same bb k e e' ((j, d) ∷ m) h same = elim (Bool-cases (str_eq j k)) [
    | inl here ↦ let is_e : d ≡ e = ground arith in rw (here, is_e, same)
    | inr other ↦
        rw (other)
          (ap (λ r. entry_extents bb d ++ r) (live-put_same bb k e e' m (rw other at h) same))
  ]

  -- Taking an entry out of the index and freeing its spans keeps the accounts.
  pub release_entry-Accounts :
      (c : Shape) (pending : List Extent) (k : String) (e : PoolEntry C F) (p q : Pool C F)
      → Accounts c pending p
      → get k p.index ≡ some e
      → q.free_lists ≡ p.free_lists
      → q.block_bytes ≡ p.block_bytes
      → q.index ≡ pop k p.index
      → Accounts c pending (release_entry e q)
  unfolding release_entry
  release_entry-Accounts c pending k e p q a found lists bytes rest = record {
    layer_count =
        rw (length-free_extents (entry_extents q.block_bytes e) q.free_lists, lists) a.layer_count;
    unit_bytes = rw bytes a.unit_bytes;
    balance =
        rw (rest, lists, bytes, a.unit_bytes)
          (Balance-free_extents c.blocks p.free_lists (entry_extents c.block_bytes e)
            (pending ++ live c.block_bytes (pop k p.index))
            (Balance-same c.blocks p.free_lists (pending ++ live c.block_bytes p.index)
              (entry_extents c.block_bytes e ++ (pending ++ live c.block_bytes (pop k p.index)))
              (λ l b. omega (
                arith,
                holders-append l b pending (live c.block_bytes p.index),
                holders-append l b (entry_extents c.block_bytes e)
                    (pending ++ live c.block_bytes (pop k p.index)),
                holders-append l b pending (live c.block_bytes (pop k p.index)),
                holders-pop c.block_bytes l b k e p.index found,
              ))
              a.balance));
    keys = rw rest (pop-IsDict k p.index a.keys);
  }
