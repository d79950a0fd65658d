-- ===== src/Pool/Machine.antt =====
-- The pool as a client drives it: any sequence of its public operations from an empty pool.
use axropus_deploy.Prelude.{
  ℕ, ◌+◌, ◌/◌, ◌≤◌, String, ◌≡◌, ◌≢◌, refl, List, [], ◌∷◌, some, arith, length, get_elem?, count,
  ltb, if◌then◌else◌,
}
use axropus_deploy.Slab.Runs.{count-span}
use axropus_deploy.Pool.{Pool, Floats, Weights, lookup, delete, clear, init}
use axropus_deploy.Pool.Insert.{
  Clock, Request, Allocated, allocated, no_room, bad_layer, allocate, drop_existing, commit, insert,
}
use axropus_deploy.Pool.Balance.{holders}
use axropus_deploy.Pool.Release.{Shape, Accounts, live}
use axropus_deploy.Pool.Layers.{allocate-ne-bad_layer}
use axropus_deploy.Pool.Accounts.{
  init-Accounts, lookup-Accounts, delete-Accounts, clear-Accounts, Settled, insert-Settled,
  drop_existing-Accounts,
}

-- A call of a public operation, with the readings of the clock that it makes.
pub data Call (C F : Type 0) : Type 0 where
  gets : ℕ → String → Call C F
  inserts : Clock → Request C F → Call C F
  deletes : String → Call C F
  clears : Call C F

module _ {C F : Type 0} (fl : Floats F) where
  unfoldable pub step : Call C F → Pool C F → Pool C F
  step (gets now k) p = (lookup now k p).1
  step (inserts clock r) p = (insert fl clock r p).1
  step (deletes k) p = (delete k p).1
  step clears p = clear p

  unfoldable pub run : List (Call C F) → Pool C F → Pool C F
  run [] p = p
  run (call ∷ calls) p = run calls (step call p)

-- A request with at most as many layers as the pool.
abbrev pub Fits : {C F : Type 0} → ℕ → Call C F → Type 0
Fits layers (gets now k) = Unit
Fits layers (inserts clock r) = length r.blobs ≤ layers
Fits layers (deletes k) = Unit
Fits layers clears = Unit

abbrev pub AllFit : {C F : Type 0} → ℕ → List (Call C F) → Type 0
AllFit layers [] = Unit
AllFit layers (call ∷ calls) = Fits layers call × AllFit layers calls

module _ {C F : Type 0} (fl : Floats F) (c : Shape) where
  commit-Accounts :
      (clock : Clock) (r : Request C F) (o : Allocated) (q : Pool C F)
      → o ≢ bad_layer
      → Settled c (commit clock r o q).0 (commit clock r o q).1
      → Accounts c [] (commit clock r o q).1
  unfolding commit
  commit-Accounts clock r (allocated allocs) q fine s = s
  commit-Accounts clock r no_room q fine s = s
  commit-Accounts clock r bad_layer q fine s = absurd (fine refl)

  insert-Accounts :
      (clock : Clock) (r : Request C F) (p : Pool C F)
      → length r.blobs ≤ c.layers
      → Accounts c [] p
      → Accounts c [] (insert fl clock r p).1
  unfolding insert
  insert-Accounts clock r p fits a =
      let p' = drop_existing r.prefix_hash p in
      commit-Accounts clock r (allocate fl clock.scored r.blobs p').0
        (allocate fl clock.scored r.blobs p').1
        (allocate-ne-bad_layer fl c clock.scored r.blobs p' fits
          (drop_existing-Accounts c r.prefix_hash p a))
        (insert-Settled c fl clock r p a)

  step-Accounts :
      (call : Call C F) (p : Pool C F)
      → Fits c.layers call
      → Accounts c [] p
      → Accounts c [] (step fl call p)
  unfolding step
  step-Accounts (gets now k) p fits a = lookup-Accounts c now k p a
  step-Accounts (inserts clock r) p fits a = insert-Accounts clock r p fits a
  step-Accounts (deletes k) p fits a = delete-Accounts c k p a
  step-Accounts clears p fits a = clear-Accounts c p a

  pub run-Accounts :
      (calls : List (Call C F)) (p : Pool C F)
      → AllFit c.layers calls
      → Accounts c [] p
      → Accounts c [] (run fl calls p)
  unfolding run
  run-Accounts [] p fits a = a
  run-Accounts (call ∷ calls) p fits a =
      run-Accounts calls (step fl call p) fits.1 (step-Accounts call p fits.0 a)

module _ {C F : Type 0} (fl : Floats F) where
  -- After any calls that fit the pool, in every layer each block of the slab is in the free list
  -- once and in no live entry, or is held by one block span of one live entry and not free; block
  -- numbers outside the slab are nowhere.
  pub run_owns_blocks_once :
      (layers bytes bb : ℕ) (fmt : String) (w : Weights F) (calls : List (Call C F))
      → AllFit layers calls
      → (l b : ℕ) (free : List ℕ)
      → get_elem? (run fl calls (init layers bytes bb fmt w)).free_lists l ≡ some free
      → count b free + holders l b (live bb (run fl calls (init layers bytes bb fmt w)).index)
        ≡ (if ltb b (bytes / bb) then 1 else 0)
  run_owns_blocks_once layers bytes bb fmt w calls fits l b free at_l =
      let c : Shape = record { layers = layers; blocks = bytes / bb; block_bytes = bb } in
      let a =
        run-Accounts fl c calls (init layers bytes bb fmt w) fits
          (init-Accounts layers bytes bb fmt w) in
      ground (arith, a.balance.cell l b free at_l, count-span b 0 (bytes / bb))
