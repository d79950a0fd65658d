-- ===== src/Slab.antt =====
-- korith_vllm_ext/compressed_vram_pool.py: the free list of one layer's slab (`_alloc_span`,
-- `_free_span`, `_blocks_needed`). A free list is a list of block numbers in the order in which the
-- source keeps them.
pub mod Runs
pub mod Counts
use axropus_deploy.Prelude.{
  ℕ, zero, suc, ◌+◌, ◌-◌, ◌/◌, max, List, [], ◌∷◌, ◌++◌, Option, none, some, ltb, leb, ◌==◌,
  if◌then◌else◌, length, get_elem?, take, drop, sort_by,
}

-- `range(start, start + n)`
abbrev pub span : ℕ → ℕ → List ℕ
span start zero = []
span start (suc n) = start ∷ span (start + 1) n

-- The run's length after the block `bid`; `prev` is the block before it, `none` at the first.
abbrev pub next_len : Option ℕ → ℕ → ℕ → ℕ
next_len none run_len bid = 1
next_len (some prev) run_len bid = if bid == prev + 1 then run_len + 1 else 1

-- The scan of a sorted free list: the index at which a run of `n` blocks is complete.
pub scan : ℕ → ℕ → Option ℕ → ℕ → List ℕ → Option ℕ
scan n i prev run_len [] = none
scan n i prev run_len (bid ∷ rest) =
    let found = scan n (i + 1) (some bid) (next_len prev run_len bid) rest in
    if next_len prev run_len bid == n then some i else found

-- `start_block = free[i - n + 1]` and `del free[i - n + 1 : i + 1]`
pub take_run : ℕ → List ℕ → Option ℕ → Option ℕ × List ℕ
take_run n free none = (none, free)
take_run n free (some i) = elim (get_elem? free (i + 1 - n)) [
  | none ↦ (none, free)
  | some start ↦ (some start, take (i + 1 - n) free ++ drop (i + 1) free)
]

-- The start of a contiguous run of `n` free blocks, if there is one, and the free list after it.
unfoldable pub alloc_span : ℕ → List ℕ → Option ℕ × List ℕ
unfolding scan take_run
alloc_span n free =
    if ltb (length free) n
    then (none, free)
    else take_run n (sort_by leb free) (scan n 0 none 0 (sort_by leb free))

unfoldable pub free_span : ℕ → ℕ → List ℕ → List ℕ
free_span start n free = free ++ span start n

-- `max(1, math.ceil(size / block_bytes))`
unfoldable pub units : ℕ → ℕ → ℕ
units block_bytes size = max 1 ((size + (block_bytes - 1)) / block_bytes)
