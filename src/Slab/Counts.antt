-- ===== src/Slab/Counts.antt =====
-- korith_vllm_ext/compressed_vram_pool.py: how often each block stands in a free list and in a span.
use axropus_deploy.Prelude.{
  ℕ, zero, suc, ◌+◌, ◌-◌, ◌<◌, ◌≡◌, ap, inl, inr, List, ◌++◌, Option, none, some, arith, ltb, leb,
  length, count, sort_by, Bool-cases, Option-cases, count-append, count-sort_by, take-append_length,
  drop-append_length, get_elem?-append_length,
}
use mathlib.Core.Path.{subst⁻¹}
use axropus_deploy.Slab.{span, scan, take_run, alloc_span, free_span}
use axropus_deploy.Slab.Runs.{HasRun, scan_lem, length-span}

-- The blocks of the free list and of the span that was handed out, if any.
abbrev pub held : Option ℕ → ℕ → ℕ → ℕ
held none n b = 0
held (some start) n b = count b (span start n)

-- The run is cut out, and its first block is returned.
take_run_parts :
    (m i start : ℕ) (before after : List ℕ)
    → i + 1 ≡ length before + suc m
    → take_run (suc m) (before ++ (span start (suc m) ++ after)) (some i)
      ≡ (some start, before ++ after)
unfolding take_run
take_run_parts m i start before after place =
    let first : i + 1 - suc m ≡ length before = omega arith in
    let last : i + 1 ≡ length before + length (span start (suc m)) =
      omega (arith, length-span start (suc m)) in
    rw (first, get_elem?-append_length before start (span (start + 1) m ++ after), take_run)
      (rw (
        first,
        take-append_length before (span start (suc m) ++ after),
        drop-append_length before (span start (suc m)) after (i + 1) last,
      ))

pub take_run-HasRun :
    (n i : ℕ) (free : List ℕ) (h : HasRun n i free)
    → 0 < n
    → take_run n free (some i) ≡ (some h.start, h.before ++ h.after)
take_run-HasRun zero i free h pos = absurd (omega arith)
take_run-HasRun (suc m) i free h pos =
    subst⁻¹ (λ l. take_run (suc m) l (some i) ≡ (some h.start, h.before ++ h.after)) h.parts
      (take_run_parts m i h.start h.before h.after h.place)

take_run_lem :
    (n i b : ℕ) (free : List ℕ)
    → 0 < n
    → HasRun n i free
    → count b (take_run n free (some i)).1 + held (take_run n free (some i)).0 n b ≡ count b free
take_run_lem n i b free pos h = rw (take_run-HasRun n i free h pos) (
    omega (
      arith,
      ap (count b) h.parts,
      count-append b h.before (span h.start n ++ h.after),
      count-append b (span h.start n) h.after,
      count-append b h.before h.after,
    ))

-- Allocation moves blocks out of the free list: each block is in it, or in the span, as often as
-- it was in the free list before.
pub count-alloc_span :
    (n b : ℕ) (free : List ℕ)
    → 0 < n
    → count b (alloc_span n free).1 + held (alloc_span n free).0 n b ≡ count b free
unfolding alloc_span
count-alloc_span n b free pos = elim (Bool-cases (ltb (length free) n)) [
  | inl e ↦ rw e (omega arith)
  | inr e ↦ rw e (elim (Option-cases (scan n 0 none 0 (sort_by leb free))) [
    | inl no_run ↦ rw no_run (omega (arith, count-sort_by leb b free))
    | inr (i, found) ↦ rw found (
        omega (
          arith,
          count-sort_by leb b free,
          take_run_lem n i b (sort_by leb free) pos (scan_lem n (sort_by leb free) pos found),
        ))
  ])
]

pub count-free_span :
    (start n b : ℕ) (free : List ℕ)
    → count b (free_span start n free) ≡ count b free + count b (span start n)
unfolding free_span
count-free_span start n b free = count-append b free (span start n)
