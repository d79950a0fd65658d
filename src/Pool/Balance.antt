-- ===== src/Pool/Balance.antt =====
-- The blocks of the free lists and of the live spans, counted layer by layer.
use axropus_deploy.Prelude.{
  ℕ, ◌+◌, ◌<◌, ◌≡◌, ap, inl, inr, List, [], ◌∷◌, ◌++◌, Option, none, some, arith, ◌==◌,
  if◌then◌else◌, get_elem?, count, Bool-cases, Option-cases, ==_iff, get_elem?-set_lem, true, false,
}
use axropus_deploy.Slab.{span, alloc_span, free_span}
use axropus_deploy.Slab.Counts.{held, count-alloc_span, count-free_span}
use axropus_deploy.Pool.{
  Extent, Span, at, no_run, no_layer, span_of, free_extent, free_extents, alloc_at,
}

-- How many of the spans hold the block `b` of the layer `l`.
abbrev pub holders : ℕ → ℕ → List Extent → ℕ
holders l b [] = 0
holders l b (e ∷ es) = (if e.layer == l then count b (span e.start e.len) else 0) + holders l b es

-- Each block below `n` is in the free list once or in one span once; no other block is anywhere.
pub record Balance (n : ℕ) (fl : List (List ℕ)) (es : List Extent) : Type 0 where
  pub cell :
      (l b : ℕ) (free : List ℕ)
      → get_elem? fl l ≡ some free
      → count b free + holders l b es ≡ count b (span 0 n)

pub holders-append :
    (l b : ℕ) (xs ys : List Extent) → holders l b (xs ++ ys) ≡ holders l b xs + holders l b ys
holders-append l b [] ys = omega arith
holders-append l b (x ∷ xs) ys = omega (arith, holders-append l b xs ys)

-- Only how often a block is held counts.
pub Balance-same :
    (n : ℕ) (fl : List (List ℕ)) (es fs : List Extent)
    → ((l b : ℕ) → holders l b es ≡ holders l b fs)
    → Balance n fl es
    → Balance n fl fs
Balance-same n fl es fs same h = record {
  cell = λ l b free e. omega (arith, same l b, h.cell l b free e);
}

pub Balance-free_extent :
    (n : ℕ) (fl : List (List ℕ)) (e : Extent) (es : List Extent)
    → Balance n fl (e ∷ es)
    → Balance n (free_extent e fl) es
unfolding free_extent
Balance-free_extent n fl e es h = elim (Option-cases (get_elem? fl e.layer)) [
  | inl gone ↦
      rw (gone, free_extent) (record { cell = λ l b free x. ground (arith, h.cell l b free) })
  | inr (old, there) ↦
      rw (there, free_extent)
        (record {
          cell = λ l b free x. ground (
            arith,
            get_elem?-set_lem fl e.layer l (free_span e.start e.len old),
            count-free_span e.start e.len b old,
            h.cell l b old,
            h.cell l b free,
          );
        })
]

pub Balance-free_extents :
    (n : ℕ) (fl : List (List ℕ)) (es rest : List Extent)
    → Balance n fl (es ++ rest)
    → Balance n (free_extents es fl) rest
unfolding free_extents
Balance-free_extents n fl [] rest h = h
Balance-free_extents n fl (e ∷ es) rest h =
    Balance-free_extents n (free_extent e fl) es rest (Balance-free_extent n fl e (es ++ rest) h)

-- The span that an allocation hands out, as an extent.
abbrev pub taken : ℕ → ℕ → Span → List Extent
taken l n (at start) = record { layer = l; start = start; len = n } ∷ []
taken l n no_run = []
taken l n no_layer = []

holders-taken :
    (l m n b : ℕ) (o : Option ℕ) (es : List Extent)
    → (l == m) ≡ true
    → holders m b (taken l n (span_of o) ++ es) ≡ held o n b + holders m b es
holders-taken l m n b none es e = omega arith
holders-taken l m n b (some s) es e = ground arith

holders-taken_ne :
    (l m n b : ℕ) (s : Span) (es : List Extent)
    → (l == m) ≡ false
    → holders m b (taken l n s ++ es) ≡ holders m b es
holders-taken_ne l m n b (at s) es e = ground arith
holders-taken_ne l m n b no_run es e = omega arith
holders-taken_ne l m n b no_layer es e = omega arith

-- An allocation moves a span from the free list into the live spans, or changes nothing.
pub Balance-alloc_at :
    (n layer len : ℕ) (fl : List (List ℕ)) (es : List Extent)
    → 0 < len
    → Balance n fl es
    → Balance n (alloc_at layer len fl).1 (taken layer len (alloc_at layer len fl).0 ++ es)
unfolding alloc_at
Balance-alloc_at n layer len fl es pos h = elim (Option-cases (get_elem? fl layer)) [
  | inl gone ↦ rw (gone, alloc_at) h
  | inr (old, there) ↦
      let (o, free') = alloc_span len old in
      rw (there, alloc_at)
        (record {
          cell = λ l b free x. elim (Bool-cases (layer == l)) [
            | inl same ↦
                let there' : get_elem? fl l ≡ some old = rw (← (==_iff layer l).0 same) there in
                let now : free ≡ free' = ground (arith, get_elem?-set_lem fl layer l free') in
                omega (
                  arith,
                  ap (count b) now,
                  holders-taken layer l len b o es same,
                  count-alloc_span len b old pos,
                  h.cell l b old there',
                )
            | inr other ↦
                let kept : get_elem? fl l ≡ some free =
                  ground (arith, get_elem?-set_lem fl layer l free') in
                omega
                  (arith, holders-taken_ne layer l len b (span_of o) es other, h.cell l b free kept)
          ];
        })
]
