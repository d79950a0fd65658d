-- ===== src/Slab/Runs.antt =====
-- What the scan of a free list finds.
use axropus_deploy.Prelude.{
  ℕ, zero, suc, ◌+◌, ◌-◌, ◌<◌, ◌≡◌, refl, ap, inl, inr, List, [], ◌∷◌, ◌++◌, Option, none, some,
  arith, ◌==◌, count, ltb, if◌then◌else◌, length, Bool-cases, ==_iff, length-append,
}
use mathlib.Core.List.{append_assoc}
use native.Mathlib.Numerals.{add-one}
use axropus_deploy.Slab.{span, next_len, scan}

pub length-span : (s n : ℕ) → length (span s n) ≡ n
length-span s zero = refl
length-span s (suc n) = ap suc (length-span (s + 1) n)

pub span-append_last : (s n : ℕ) → span s n ++ (s + n) ∷ [] ≡ span s (suc n)
span-append_last s zero = let e : s + 0 ≡ s = omega arith in rw e
span-append_last s (suc n) =
    let e : s + suc n ≡ s + 1 + n = omega arith in rw e (ap (◌∷◌ s) (span-append_last (s + 1) n))

pub count-span :
    (b s n : ℕ) → count b (span s n) ≡ (if ltb b s then 0 else if ltb b (s + n) then 1 else 0)
count-span b s zero = ground arith
count-span b s (suc n) = ground (arith, count-span b (s + 1) n)

-- A list that holds a run of `n` blocks after `before`.
pub record HasRun (n index : ℕ) (l : List ℕ) : Type 0 where
  pub before : List ℕ
  pub start : ℕ
  pub after : List ℕ
  pub parts : l ≡ before ++ (span start n ++ after)
  pub place : index + 1 ≡ length before + n

-- The blocks read so far end in a run of `run_len` blocks, the last of which is `prev`.
data Seen (prev : Option ℕ) (run_len : ℕ) (read : List ℕ) : Type 0 where
  first : prev ≡ none → read ≡ [] → Seen prev run_len read
  run :
      (before : List ℕ) (start : ℕ)
      → read ≡ before ++ span start run_len
      → prev ≡ some (start + run_len - 1)
      → 0 < run_len
      → Seen prev run_len read

-- One more block: the run grows, or a new run starts.
Seen-next :
    (prev : Option ℕ) (run_len bid : ℕ) (read : List ℕ)
    → Seen prev run_len read
    → Seen (some bid) (next_len prev run_len bid) (read ++ bid ∷ [])
Seen-next prev run_len bid read (first p r) =
    rw (p, next_len) (run read bid refl (ap some (omega arith)) (omega arith))
Seen-next prev run_len bid read (run before start r p pos) =
    rw (p, next_len)
      (elim (Bool-cases (bid == start + run_len - 1 + 1)) [
        | inl e ↦
            let at : bid ≡ start + run_len = ground arith in
            rw e (
              run before start
                (cc (
                  r,
                  at,
                  append_assoc before (span start run_len) (bid ∷ []),
                  span-append_last start run_len,
                  add-one run_len,
                ))
                (ap some (omega arith)) (omega arith))
        | inr e ↦ rw e (run read bid refl (ap some (omega arith)) (omega arith))
      ])

Seen-HasRun :
    (n i : ℕ) (prev : Option ℕ) (read rest : List ℕ)
    → 0 < n
    → i + 1 ≡ length read
    → Seen prev n read
    → HasRun n i (read ++ rest)
Seen-HasRun n i prev read rest pos at (first p r) = absurd (omega (arith, ap length r))
Seen-HasRun n i prev read rest pos at (run before start r p q) = record {
  before = before;
  start = start;
  after = rest;
  parts = rw (r, append_assoc) refl;
  place = omega (arith, ap length r, length-append before (span start n), length-span start n);
}

-- The index at which the scan stops ends a run of `n` blocks.
scan-HasRun :
    (n i : ℕ) (prev : Option ℕ) (run_len : ℕ) (read rest : List ℕ) {j : ℕ}
    → 0 < n
    → i ≡ length read
    → Seen prev run_len read
    → scan n i prev run_len rest ≡ some j
    → HasRun n j (read ++ rest)
unfolding scan
scan-HasRun n i prev run_len read [] pos at seen h = absurd (ground arith)
scan-HasRun n i prev run_len read (bid ∷ rest) {j} pos at seen h =
    let more : i + 1 ≡ length (read ++ bid ∷ []) = omega (arith, length-append read (bid ∷ [])) in
    let whole : (read ++ bid ∷ []) ++ rest ≡ read ++ bid ∷ rest =
      append_assoc read (bid ∷ []) rest in
    let seen' = Seen-next prev run_len bid read seen in
    elim (Bool-cases (next_len prev run_len bid == n)) [
      | inl e ↦
          let here : i ≡ j = ground arith in
          let full : next_len prev run_len bid ≡ n = (==_iff _ n).0 e in
          rw (← here, ← whole)
            (Seen-HasRun n i (some bid) (read ++ bid ∷ []) rest pos more (rw full at seen'))
      | inr e ↦ rw (← whole) (
          scan-HasRun n (i + 1) (some bid) (next_len prev run_len bid) (read ++ bid ∷ []) rest pos
            more seen' (rw e at h))
    ]

-- A run that the scan finds is a run of the list that it read.
pub scan_lem : (n : ℕ) (l : List ℕ) {j : ℕ} → 0 < n → scan n 0 none 0 l ≡ some j → HasRun n j l
scan_lem n l pos h = scan-HasRun n 0 none 0 [] l pos refl (first refl refl) h
