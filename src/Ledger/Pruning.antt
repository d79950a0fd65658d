-- ===== src/Ledger/Pruning.antt =====
-- What the pruning of snapshot locations leaves.
use axropus_deploy.Prelude.{
  ℕ, ◌+◌, ◌≤◌, max, String, ◌≡◌, refl, sym, inl, inr, ◌∙◌, Bool, true, false, not, ◌&&◌, ◌||◌, List,
  [], ◌∷◌, arith, str_eq, ltb, Bool-cases, eq_iff, eq_refl, length, keep_if, count_if,
  count_if-sort_by, All, text_le,
}
use axropus_deploy.Sql.{delete_where, latest_first}
use axropus_deploy.Ledger.{Location, Db}
use axropus_deploy.Ledger.Locations.{
  in_partition, surplus_after, surplus, same_snapshot, delete_rows, prune_snapshot_locations, used,
}

-- How many rows survive the deletion of `rows` and lie in a partition.
abbrev hit_by : List Location → Location → Bool
hit_by [] l = false
hit_by (row ∷ rows) l = same_snapshot row l || hit_by rows l

count_if-delete_where :
    (p q : Location → Bool) (t : List Location)
    → count_if p (delete_where q t) ≡ count_if (λ l. p l && not (q l)) t
count_if-delete_where p q [] = refl
count_if-delete_where p q (l ∷ t) = ground (arith, count_if-delete_where p q t)

count_if-ext :
    (p q : Location → Bool) (t : List Location)
    → ((l : Location) → p l ≡ q l)
    → count_if p t ≡ count_if q t
count_if-ext p q [] same = refl
count_if-ext p q (l ∷ t) same = ground (arith, same l, count_if-ext p q t same)

count_if-delete_rows :
    (p : Location → Bool) (rows t : List Location)
    → count_if p (delete_rows rows t) ≡ count_if (λ l. p l && not (hit_by rows l)) t
unfolding delete_rows
count_if-delete_rows p [] t = count_if-ext p _ t (λ l. ground arith)
count_if-delete_rows p (row ∷ rows) t =
    count_if-delete_rows p rows (delete_where (same_snapshot row) t)
    ∙ (count_if-delete_where _ (same_snapshot row) t
        ∙ count_if-ext (λ l. (p l && not (hit_by rows l)) && not (same_snapshot row l)) _ t
            (λ l. ground arith))

length-keep_if : (p : Location → Bool) (t : List Location) → length (keep_if p t) ≡ count_if p t
length-keep_if p [] = refl
length-keep_if p (l ∷ t) = ground (arith, length-keep_if p t)

and_true : (a b : Bool) → a && b ≡ true → (a ≡ true) × (b ≡ true)
and_true true b e = (refl, e)
and_true false b e = absurd (ground arith)

-- Rows of one partition select the same rows.
partition_ext :
    (fp org : String) (l x : Location)
    → in_partition fp org l ≡ true
    → in_partition l.fingerprint_hash l.org_id x ≡ in_partition fp org x
partition_ext fp org l x e =
    let both = and_true (str_eq l.fingerprint_hash fp) (str_eq l.org_id org) e in
    rw (sym ((eq_iff l.fingerprint_hash fp).0 both.0), sym ((eq_iff l.org_id org).0 both.1)) refl

same_self : (l : Location) → same_snapshot l l ≡ true
same_self l = rw (eq_refl l.fingerprint_hash, eq_refl l.org_id, eq_refl l.snapshot_id) refl

All-hit_by :
    (row : Location) (rows t : List Location)
    → All (λ l. hit_by rows l ≡ true) t
    → All (λ l. hit_by (row ∷ rows) l ≡ true) t
All-hit_by row rows [] h = tt
All-hit_by row rows (l ∷ t) h = (rw h.0 (ground arith), All-hit_by row rows t h.1)

hit_by_self : (rows : List Location) → All (λ l. hit_by rows l ≡ true) rows
hit_by_self [] = tt
hit_by_self (row ∷ rows) = (rw (same_self row) refl, All-hit_by row rows rows (hit_by_self rows))

-- How many rows of a partition a deletion leaves of a table.
abbrev kept : String → String → List Location → List Location → ℕ
kept fp org rows t = count_if (λ l. in_partition fp org l && not (hit_by rows l)) t

count_same :
    (fp org : String) (l : Location) (t : List Location)
    → in_partition fp org l ≡ true
    → length (keep_if (in_partition l.fingerprint_hash l.org_id) t)
      ≡ count_if (in_partition fp org) t
count_same fp org l t e =
    length-keep_if (in_partition l.fingerprint_hash l.org_id) t
    ∙ count_if-ext _ (in_partition fp org) t (λ x. partition_ext fp org l x e)

-- The rows of a partition that are not surplus are at most `n`, with those before them.
kept-surplus_after :
    (fp org : String) (n : ℕ) (rows before t : List Location)
    → All (λ l. hit_by rows l ≡ true) (surplus_after n before t)
    → kept fp org rows t + count_if (in_partition fp org) before
      ≤ max n (count_if (in_partition fp org) before)
kept-surplus_after fp org n rows before [] h = omega arith
kept-surplus_after fp org n rows before (l ∷ t) h =
    let later = kept-surplus_after fp org n rows (l ∷ before) t in
    let earlier = length (keep_if (in_partition l.fingerprint_hash l.org_id) before) in
    elim (Bool-cases (ltb earlier n)) [
      | inl few ↦
          let rest = later (rw few at h) in
          elim (Bool-cases (in_partition fp org l)) [
            | inl mine ↦ ground (arith, rest, count_same fp org l before mine)
            | inr other ↦ ground (arith, rest)
          ]
      | inr many ↦
          let out = (rw many at h).0 in
          let rest = later (rw many at h).1 in
          elim (Bool-cases (in_partition fp org l)) [
            | inl mine ↦ ground (arith, rest, count_same fp org l before mine)
            | inr other ↦ ground (arith, rest)
          ]
    ]

surplus-AtMost : (fp org : String) (n : ℕ) (t : List Location) → kept fp org (surplus n t) t ≤ n
unfolding surplus
surplus-AtMost fp org n t =
    let rows = surplus n t in
    let bound = kept-surplus_after fp org n rows [] (latest_first used t) (hit_by_self rows) in
    ground (
      arith,
      bound,
      count_if-sort_by (λ (a b : Location). text_le (used b) (used a))
          (λ l. in_partition fp org l && not (hit_by rows l)) t,
    )

-- After a pruning to `n` rows, `n` not 0, no fingerprint and organisation have more than `n`
-- snapshot locations.
pub prune-AtMost :
    (fp org : String) (n : ℕ) (db : Db)
    → ltb n 1 ≡ false
    → count_if (in_partition fp org) (prune_snapshot_locations n db).1.snapshot_locations ≤ n
unfolding prune_snapshot_locations
prune-AtMost fp org n db some_kept =
    let t = db.snapshot_locations in
    let bound = surplus-AtMost fp org n t in
    rw (some_kept, count_if-delete_rows (in_partition fp org) (surplus n t) t) bound
