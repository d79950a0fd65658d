-- ===== src/Queue/Order.antt =====
-- platform/queue/sqlite_queue.py: which job a round of `dequeue` hands out.
use axropus_deploy.Prelude.{
  ℕ, ◌≤◌, String, ◌≡◌, ◌⊎◌, refl, inl, inr, Bool, true, false, List, All, Option, none, some, arith,
  str_eq, eq_iff,
}
use axropus_deploy.Sql.Newest.{First, Occurs, All-map, first_row-sort_by}
use axropus_deploy.Queue.{
  Payload, Row, QueueItem, Settings, Readings, reclaim_stale_inflight, meant_for, ready,
  enqueued_first, next_row, item_of, hand_out, poll,
}

-- A job that is queued, whose time has come, and that is meant for the worker or for any
pub record IsDue (worker : String) (now : ℕ) (r : Row) : Type 0 where
  pub queued : r.status ≡ "QUEUED"
  pub available : r.available_at ≤ now
  pub for_worker : (r.target_worker_id ≡ none) ⊎ (r.target_worker_id ≡ some worker)

ready-IsDue : (worker : String) (now : ℕ) (r : Row) → ready worker now r ≡ true → IsDue worker now r
ready-IsDue worker now r h = record {
  queued = (eq_iff r.status "QUEUED").0 (ground arith);
  available = ground arith;
  for_worker = meant_for_lem r.target_worker_id (ground arith);
}
  where
    meant_for_lem : (o : Option String) → meant_for worker o ≡ true → (o ≡ none) ⊎ (o ≡ some worker)
    meant_for_lem none h = inl refl
    meant_for_lem (some w) h = let same : w ≡ worker = (eq_iff w worker).0 h in inr (rw same)

IsDue-ready : (worker : String) (now : ℕ) (r : Row) → IsDue worker now r → ready worker now r ≡ true
IsDue-ready worker now r due =
    let queued : str_eq r.status "QUEUED" ≡ true = (eq_iff r.status "QUEUED").1 due.queued in
    let meant : meant_for worker r.target_worker_id ≡ true = elim due.for_worker [
      | inl any ↦ rw any
      | inr mine ↦ rw mine (ground (arith, eq_iff worker worker))
    ] in
    ground (arith, due.available, queued, meant)

-- The item of a job of the table that is due and was enqueued no later than any other that is, or
-- nothing, if none is
abbrev pub EarliestDue :
    {J : Type 0} → Payload J → String → ℕ → List Row → Option (QueueItem J) → Type 0
EarliestDue io worker now t none = All (λ r. ¬ IsDue worker now r) t
EarliestDue io worker now t (some item) =
    (r : Row) × Occurs r t
    × IsDue worker now r
    × (item ≡ item_of io r)
    × All (λ k. IsDue worker now k → r.enqueued_at ≤ k.enqueued_at) t

First-EarliestDue :
    {J : Type 0} (io : Payload J) (worker : String) (now : ℕ) (t : List Row) (o : Option Row)
    → First enqueued_first (ready worker now) t o
    → EarliestDue io worker now t (hand_out io worker t o).0
unfolding hand_out
First-EarliestDue io worker now t none h =
    All-map t (λ r idle due. not_both (IsDue-ready worker now r due) idle) h
  where
    not_both : {b : Bool} → b ≡ true → b ≡ false → ⊥
    not_both h k = ground arith
First-EarliestDue io worker now t (some r) (here, passes, earliest) = (
  r,
  here,
  ready-IsDue worker now r passes,
  refl,
  All-map t (λ k h due. (let le = h (IsDue-ready worker now k due) in ground arith)) earliest,
)

-- A round returns the item of a job that, after the reclaiming, is queued, available and meant for the
-- worker or for any, and that was enqueued no later than any other such job; it returns nothing only
-- if there is no such job.
pub poll-EarliestDue :
    {J : Type 0} (io : Payload J) (s : Settings) (worker : String) (c : Readings) (t : List Row)
    → EarliestDue io worker c.now
        (reclaim_stale_inflight s c.cutoff c.again t)
        (poll io s worker c t).0
unfolding poll
poll-EarliestDue io s worker c t =
    let t' = reclaim_stale_inflight s c.cutoff c.again t in
    First-EarliestDue io worker c.now t' (next_row worker c.now t') (
      first_row-sort_by enqueued_first (λ x y e. ground arith) (λ x y z d e. ground arith)
        (ready worker c.now) t')
