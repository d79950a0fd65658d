-- ===== src/Queue/Delivery.antt =====
-- platform/queue/sqlite_queue.py: the rows of a job under any calls.
use axropus_deploy.Prelude.{
  ℕ, ◌+◌, String, ◌≡◌, refl, inl, inr, ◌∙◌, Bool, false, List, [], ◌∷◌, ◌++◌, Option, none, some,
  arith, str_eq, eq_iff, eq_refl, Bool-cases, count_if, All,
}
use axropus_deploy.Sql.{update_where, delete_where, replace}
use axropus_deploy.Queue.{
  Payload, Row, Settings, is_job, stale_inflight, reclaim_stale_inflight, hand_out, poll, enqueue,
  ack, retry,
}
use axropus_deploy.Queue.Machine.{Call, enqueues, polls, acks, retries, step, run}

-- How many rows a job has.
abbrev pub rows_of : String → List Row → ℕ
rows_of id = count_if (is_job id)

rows_of-update_where :
    (id : String) (p : Row → Bool) (f : Row → Row) (t : List Row)
    → ((r : Row) → is_job id (f r) ≡ is_job id r)
    → rows_of id (update_where p f t) ≡ rows_of id t
rows_of-update_where id p f [] keeps = refl
rows_of-update_where id p f (r ∷ t) keeps =
    ground (arith, keeps r, rows_of-update_where id p f t keeps)

rows_of-append : (id : String) (t u : List Row) → rows_of id (t ++ u) ≡ rows_of id t + rows_of id u
rows_of-append id [] u = omega arith
rows_of-append id (r ∷ t) u = ground (arith, rows_of-append id t u)

-- A deletion of another job keeps the rows of this one, and one of this job takes them all.
rows_of-delete_other :
    (id other : String) (t : List Row)
    → str_eq id other ≡ false
    → rows_of id (delete_where (is_job other) t) ≡ rows_of id t
rows_of-delete_other id other [] d = refl
rows_of-delete_other id other (r ∷ t) d = ground (
  arith,
  eq_iff r.job_id id,
  eq_iff r.job_id other,
  eq_iff id other,
  rows_of-delete_other id other t d,
)

rows_of-delete_own : (id : String) (t : List Row) → rows_of id (delete_where (is_job id) t) ≡ 0
rows_of-delete_own id [] = refl
rows_of-delete_own id (r ∷ t) = ground (arith, rows_of-delete_own id t)

rows_of-replace :
    (id other : String) (row : Row) (t : List Row)
    → row.job_id ≡ other
    → rows_of id t ≡ 1
    → rows_of id (replace (is_job other) row t) ≡ 1
rows_of-replace id other row t e one = elim (Bool-cases (str_eq id other)) [
  | inl own ↦
      let same : id ≡ other = (eq_iff id other).0 own in
      ground (
        arith,
        rows_of-append id (delete_where (is_job other) t) (row ∷ []),
        rows_of-delete_own other t,
        eq_refl other,
      )
  | inr d ↦ ground (
    arith,
    rows_of-append id (delete_where (is_job other) t) (row ∷ []),
    rows_of-delete_other id other t d,
    eq_iff other id,
    eq_iff id other,
  )
]

rows_of-reclaim :
    (id : String) (s : Settings) (now again : ℕ) (t : List Row)
    → rows_of id (reclaim_stale_inflight s now again t) ≡ rows_of id t
unfolding reclaim_stale_inflight
rows_of-reclaim id s now again t = elim (Bool-cases s.reclaim) [
  | inl e ↦ rw e (rows_of-update_where id (stale_inflight s now) _ t (λ r. refl))
  | inr e ↦ rw e refl
]

rows_of-hand_out :
    {J : Type 0} (io : Payload J) (id worker : String) (t : List Row) (o : Option Row)
    → rows_of id (hand_out io worker t o).1 ≡ rows_of id t
unfolding hand_out
rows_of-hand_out io id worker t none = refl
rows_of-hand_out io id worker t (some r) = rows_of-update_where id (is_job r.job_id) _ t (λ x. refl)

-- The call does not acknowledge the job.
abbrev pub Spares : {J : Type 0} → String → Call J → Type 0
Spares id (acks other) = str_eq id other ≡ false
Spares id _ = Unit

step_keeps :
    {J : Type 0} (io : Payload J) (s : Settings) (id : String) (c : Call J) (t : List Row)
    → Spares id c
    → rows_of id t ≡ 1
    → rows_of id (step io s c t) ≡ 1
unfolding step enqueue poll ack retry
step_keeps io s id (enqueues now other payload) t spares one = rows_of-replace id other _ t refl one
step_keeps io s id (polls worker c) t spares one =
    rows_of-hand_out io id worker _ _ ∙ (rows_of-reclaim id s c.cutoff c.again t ∙ one)
step_keeps io s id (acks other) t spares one = rows_of-delete_other id other t spares ∙ one
step_keeps io s id (retries other available) t spares one =
    rows_of-update_where id (is_job other) _ t (λ r. refl) ∙ one

-- A job that has one row has one after any calls by any workers that do not acknowledge it.
pub run_keeps_job :
    {J : Type 0} (io : Payload J) (s : Settings) (id : String) (cs : List (Call J)) (t : List Row)
    → All (Spares id) cs
    → rows_of id t ≡ 1
    → rows_of id (run io s cs t) ≡ 1
unfolding run
run_keeps_job io s id [] t spares one = one
run_keeps_job io s id (c ∷ cs) t spares one =
    run_keeps_job io s id cs (step io s c t) spares.1 (step_keeps io s id c t spares.0 one)
