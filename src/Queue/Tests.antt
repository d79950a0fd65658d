-- ===== src/Queue/Tests.antt =====
-- Runs of a small queue, and the theorems at concrete inputs.
use axropus_deploy.Prelude.{ℕ, String, ◌≡◌, refl, true, List, [], ◌∷◌, none, some, arith}
use axropus_deploy.Queue.{
  Payload, Row, QueueItem, Settings, Readings, reclaim_stale_inflight, hand_out, poll, enqueue, ack,
  retry, dequeue, next_poll,
}
use axropus_deploy.Queue.Machine.{enqueues, polls, acks, retries, step, run}
use axropus_deploy.Queue.Order.{EarliestDue, poll-EarliestDue}
use axropus_deploy.Queue.Delivery.{rows_of, run_keeps_job}
use axropus_deploy.Queue.Exclusive.{Others, handed_out, no_second_hand_out}

-- Payloads that are their own dump, in the lane MISS and for any worker.
abbrev plain : Payload String
plain = record { target = λ s. none; lane = λ s. "MISS"; dumps = λ s. s; loads = λ s. s }

abbrev settings : Settings
settings = record { reclaim = true; stale = 900; second = 1 }

abbrev at : ℕ → Readings
at n = record { test = n; cutoff = n; again = n; now = n }

program : Unit {0}
unfolding enqueue poll ack retry step run hand_out reclaim_stale_inflight handed_out dequeue
    next_poll
program = tt

abbrev start : List Row
start = run plain settings (enqueues 1000 "a" "x" ∷ enqueues 1001 "b" "y" ∷ []) []

abbrev a_item : QueueItem String
a_item = record { job_id = "a"; payload = "x"; enqueued_at = 1000; attempts = 0 }

first_in : (poll plain settings "w" (at 1002) start).0 ≡ some a_item
unfolding program
first_in = refl

-- The first round is too early, and the second finds the job.
second_round : (dequeue plain settings "w" 2000 (at 5 ∷ at 1000 ∷ []) start).0 ≡ some a_item
unfolding program
second_round = refl

-- A job that waited for longer than the staleness is handed out to two workers, one tick apart.
handed_out_twice :
    handed_out plain settings (("w", at 5000) ∷ ("v", at 5001) ∷ []) start ≡ a_item ∷ a_item ∷ []
unfolding program
handed_out_twice = refl

poll-EarliestDue_example :
    EarliestDue plain "w" 1002
      (reclaim_stale_inflight settings 1002 1002 start)
      (poll plain settings "w" (at 1002) start).0
poll-EarliestDue_example = poll-EarliestDue plain settings "w" (at 1002) start

run_keeps_job_example :
    rows_of "a" (run plain settings (polls "w" (at 1002) ∷ acks "b" ∷ retries "a" 9 ∷ []) start) ≡ 1
unfolding program
run_keeps_job_example =
    run_keeps_job plain settings "a" (polls "w" (at 1002) ∷ acks "b" ∷ retries "a" 9 ∷ []) start
      (tt, (refl, (tt, tt))) refl

no_second_hand_out_example : Others "a" (
    handed_out plain settings
      (("v", at 1003) ∷ ("v", at 1800) ∷ [])
      (poll plain settings "w" (at 1002) start).1)
unfolding program
no_second_hand_out_example =
    no_second_hand_out plain settings 1800 "w" (at 1002) (("v", at 1003) ∷ ("v", at 1800) ∷ [])
      start a_item refl ((λ e. omega arith), ((λ e. omega arith), tt)) (omega arith)
      (omega arith, (omega arith, tt))
