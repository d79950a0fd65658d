-- ===== src/InProcQueue/Tests.antt =====
-- A run of a small queue in process, and the theorem at a concrete input.
use axropus_deploy.Prelude.{
  ◌+◌, String, ◌≡◌, refl, List, [], ◌∷◌, none, some, str_eq, if◌then◌else◌,
}
use axropus_deploy.Dict.{get, put}
use axropus_deploy.Queue.{Payload}
use axropus_deploy.InProcQueue.{
  empty_queue, enqueue, taken, take_any, take_own, dequeue, ack, retry, stats,
}
use axropus_deploy.InProcQueue.Lanes.{
  Call, enqueues, dequeues, acks, retries, waiting, step, run, stats_count_waiting,
}

-- A payload is its lane, and those of the lane HIT are for the worker "w".
abbrev plain : Payload String
plain = record {
  target = λ s. if str_eq s "HIT" then some "w" else none;
  lane = λ s. s;
  dumps = λ s. s;
  loads = λ s. s;
}

abbrev calls : List (Call String)
calls =
    enqueues 1 "a" "MISS"
    ∷ enqueues 2 "b" "HIT"
    ∷ enqueues 3 "c" "HIT"
    ∷ dequeues "w"
    ∷ retries "b" 5
    ∷ acks "b"
    ∷ []

program : Unit {0}
unfolding enqueue taken take_any take_own dequeue ack retry stats get put step run
program = tt

own_first :
    (dequeue plain "w" (run plain calls empty_queue)).0
    ≡ some (record { job_id = "c"; payload = "HIT"; enqueued_at = 3; attempts = 0 })
unfolding program
own_first = refl

stats_count_waiting_example :
    ((stats (run plain calls empty_queue)).queue_depth_hit
      ≡ waiting plain "HIT" (run plain calls empty_queue)
        + waiting plain "SPEC_HIT" (run plain calls empty_queue))
    × ((stats (run plain calls empty_queue)).queue_depth_miss
        ≡ waiting plain "MISS" (run plain calls empty_queue)
          + waiting plain "SPEC_MISS" (run plain calls empty_queue))
stats_count_waiting_example = stats_count_waiting plain calls
