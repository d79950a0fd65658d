-- ===== src/InProcQueue.antt =====
-- platform/queue/inproc_queue.py: the queue in process. A `queue.Queue` is the list of what it
-- holds, its head first; each method is one step. `J` is the type of payloads.
pub mod Lanes
mod Tests
use axropus_deploy.Prelude.{
  ℕ, ◌+◌, ◌-◌, String, Bool, List, [], ◌∷◌, ◌++◌, Option, none, some, str_eq, ltb, if◌then◌else◌,
}
use axropus_deploy.Dict.{Dict, get, put}
use axropus_deploy.Queue.{Payload, QueueItem}

pub record InProcQueue (J : Type 0) : Type 0 where
  pub any_worker : List (QueueItem J)
  pub by_worker : Dict (List (QueueItem J))
  pub lane_counts : Dict ℕ

abbrev pub empty_queue : {J : Type 0} → InProcQueue J
empty_queue = record { any_worker = []; by_worker = []; lane_counts = [] }

abbrev pub or_zero : Option ℕ → ℕ
or_zero none = 0
or_zero (some n) = n

abbrev pub or_empty : {A : Type 0} → Option (List A) → List A
or_empty none = []
or_empty (some xs) = xs

-- `if target`: `None` and the empty text are no target.
abbrev pub targeted : Option String → Option String
targeted none = none
targeted (some w) = if str_eq w "" then none else some w

-- The counts after `if lane in self._lane_counts and self._lane_counts[lane] > 0`
abbrev pub count_down : String → Option ℕ → Dict ℕ → Dict ℕ
count_down lane none m = m
count_down lane (some n) m = if ltb 0 n then put lane (n - 1) m else m

module _ {J : Type 0} (io : Payload J) where
  abbrev pub put_item : QueueItem J → Option String → InProcQueue J → InProcQueue J
  put_item item none q = record q { any_worker = q.any_worker ++ item ∷ [] }
  put_item item (some w) q = record q {
    by_worker = put w (or_empty (get w q.by_worker) ++ item ∷ []) q.by_worker;
  }

  unfoldable pub enqueue : ℕ → String → J → InProcQueue J → InProcQueue J
  enqueue now id payload q =
      let lane = io.lane payload in
      put_item (record { job_id = id; payload = payload; enqueued_at = now; attempts = 0 })
        (targeted (io.target payload))
        (record q { lane_counts = put lane (or_zero (get lane q.lane_counts) + 1) q.lane_counts })

  -- `item` was taken out, which leaves `q`.
  unfoldable pub taken : QueueItem J → InProcQueue J → Option (QueueItem J) × InProcQueue J
  taken item q =
      let lane = io.lane item.payload in
      (some item, record q { lane_counts = count_down lane (get lane q.lane_counts) q.lane_counts })

  unfoldable pub take_any :
      List (QueueItem J) → InProcQueue J → Option (QueueItem J) × InProcQueue J
  unfolding taken
  take_any [] q = (none, q)
  take_any (item ∷ items) q = taken item (record q { any_worker = items })

  -- The worker's own queue, if it is there and not empty, goes first.
  unfoldable pub take_own :
      String → List (QueueItem J) → InProcQueue J → Option (QueueItem J) × InProcQueue J
  unfolding taken take_any
  take_own worker [] q = take_any q.any_worker q
  take_own worker (item ∷ items) q =
      taken item (record q { by_worker = put worker items q.by_worker })

  -- `queue.Empty` after the timeout is `none`.
  unfoldable pub dequeue : String → InProcQueue J → Option (QueueItem J) × InProcQueue J
  unfolding take_own
  dequeue worker q = take_own worker (or_empty (get worker q.by_worker)) q

unfoldable pub ack : {J : Type 0} → String → InProcQueue J → InProcQueue J
ack id q = q

-- It sleeps and returns.
unfoldable pub retry : {J : Type 0} → String → ℕ → InProcQueue J → InProcQueue J
retry id delay q = q

pub record InProcStats : Type 0 where
  pub queued : ℕ
  pub queue_depth_hit : ℕ
  pub queue_depth_miss : ℕ

abbrev pub depth : {J : Type 0} → String → InProcQueue J → ℕ
depth lane q = or_zero (get lane q.lane_counts)

unfoldable pub stats : {J : Type 0} → InProcQueue J → InProcStats
stats q = record {
  queued = depth "HIT" q + depth "SPEC_HIT" q + (depth "MISS" q + depth "SPEC_MISS" q);
  queue_depth_hit = depth "HIT" q + depth "SPEC_HIT" q;
  queue_depth_miss = depth "MISS" q + depth "SPEC_MISS" q;
}
