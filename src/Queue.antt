-- ===== src/Queue.antt =====
-- platform/queue/sqlite_queue.py: the queue of jobs in SQLite. Times are whole ticks of the clock,
-- and `J` is the type of payloads.
pub mod Machine
pub mod Order
pub mod Delivery
pub mod Exclusive
mod Tests
use axropus_deploy.Prelude.{
  ℕ, suc, ◌+◌, max, String, Bool, true, false, ◌&&◌, ◌||◌, List, [], ◌∷◌, Option, none, some,
  str_eq, ltb, leb, if◌then◌else◌, count_if, keep_if, sort_by,
}
use axropus_deploy.Sql.{update_where, delete_where, replace, first_row}

-- What the code reads of a payload, and its text. `lane` is `str(payload.get("lane", "MISS")).upper()`.
pub record Payload (J : Type 0) : Type 0 where
  pub target : J → Option String
  pub lane : J → String
  pub dumps : J → String
  pub loads : String → J

pub record Row : Type 0 where
  pub job_id : String
  pub payload_json : String
  pub lane : String
  pub status : String
  pub target_worker_id : Option String
  pub worker_id : Option String
  pub enqueued_at : ℕ
  pub available_at : ℕ
  pub attempts : ℕ

pub record QueueItem (J : Type 0) : Type 0 where
  pub job_id : String
  pub payload : J
  pub enqueued_at : ℕ
  pub attempts : ℕ

-- KORITH_QUEUE_RECLAIM_INFLIGHT, and KORITH_QUEUE_INFLIGHT_STALE_S before `max(1.0, …)`
pub record Settings : Type 0 where
  pub reclaim : Bool
  pub stale : ℕ
  pub second : ℕ

abbrev pub is_job : String → Row → Bool
is_job id r = str_eq r.job_id id

abbrev pub in_flight : Row → Bool
in_flight r = str_eq r.status "INFLIGHT"

-- `available_at <= now - stale_s`
abbrev pub stale_inflight : Settings → ℕ → Row → Bool
stale_inflight s now r = in_flight r && leb (r.available_at + max s.second s.stale) now

-- `now` is the first reading of the clock and `again` the second.
unfoldable pub reclaim_stale_inflight : Settings → ℕ → ℕ → List Row → List Row
reclaim_stale_inflight s now again t =
    if s.reclaim
    then update_where (stale_inflight s now)
        (λ r. record r { status = "QUEUED"; worker_id = none; available_at = again }) t
    else t

abbrev pub known_lane : String → String
known_lane lane =
    if str_eq lane "HIT"
      || (str_eq lane "MISS" || (str_eq lane "SPEC_HIT" || str_eq lane "SPEC_MISS"))
    then lane
    else "MISS"

-- `target_worker_id IS NULL OR target_worker_id = ?`
abbrev pub meant_for : String → Option String → Bool
meant_for worker none = true
meant_for worker (some w) = str_eq w worker

abbrev pub ready : String → ℕ → Row → Bool
ready worker now r =
    str_eq r.status "QUEUED" && (leb r.available_at now && meant_for worker r.target_worker_id)

abbrev pub enqueued_first : Row → Row → Bool
enqueued_first a b = leb a.enqueued_at b.enqueued_at

-- The SELECT of `dequeue`
abbrev pub next_row : String → ℕ → List Row → Option Row
next_row worker now t = first_row (sort_by enqueued_first (keep_if (ready worker now) t))

-- The UPDATE of `dequeue`
abbrev pub take_row : String → String → List Row → List Row
take_row worker id t =
    update_where (is_job id) (λ r. record r { status = "INFLIGHT"; worker_id = some worker }) t

-- The readings of the clock in one round of `dequeue`: the loop's test, the two of the reclaiming
-- and `now`.
pub record Readings : Type 0 where
  pub test : ℕ
  pub cutoff : ℕ
  pub again : ℕ
  pub now : ℕ

module _ {J : Type 0} (io : Payload J) where
  unfoldable pub enqueue : ℕ → String → J → List Row → List Row
  enqueue now id payload t =
      replace (is_job id)
        (record {
          job_id = id;
          payload_json = io.dumps payload;
          lane = known_lane (io.lane payload);
          status = "QUEUED";
          target_worker_id = io.target payload;
          worker_id = none;
          enqueued_at = now;
          available_at = now;
          attempts = 0;
        })
        t

  abbrev pub item_of : Row → QueueItem J
  item_of r = record {
    job_id = r.job_id;
    payload = io.loads r.payload_json;
    enqueued_at = r.enqueued_at;
    attempts = r.attempts;
  }

  unfoldable pub hand_out : String → List Row → Option Row → Option (QueueItem J) × List Row
  hand_out worker t none = (none, t)
  hand_out worker t (some r) = (some (item_of r), take_row worker r.job_id t)

  -- One round of the loop
  unfoldable pub poll : Settings → String → Readings → List Row → Option (QueueItem J) × List Row
  unfolding hand_out
  poll s worker c t =
      let reclaimed = reclaim_stale_inflight s c.cutoff c.again t in
      hand_out worker reclaimed (next_row worker c.now reclaimed)

  -- What a round leaves to do: return the item, or go on.
  unfoldable pub next_poll :
      Option (QueueItem J) × List Row
      → (List Row → Option (QueueItem J) × List Row)
      → Option (QueueItem J) × List Row
  next_poll (some item, t) more = (some item, t)
  next_poll (none, t) more = more t

  -- The loop of `dequeue` on the clock's readings, round by round; the last round is the one whose
  -- test fails.
  unfoldable pub dequeue :
      Settings → String → ℕ → List Readings → List Row → Option (QueueItem J) × List Row
  unfolding poll next_poll
  dequeue s worker deadline [] t = (none, t)
  dequeue s worker deadline (c ∷ cs) t =
      let more = dequeue s worker deadline cs in
      if ltb c.test deadline then next_poll (poll s worker c t) more else (none, t)

unfoldable pub ack : String → List Row → List Row
ack id t = delete_where (is_job id) t

-- `available` is the clock's reading and the delay.
unfoldable pub retry : String → ℕ → List Row → List Row
retry id available t =
    update_where (is_job id)
      (λ r. record r {
        status = "QUEUED";
        worker_id = none;
        available_at = available;
        attempts = r.attempts + 1;
      })
      t

pub record QueueStats : Type 0 where
  pub by_status : String → ℕ
  pub queue_depth_hit : ℕ
  pub queue_depth_miss : ℕ

abbrev pub queued_in : String → List Row → ℕ
queued_in lane t = count_if (λ (r : Row). str_eq r.status "QUEUED" && str_eq r.lane lane) t

-- The counts by status are a function of the status, 0 for one that has no rows.
unfoldable pub stats : List Row → QueueStats
stats t = record {
  by_status = λ s. count_if (λ (r : Row). str_eq r.status s) t;
  queue_depth_hit = queued_in "HIT" t + queued_in "SPEC_HIT" t;
  queue_depth_miss = queued_in "MISS" t + queued_in "SPEC_MISS" t;
}
