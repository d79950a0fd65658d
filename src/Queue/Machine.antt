-- ===== src/Queue/Machine.antt =====
-- Any sequence of calls of platform/queue/sqlite_queue.py, of any workers. Each statement or
-- BEGIN IMMEDIATE … COMMIT is a step.
use axropus_deploy.Prelude.{ℕ, String, List, [], ◌∷◌}
use axropus_deploy.Queue.{Payload, Row, Settings, Readings, enqueue, poll, ack, retry}

pub data Call (J : Type 0) : Type 0 where
  enqueues : ℕ → String → J → Call J
  polls : String → Readings → Call J
  acks : String → Call J
  retries : String → ℕ → Call J

module _ {J : Type 0} (io : Payload J) (s : Settings) where
  unfoldable pub step : Call J → List Row → List Row
  step (enqueues now id payload) t = enqueue io now id payload t
  step (polls worker c) t = (poll io s worker c t).1
  step (acks id) t = ack id t
  step (retries id available) t = retry id available t

  unfoldable pub run : List (Call J) → List Row → List Row
  run [] t = t
  run (c ∷ cs) t = run cs (step c t)
