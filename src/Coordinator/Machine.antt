-- ===== src/Coordinator/Machine.antt =====
-- Any sequence of calls of the index of platform/runtime/amf_coordinator.py.
use axropus_deploy.Prelude.{ℕ, String, List, [], ◌∷◌, Option}
use axropus_deploy.Coordinator.{Metadata, Index, Item, register, heartbeat, evict}
use axropus_deploy.Coordinator.Keys.{Texts}

pub data Call (M : Type 0) : Type 0 where
  registers : ℕ → String → String → String → String → M → Call M
  heartbeats : String → List (ℕ × Option (Item M)) → Call M
  evicts : String → String → Call M

module _ {M : Type 0} (io : Metadata M) (texts : Texts) where
  unfoldable pub step : Call M → Index M → Index M
  step (registers now tenant prefix node worker metadata) ix =
      register io texts now tenant prefix node worker metadata ix
  step (heartbeats node items) ix = heartbeat io texts node items ix
  step (evicts tenant prefix) ix = (evict texts tenant prefix ix).1

  unfoldable pub run : List (Call M) → Index M → Index M
  run [] ix = ix
  run (c ∷ cs) ix = run cs (step c ix)
