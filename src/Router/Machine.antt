-- ===== src/Router/Machine.antt =====
-- Any sequence of calls of the router of korith_vllm_ext/tiered_router.py and rounds of its worker.
use axropus_deploy.Prelude.{ℕ, String, Option, List, [], ◌∷◌}
use axropus_deploy.Pool.{CompressedKv, Floats}
use axropus_deploy.Pool.Put.{Tensor}
use axropus_deploy.LmCache.{Engine}
use axropus_deploy.Router.{Router, Readings, lookup, store_after_prefill, prefetch, prefetch_round}

pub data Call (F T : Type 0) : Type 0 where
  looks_up : Readings F → String → Option ℕ → Call F T
  stores : Readings F → String → ℕ → Tensor T → F → Option String → Call F T
  prefetches : String → ℕ → Call F T
  works : Readings F → (String → Option (Tensor T)) → Call F T

module _ {C F E T : Type 0} (fl : Floats F) (codecs : String → Option (T → Option (CompressedKv C)))
    (lib : Engine E (Tensor T)) where
  unfoldable pub step : Call F T → Router C F E T → Router C F E T
  step (looks_up env k tokens) r = (lookup fl codecs lib env k tokens r).1
  step (stores env k n kv savings format) r =
      (store_after_prefill fl codecs lib env k n kv savings format r).1
  step (prefetches k priority) r = prefetch fl codecs lib k priority r
  step (works env resolver) r = prefetch_round fl codecs lib env resolver r

  unfoldable pub run : List (Call F T) → Router C F E T → Router C F E T
  run [] r = r
  run (c ∷ cs) r = run cs (step c r)
