-- ===== src/SpecDecode.antt =====
-- platform/runtime/spec_decode.py: the controller of speculative decoding. `F` is the type of floats;
-- numbers of tokens and elapsed times are not negative.
pub mod Bounds
mod Tests
use axropus_deploy.Prelude.{
  ℕ, suc, ◌+◌, ◌-◌, max, min, String, Bool, true, false, not, ◌&&◌, ◌||◌, List, [], ◌∷◌,
  if◌then◌else◌, ltb,
}

-- The operations on floats and the constants that the code writes as floats
pub record Floats (F : Type 0) : Type 0 where
  pub of_nat : ℕ → F
  pub add : F → F → F
  pub sub : F → F → F
  pub mul : F → F → F
  pub div : F → F → F
  pub maximum : F → F → F
  pub greater : F → F → Bool
  pub increase_threshold : F
  pub decrease_threshold : F
  pub ema_alpha : F
  pub millionth : F

abbrev pub min_k : ℕ
min_k = 2

abbrev pub max_k : ℕ
max_k = 12

abbrev pub default_k : ℕ
default_k = 4

pub record Controller (F : Type 0) : Type 0 where
  pub enabled : Bool
  pub current_k : ℕ
  pub tokens_proposed : ℕ
  pub tokens_accepted : ℕ
  pub accept_ema : F
  pub decode_ms_saved : F
  pub spec_overhead_ms : F
  pub initialized : Bool

-- What `maybe_run` returns
pub record Decision : Type 0 where
  pub enabled : Bool
  pub reason : String
  pub k : ℕ

-- The entries of the two dicts that `maybe_run` reads
pub record Gate : Type 0 where
  pub allow_spec : Bool
  pub verify_tokens : Bool
  pub logits_access : Bool

module _ {F : Type 0} (fl : Floats F) where
  -- `__init__`
  unfoldable pub new_controller : Controller F
  new_controller = record {
    enabled = false;
    current_k = default_k;
    tokens_proposed = 0;
    tokens_accepted = 0;
    accept_ema = fl.of_nat 0;
    decode_ms_saved = fl.of_nat 0;
    spec_overhead_ms = fl.of_nat 0;
    initialized = false;
  }

  unfoldable pub maybe_run : Gate → Controller F → Decision × Controller F
  maybe_run g c =
      if not g.allow_spec
      then (record { enabled = false; reason = "policy_disabled"; k = 0 }, c)
      else if not g.verify_tokens && not g.logits_access
      then (record { enabled = false; reason = "capability_missing"; k = 0 }, c)
      else (record { enabled = true; reason = "ok"; k = c.current_k }, record c { enabled = true })

  -- The moving average after a step, and the depth for an average
  unfoldable pub next_ema : F → Controller F → F
  next_ema step_accept c =
      if c.initialized
      then fl.add c.accept_ema (fl.mul fl.ema_alpha (fl.sub step_accept c.accept_ema))
      else step_accept

  unfoldable pub next_k : F → ℕ → ℕ
  next_k ema k =
      if fl.greater ema fl.increase_threshold
      then min max_k (k + 1)
      else if fl.greater fl.decrease_threshold ema
      then max min_k (k - 1)
      else k

  -- The part of `update` for a step that proposed tokens
  abbrev pub adjust : ℕ → ℕ → Controller F → Controller F
  adjust proposed accepted c =
      let ema = next_ema (fl.div (fl.of_nat accepted) (fl.of_nat proposed)) c in
      record c { accept_ema = ema; initialized = true; current_k = next_k ema c.current_k }

  -- The estimated saving, at least 0
  abbrev pub saving : ℕ → F → F → F
  saving accepted baseline_tps overhead =
      fl.maximum (fl.of_nat 0)
        (fl.sub (fl.mul (fl.of_nat (accepted - 1)) (fl.div (fl.of_nat 1000) baseline_tps)) overhead)

  abbrev pub add_saving : ℕ → F → F → Controller F → Controller F
  add_saving accepted baseline_tps overhead c =
      if ltb 1 accepted && fl.greater baseline_tps fl.millionth
      then record c {
        decode_ms_saved = fl.add c.decode_ms_saved (saving accepted baseline_tps overhead);
      }
      else c

  unfoldable pub update : ℕ → ℕ → ℕ → F → Controller F → Controller F
  update proposed accepted spec_elapsed_ns baseline_tps c =
      let counted = record c {
        tokens_proposed = c.tokens_proposed + proposed;
        tokens_accepted = c.tokens_accepted + accepted;
      } in
      let adjusted = if ltb 0 proposed then adjust proposed accepted counted else counted in
      let overhead = fl.mul (fl.of_nat spec_elapsed_ns) fl.millionth in
      add_saving accepted baseline_tps overhead
        (record adjusted { spec_overhead_ms = fl.add adjusted.spec_overhead_ms overhead })

  -- `reset`
  unfoldable pub reset : Controller F → Controller F
  reset c = record {
    enabled = false;
    current_k = default_k;
    tokens_proposed = 0;
    tokens_accepted = 0;
    accept_ema = fl.of_nat 0;
    decode_ms_saved = fl.of_nat 0;
    spec_overhead_ms = fl.of_nat 0;
    initialized = false;
  }
