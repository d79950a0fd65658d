-- ===== src/SpecDecode/Tests.antt =====
-- A run of the controller with rates in hundredths, and the theorem at a concrete input.
use axropus_deploy.Prelude.{
  ℕ, ◌+◌, ◌-◌, ◌*◌, ◌/◌, ◌≤◌, max, ◌≡◌, refl, true, false, List, [], ◌∷◌, if◌then◌else◌, ltb, arith,
}
use axropus_deploy.SpecDecode.{
  Floats, Gate, new_controller, maybe_run, next_ema, next_k, update, reset,
}
use axropus_deploy.SpecDecode.Bounds.{Call, runs, updates, step, run, depth_bounded}

abbrev percent : Floats ℕ
percent = record {
  of_nat = λ n. n;
  add = λ a b. a + b;
  sub = λ a b. a - b;
  mul = λ a b. a * b / 100;
  div = λ a b. 100 * a / b;
  maximum = λ a b. max a b;
  greater = λ a b. ltb b a;
  increase_threshold = 85;
  decrease_threshold = 65;
  ema_alpha = 20;
  millionth = 0;
}

abbrev open_gate : Gate
open_gate = record { allow_spec = true; verify_tokens = true; logits_access = false }

-- Two good steps raise the depth, and one without proposals leaves it.
abbrev calls : List (Call ℕ)
calls = runs open_gate ∷ updates 4 4 1000 50 ∷ updates 5 5 1000 50 ∷ updates 0 0 0 50 ∷ []

raised : (run percent calls (new_controller percent)).current_k ≡ 6
unfolding new_controller maybe_run next_ema next_k update reset step run
raised = refl

-- Poor steps lower it to 2.
lowered :
    (run percent
      (updates 4 0 0 0 ∷ updates 4 0 0 0 ∷ updates 4 1 0 0 ∷ [])
      (new_controller percent)).current_k
    ≡ 2
unfolding new_controller maybe_run next_ema next_k update reset step run
lowered = refl

depth_bounded_example :
    let c = run percent calls (new_controller percent) in
    (2 ≤ c.current_k)
    × ((c.current_k ≤ 12)
        × ((c.tokens_accepted ≤ c.tokens_proposed)
            × ((maybe_run percent open_gate c).0.k
                ≡ (if (maybe_run percent open_gate c).0.enabled then c.current_k else 0))))
depth_bounded_example =
    depth_bounded percent calls open_gate (tt, (omega arith, (omega arith, (omega arith, tt))))
