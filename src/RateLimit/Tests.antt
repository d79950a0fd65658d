-- ===== src/RateLimit/Tests.antt =====
-- Runs of the limiter, and the theorem at a concrete input.
use axropus_deploy.Prelude.{ℕ, ◌≤◌, ◌*◌, ◌≡◌, refl, List, [], ◌∷◌, arith}
use axropus_deploy.RateLimit.{Consume, decide, check_and_consume}
use axropus_deploy.RateLimit.Caps.{Applies, admitted, admitted_within_caps}

abbrev double : ℕ → ℕ
double n = n * 2

abbrev one_request : Consume
one_request = record {
  org_id = "o";
  request_inc = 1;
  token_inc = 10;
  rpm_limit = 1;
  tpm_limit = 100;
}

abbrev three : List (ℕ × Consume)
three = (600, one_request) ∷ (630, one_request) ∷ (659, one_request) ∷ (660, one_request) ∷ []

program : Unit {0}
unfolding decide check_and_consume admitted
program = tt

-- The third request of the minute is refused, and the next minute begins anew.
two_admitted : admitted double "o" 600 three [] ≡ (2, 20)
unfolding program
two_admitted = refl

admitted_within_caps_example :
    ((admitted double "o" 600 three []).0 ≤ 2) × ((admitted double "o" 600 three []).1 ≤ 200)
admitted_within_caps_example =
    admitted_within_caps double "o" 600 2 200 three
      (here, (here, (here, ((omega arith, λ e. (omega arith, omega arith)), tt))))
  where
    here : Applies double "o" 600 2 200 (600, one_request)
    here = (omega arith, λ e. (omega arith, omega arith))
