-- ===== src/RequestStores/Tests.antt =====
-- Runs of the two stores, and the theorems at concrete inputs.
use axropus_deploy.Prelude.{ℕ, String, ◌≡◌, refl, List, [], ◌∷◌, none, some}
use axropus_deploy.RequestStores.{DecodeKey, DecodeResult, get_result, get_path, same_key}
use axropus_deploy.Sql.Keyed.{find}
use axropus_deploy.RequestStores.Refinement.{
  set_results, set_paths, last_result, results_refine, paths_refine,
}

abbrev key : String → DecodeKey
key prompt = record {
  org_id = "o";
  backend_id = "b";
  fingerprint_hash = "f";
  prompt_hash = prompt;
  sampling_hash = "s";
}

abbrev result : String → DecodeResult ℕ
result text = record {
  output_text = text;
  tokens_out = 1;
  decode_ms = 2;
  total_ms = 3;
  updated_at = 4;
}

abbrev calls : List (DecodeKey × DecodeResult ℕ)
calls = (key "p", result "x") ∷ (key "q", result "y") ∷ (key "p", result "z") ∷ []

last_lem : last_result (key "p") calls none ≡ some (result "z")
unfolding same_key
last_lem = refl

results_refine_example : get_result (key "p") (set_results calls []) ≡ some (result "z")
unfolding same_key get_result find
results_refine_example = results_refine (key "p") calls []

abbrev paths : List (ℕ × String × String)
paths = (1, "f", "/a") ∷ (2, "g", "/b") ∷ (3, "f", "/c") ∷ []

paths_refine_example : get_path "f" (set_paths paths []) ≡ some "/c"
unfolding get_path find
paths_refine_example = paths_refine "f" paths []
