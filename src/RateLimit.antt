-- ===== src/RateLimit.antt =====
-- platform/gateway/rate_limit.py: the limiter on SQLite. `scale` is `int(limit * burst_factor)`, and
-- the time is in seconds.
pub mod Caps
mod Tests
use axropus_deploy.Prelude.{
  ℕ, ◌+◌, ◌-◌, ◌%◌, max, String, Bool, true, false, ◌&&◌, List, Option, none, some, str_eq, ltb,
  ◌==◌, if◌then◌else◌, first_of_list,
}
use axropus_deploy.Sql.{delete_where, upsert}

-- A row of `rate_limit_windows`
pub record Window : Type 0 where
  pub org_id : String
  pub window_epoch : ℕ
  pub request_count : ℕ
  pub token_count : ℕ

-- The rates are whole floats.
pub record RateLimitDecision : Type 0 where
  pub allowed : Bool
  pub reason : String
  pub org_request_rate : ℕ
  pub org_token_rate : ℕ
  pub rpm_cap : ℕ
  pub tpm_cap : ℕ
  pub window_epoch : ℕ

pub record Consume : Type 0 where
  pub org_id : String
  pub request_inc : ℕ
  pub token_inc : ℕ
  pub rpm_limit : ℕ
  pub tpm_limit : ℕ

-- `now - (now % 60)`
abbrev pub window_of : ℕ → ℕ
window_of now = now - now % 60

abbrev pub counts : String → ℕ → Window → Bool
counts org w r = str_eq r.org_id org && (r.window_epoch == w)

-- `window_epoch < window - 120`
abbrev pub expired : ℕ → Window → Bool
expired w r = ltb (r.window_epoch + 120) w

abbrev pub requests_of : Option Window → ℕ
requests_of none = 0
requests_of (some r) = r.request_count

abbrev pub tokens_of : Option Window → ℕ
tokens_of none = 0
tokens_of (some r) = r.token_count

abbrev pub decision : Bool → String → ℕ → ℕ → ℕ → ℕ → ℕ → RateLimitDecision
decision allowed reason req tok rpm_cap tpm_cap w = record {
  allowed = allowed;
  reason = reason;
  org_request_rate = req;
  org_token_rate = tok;
  rpm_cap = rpm_cap;
  tpm_cap = tpm_cap;
  window_epoch = w;
}

-- The INSERT … ON CONFLICT
abbrev pub store_counts : String → ℕ → ℕ → ℕ → List Window → List Window
store_counts org w req tok t =
    upsert (counts org w) (λ r. record r { request_count = req; token_count = tok })
      (record { org_id = org; window_epoch = w; request_count = req; token_count = tok }) t

-- From the counts that were read to the decision
unfoldable pub decide : Consume → ℕ → ℕ → ℕ → ℕ → ℕ → List Window → RateLimitDecision × List Window
decide c w rpm_cap tpm_cap req tok t =
    if ltb rpm_cap (req + c.request_inc)
    then (decision false "rpm_exceeded" req tok rpm_cap tpm_cap w, t)
    else if ltb tpm_cap (tok + c.token_inc)
    then (decision false "tpm_exceeded" req tok rpm_cap tpm_cap w, t)
    else (
      decision true "ok" (req + c.request_inc) (tok + c.token_inc) rpm_cap tpm_cap w,
      store_counts c.org_id w (req + c.request_inc) (tok + c.token_inc) t,
    )

unfoldable pub check_and_consume :
    (ℕ → ℕ) → ℕ → Consume → List Window → RateLimitDecision × List Window
unfolding decide
check_and_consume scale now c t =
    let w = window_of now in
    let kept = delete_where (expired w) t in
    let row = first_of_list (counts c.org_id w) kept in
    decide c w (max 1 (scale c.rpm_limit)) (max 1 (scale c.tpm_limit)) (requests_of row)
      (tokens_of row) kept
