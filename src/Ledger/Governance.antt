-- ===== src/Ledger/Governance.antt =====
-- platform/ledger/db.py: the governance rows of replay and of speculative decoding.
use axropus_deploy.Prelude.{ℕ, String, Bool, List, Option, str_eq, first_of_list, keep_if, take}
use axropus_deploy.Sql.{upsert, latest_first}
use axropus_deploy.Ledger.{ReplayGovernance, SpecGovernance, Db}
use axropus_deploy.Ledger.Jobs.{in_org}

abbrev pub replay_for : String → ReplayGovernance → Bool
replay_for fp g = str_eq g.fingerprint_hash fp

unfoldable pub upsert_replay_governance : ReplayGovernance → Db → Db
upsert_replay_governance g db = record db {
  replay_governance =
      upsert (replay_for g.fingerprint_hash)
        (λ r. record r {
          replay_disabled = g.replay_disabled;
          disabled_reason = g.disabled_reason;
          disabled_at = g.disabled_at;
          cooldown_until = g.cooldown_until;
          negative_roi_streak = g.negative_roi_streak;
          corruption_detected = g.corruption_detected;
          restore_guard_disabled = g.restore_guard_disabled;
          updated_at = g.updated_at;
        })
        g db.replay_governance;
}

unfoldable pub get_replay_governance : String → Db → Option ReplayGovernance
get_replay_governance fp db = first_of_list (replay_for fp) db.replay_governance

unfoldable pub list_replay_governance : ℕ → Db → List ReplayGovernance
list_replay_governance limit db =
    take limit (latest_first (λ (g : ReplayGovernance). g.updated_at) db.replay_governance)

abbrev pub spec_for : String → SpecGovernance → Bool
spec_for fp g = str_eq g.fingerprint_hash fp

unfoldable pub upsert_spec_governance : SpecGovernance → Db → Db
upsert_spec_governance g db = record db {
  spec_governance =
      upsert (spec_for g.fingerprint_hash)
        (λ r. record r {
          org_id = g.org_id;
          spec_disabled = g.spec_disabled;
          reason = g.reason;
          cooldown_until = g.cooldown_until;
          bad_accept_streak = g.bad_accept_streak;
          updated_at = g.updated_at;
        })
        g db.spec_governance;
}

unfoldable pub get_spec_governance : String → Db → Option SpecGovernance
get_spec_governance fp db = first_of_list (spec_for fp) db.spec_governance

unfoldable pub list_spec_governance : ℕ → Option String → Db → List SpecGovernance
list_spec_governance limit org db = take limit (
    latest_first (λ (g : SpecGovernance). g.updated_at)
      (keep_if (λ (g : SpecGovernance). in_org org g.org_id) db.spec_governance))
