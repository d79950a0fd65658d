-- ===== src/Ledger.antt =====
-- platform/ledger/db.py: the tables of the ledger. Each function of the source is one transaction
-- on the database `Db`; one that raises leaves it unchanged. Times of cooldowns are numbers.
pub mod Jobs
pub mod Keys
pub mod Governance
pub mod Locations
pub mod Machine
pub mod History
pub mod AppendOnly
pub mod Newest
pub mod RoundTrips
pub mod Revocation
pub mod Pruning
mod Tests
use axropus_deploy.Prelude.{ℕ, String, List, [], Option}

-- A row of `jobs`. The JSON columns hold text.
pub record Job : Type 0 where
  pub job_id : String
  pub created_at : String
  pub org_id : String
  pub jobspec_json : String
  pub fingerprint_json : String
  pub prompt_hash : String
  pub fingerprint_hash : String
  pub idempotency_key : Option String
  pub status : String
  pub immutable_hash : String

-- A row of `runs`.
pub record Run : Type 0 where
  pub run_id : String
  pub job_id : String
  pub org_id : String
  pub started_at : String
  pub finished_at : String
  pub exit_code : ℕ
  pub metrics_path : String
  pub events_path : String
  pub output_path : String
  pub log_path : String

pub record Snapshot : Type 0 where
  pub snapshot_id : String
  pub job_id : String
  pub org_id : String
  pub fingerprint_hash : String
  pub snapshot_path : String
  pub created_at : String

pub record ApiKey : Type 0 where
  pub key_id : String
  pub key_hash : String
  pub org_id : String
  pub created_at : String
  pub revoked_at : Option String
  pub rate_limit_tpm : ℕ
  pub rate_limit_rpm : ℕ
  pub permissions_json : String

pub record ReplayGovernance : Type 0 where
  pub fingerprint_hash : String
  pub replay_disabled : ℕ
  pub disabled_reason : Option String
  pub disabled_at : Option String
  pub cooldown_until : ℕ
  pub negative_roi_streak : ℕ
  pub corruption_detected : ℕ
  pub restore_guard_disabled : ℕ
  pub updated_at : String

pub record SpecGovernance : Type 0 where
  pub fingerprint_hash : String
  pub org_id : String
  pub spec_disabled : ℕ
  pub reason : Option String
  pub cooldown_until : ℕ
  pub bad_accept_streak : ℕ
  pub updated_at : String

pub record Location : Type 0 where
  pub fingerprint_hash : String
  pub snapshot_id : String
  pub org_id : String
  pub node_id : String
  pub worker_id : Option String
  pub snapshot_path : String
  pub size_bytes : ℕ
  pub created_at : String
  pub last_used_at : String

pub record Db : Type 0 where
  pub jobs : List Job
  pub runs : List Run
  pub snapshots : List Snapshot
  pub api_keys : List ApiKey
  pub replay_governance : List ReplayGovernance
  pub spec_governance : List SpecGovernance
  pub snapshot_locations : List Location

-- `init_db` on a new file
abbrev pub init_db : Db
init_db = record {
  jobs = [];
  runs = [];
  snapshots = [];
  api_keys = [];
  replay_governance = [];
  spec_governance = [];
  snapshot_locations = [];
}
