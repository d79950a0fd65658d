-- ===== src/Ledger/Tests.antt =====
-- Runs of a small ledger, and the theorems at concrete inputs.
use axropus_deploy.Prelude.{
  eq_iff, arith, ◌≤◌, String, ◌≡◌, refl, List, [], ◌∷◌, Option, none, some, str_eq, count_if,
}
use axropus_deploy.Sql.{raise, value_error}
use axropus_deploy.Sql.Newest.{Found}
use axropus_deploy.Ledger.{
  Run, Snapshot, ApiKey, ReplayGovernance, SpecGovernance, Location, Db, init_db,
}
use axropus_deploy.Ledger.Jobs.{
  Json, NewJob, job_row, insert_job, get_job, find_job_by_fingerprint, find_job_by_idempotency,
  get_snapshot_for_job, get_latest_run, rank, update_status, insert_run, insert_snapshot,
}
use axropus_deploy.Ledger.Keys.{create_api_key, revoke_api_key, get_api_key_by_hash}
use axropus_deploy.Ledger.Governance.{
  upsert_replay_governance, get_replay_governance, upsert_spec_governance, get_spec_governance,
}
use axropus_deploy.Ledger.Locations.{
  in_partition, list_snapshot_locations, upsert_snapshot_location, mark_snapshot_location_used,
  prune_snapshot_locations,
}
use axropus_deploy.Ledger.Machine.{
  Write, job, status, run, api_key, revoke, location, write, write_all,
}
use axropus_deploy.Ledger.History.{Survives, write_all-Survives}
use axropus_deploy.Ledger.AppendOnly.{Grows, write_all-Logs}
use axropus_deploy.Ledger.Revocation.{revoked_for_good}
use axropus_deploy.Ledger.Newest.{
  find_job_by_fingerprint-NewestId, find_job_by_idempotency-NewestId, NewestId, Asked,
  latest_of_job,
}
use axropus_deploy.Ledger.RoundTrips.{as_submitted, get_job-insert_job, get_governance-upsert}
use axropus_deploy.Ledger.Pruning.{prune-AtMost}

-- JSON objects that are their own dump.
abbrev plain : Json String
plain = record { dumps = λ s. s; loads = λ s. s; hash = λ s. s }

abbrev new_job : String → String → NewJob String
new_job id at = record {
  job_id = id;
  created_at = at;
  jobspec = "{}";
  fingerprint = "{}";
  prompt_hash = "p";
  fingerprint_hash = "f";
  idempotency_key = some "k";
  status = "QUEUED";
  org_id = "o";
}

abbrev a_run : Run
a_run = record {
  run_id = "r1";
  job_id = "j1";
  org_id = "o";
  started_at = "t1";
  finished_at = "t2";
  exit_code = 0;
  metrics_path = "m";
  events_path = "e";
  output_path = "out";
  log_path = "log";
}

abbrev a_location : String → String → Location
a_location node at = record {
  fingerprint_hash = "f";
  snapshot_id = "s";
  org_id = "o";
  node_id = node;
  worker_id = none;
  snapshot_path = "p";
  size_bytes = 1;
  created_at = at;
  last_used_at = at;
}

abbrev writes : List (Write String)
writes =
    job (new_job "j1" "t1")
    ∷ job (new_job "j2" "t2")
    ∷ api_key "id" "hash" "o" "t1" 10 10 "[]"
    ∷ location (a_location "n1" "t1")
    ∷ location (a_location "n2" "t2")
    ∷ []

program : Unit {0}
unfolding write write_all insert_job get_job update_status insert_run insert_snapshot create_api_key
    revoke_api_key get_api_key_by_hash upsert_replay_governance get_replay_governance
    upsert_spec_governance get_spec_governance upsert_snapshot_location mark_snapshot_location_used
    prune_snapshot_locations list_snapshot_locations find_job_by_fingerprint find_job_by_idempotency
    get_snapshot_for_job get_latest_run rank
program = tt

abbrev db : Db
db = write_all plain writes init_db

-- A finished job is not queued again.
no_regression :
    update_status "j1" "QUEUED" (write_all plain (status "j1" "FAILED" ∷ []) db)
    ≡ raise (value_error "status regression not allowed")
unfolding program
no_regression = refl

newest_found : find_job_by_fingerprint "f" (some "o") db ≡ some "j2"
unfolding program
newest_found = refl

-- One location is to be kept, but the older copy of the snapshot on another node takes the newer
-- one with it.
pruned_all : list_snapshot_locations "f" "o" (prune_snapshot_locations 1 db).1 ≡ []
unfolding program
pruned_all = refl

write_all-Survives_example :
    Survives "j1"
      (job_row plain (new_job "j1" "t1"))
      (write_all plain (status "j1" "RUNNING" ∷ status "j1" "QUEUED" ∷ []) db)
unfolding program
write_all-Survives_example =
    write_all-Survives plain "j1" (status "j1" "RUNNING" ∷ status "j1" "QUEUED" ∷ []) db
      (job_row plain (new_job "j1" "t1")) refl

write_all-Logs_example :
    Grows db.runs (write_all plain (run a_run ∷ run a_run ∷ []) db).runs
    × Grows db.snapshots (write_all plain (run a_run ∷ run a_run ∷ []) db).snapshots
unfolding program
write_all-Logs_example = write_all-Logs plain (run a_run ∷ run a_run ∷ []) db

abbrev a_key : Option String → ApiKey
a_key at = record {
  key_id = "id";
  key_hash = "hash";
  org_id = "o";
  created_at = "t1";
  revoked_at = at;
  rate_limit_tpm = 10;
  rate_limit_rpm = 10;
  permissions_json = "[]";
}

revoked_for_good_example :
    get_api_key_by_hash "hash"
      (write_all plain (revoke "id" "t9" ∷ []) (revoke_api_key "id" "t5" db).1)
    ≡ some (a_key (some "t5"))
unfolding program
revoked_for_good_example =
    revoked_for_good plain "hash" "id" "t5" (a_key none) (revoke "id" "t9" ∷ []) db refl refl

find_job_by_fingerprint-NewestId_example :
    NewestId
      (λ j. (j.fingerprint_hash ≡ "f") × Asked (some "o") j)
      db.jobs
      (find_job_by_fingerprint "f" (some "o") db)
find_job_by_fingerprint-NewestId_example = find_job_by_fingerprint-NewestId "f" (some "o") db

find_job_by_idempotency-NewestId_example :
    NewestId
      (λ j. (j.idempotency_key ≡ some "k") × Asked none j)
      db.jobs
      (find_job_by_idempotency "k" none db)
find_job_by_idempotency-NewestId_example =
    find_job_by_idempotency-NewestId "k" none db (λ e. ground (arith, eq_iff "k" ""))

latest_of_job_example :
    Found
      (λ (s : Snapshot). str_eq s.job_id "j1")
      (λ s. s.created_at)
      db.snapshots
      (get_snapshot_for_job "j1" db)
    × Found (λ (r : Run). str_eq r.job_id "j1") (λ r. r.started_at) db.runs (get_latest_run "j1" db)
latest_of_job_example = latest_of_job "j1" db

get_job-insert_job_example :
    get_job plain "j3" (write_all plain (job (new_job "j3" "t3") ∷ []) db)
    ≡ some (as_submitted (new_job "j3" "t3"))
unfolding program
get_job-insert_job_example =
    get_job-insert_job plain (new_job "j3" "t3") db
      (write_all plain (job (new_job "j3" "t3") ∷ []) db) (λ o. refl) refl

abbrev a_replay : ReplayGovernance
a_replay = record {
  fingerprint_hash = "f";
  replay_disabled = 1;
  disabled_reason = some "roi";
  disabled_at = some "t1";
  cooldown_until = 9;
  negative_roi_streak = 3;
  corruption_detected = 0;
  restore_guard_disabled = 0;
  updated_at = "t1";
}

abbrev a_spec : SpecGovernance
a_spec = record {
  fingerprint_hash = "f";
  org_id = "o";
  spec_disabled = 0;
  reason = none;
  cooldown_until = 0;
  bad_accept_streak = 1;
  updated_at = "t1";
}

get_governance-upsert_example :
    (get_replay_governance "f" (upsert_replay_governance a_replay db) ≡ some a_replay)
    × (get_spec_governance "f" (upsert_spec_governance a_spec db) ≡ some a_spec)
get_governance-upsert_example = get_governance-upsert a_replay a_spec db

prune-AtMost_example :
    count_if (in_partition "f" "o") (prune_snapshot_locations 1 db).1.snapshot_locations ≤ 1
prune-AtMost_example = prune-AtMost "f" "o" 1 db refl
