-- ===== src/Ledger/Jobs.antt =====
-- platform/ledger/db.py: jobs, runs and snapshots. `J` is the type of JSON objects; `json.dumps`,
-- `json.loads` and the SHA-256 of the sorted dump are arguments.
use axropus_deploy.Prelude.{
  ℕ, ◌+◌, String, Bool, true, false, ◌&&◌, List, [], ◌∷◌, map, Option, none, some, str_eq, ltb,
  if◌then◌else◌, first_of_list, keep_if, take,
}
use axropus_deploy.Sql.{
  Result, ok, raise, value_error, map_ok, insert_row, update_where, latest_first, first_row,
}
use axropus_deploy.Ledger.{Job, Run, Snapshot, Db}

-- What `json` and `hashlib` compute.
pub record Json (J : Type 0) : Type 0 where
  pub dumps : J → String
  pub loads : String → J
  pub hash : J → String

abbrev pub status_order : List String
status_order = "QUEUED" ∷ "RUNNING" ∷ "SUCCEEDED" ∷ "FAILED" ∷ []

-- `STATUS_ORDER.index(s)`, `none` if the status is not there
abbrev pub index_of : String → List String → Option ℕ
index_of s [] = none
index_of s (x ∷ xs) =
    if str_eq x s then some 0 else elim (index_of s xs) [ none ↦ none | some i ↦ some (i + 1) ]

unfoldable pub rank : String → Option ℕ
rank s = index_of s status_order

abbrev pub has_id : String → Job → Bool
has_id id j = str_eq j.job_id id

-- `SELECT … FROM jobs WHERE job_id=?`
abbrev pub job_of : String → Db → Option Job
job_of id db = first_of_list (has_id id) db.jobs

pub record NewJob (J : Type 0) : Type 0 where
  pub job_id : String
  pub created_at : String
  pub jobspec : J
  pub fingerprint : J
  pub prompt_hash : String
  pub fingerprint_hash : String
  pub idempotency_key : Option String
  pub status : String
  pub org_id : String

pub record JobView (J : Type 0) : Type 0 where
  pub job_id : String
  pub created_at : String
  pub org_id : String
  pub jobspec : J
  pub fingerprint : J
  pub prompt_hash : String
  pub fingerprint_hash : String
  pub idempotency_key : Option String
  pub status : String

module _ {J : Type 0} (json : Json J) where
  abbrev pub job_row : NewJob J → Job
  job_row n = record {
    job_id = n.job_id;
    created_at = n.created_at;
    org_id = n.org_id;
    jobspec_json = json.dumps n.jobspec;
    fingerprint_json = json.dumps n.fingerprint;
    prompt_hash = n.prompt_hash;
    fingerprint_hash = n.fingerprint_hash;
    idempotency_key = n.idempotency_key;
    status = n.status;
    immutable_hash = json.hash n.jobspec;
  }

  unfoldable pub insert_job : NewJob J → Db → Result Db
  insert_job n db =
      map_ok (λ t. record db { jobs = t }) (insert_row (has_id n.job_id) (job_row n) db.jobs)

  abbrev pub job_view : Job → JobView J
  job_view j = record {
    job_id = j.job_id;
    created_at = j.created_at;
    org_id = j.org_id;
    jobspec = json.loads j.jobspec_json;
    fingerprint = json.loads j.fingerprint_json;
    prompt_hash = j.prompt_hash;
    fingerprint_hash = j.fingerprint_hash;
    idempotency_key = j.idempotency_key;
    status = j.status;
  }

  unfoldable pub get_job : String → Db → Option (JobView J)
  get_job id db = elim (job_of id db) [ none ↦ none | some j ↦ some (job_view j) ]

-- `conn.execute("UPDATE jobs SET status=? WHERE job_id=?")`
abbrev pub set_status : String → String → Db → Db
set_status id s db = record db {
  jobs = update_where (has_id id) (λ j. record j { status = s }) db.jobs;
}

-- `current` is the job's status, `n` the place of the new one in STATUS_ORDER and the last argument
-- that of the current one.
unfoldable pub move_status : String → String → ℕ → Db → String → Option ℕ → Result Db
move_status id new n db current none =
    if str_eq current new then ok db else raise (value_error "invalid current status")
move_status id new n db current (some c) =
    if str_eq current new
    then ok db
    else if ltb n c
    then raise (value_error "status regression not allowed")
    else ok (set_status id new db)

unfoldable pub status_of_job : String → String → ℕ → Db → Option Job → Result Db
unfolding move_status
status_of_job id new n db none = raise (value_error "job not found")
status_of_job id new n db (some j) = move_status id new n db j.status (rank j.status)

unfoldable pub checked_status : String → String → Db → Option ℕ → Result Db
unfolding status_of_job
checked_status id new db none = raise (value_error "invalid status")
checked_status id new db (some n) = status_of_job id new n db (job_of id db)

unfoldable pub update_status : String → String → Db → Result Db
unfolding checked_status
update_status id new db = checked_status id new db (rank new)

-- The FOREIGN KEY clauses of `runs` and `snapshots` are not enforced: SQLite checks them only after
-- `PRAGMA foreign_keys=ON`, which the source does not send.
unfoldable pub insert_run : Run → Db → Result Db
insert_run r db =
    map_ok (λ t. record db { runs = t })
      (insert_row (λ (x : Run). str_eq x.run_id r.run_id) r db.runs)

unfoldable pub insert_snapshot : Snapshot → Db → Result Db
insert_snapshot s db =
    map_ok (λ t. record db { snapshots = t })
      (insert_row (λ (x : Snapshot). str_eq x.snapshot_id s.snapshot_id) s db.snapshots)

-- The filter of an optional organisation: `if org_id:` leaves out `None` and the empty text.
abbrev pub in_org : Option String → String → Bool
in_org none org = true
in_org (some o) org = if str_eq o "" then true else str_eq org o

abbrev pub job_id_of : Option Job → Option String
job_id_of none = none
job_id_of (some j) = some j.job_id

abbrev pub created : Job → String
created j = j.created_at

abbrev pub by_fingerprint : String → Option String → Job → Bool
by_fingerprint fp org j = str_eq j.fingerprint_hash fp && in_org org j.org_id

unfoldable pub find_job_by_fingerprint : String → Option String → Db → Option String
find_job_by_fingerprint fp org db =
    job_id_of (first_row (latest_first created (keep_if (by_fingerprint fp org) db.jobs)))

abbrev pub key_is : String → Option String → Bool
key_is k none = false
key_is k (some j) = str_eq j k

abbrev pub by_idempotency : String → Option String → Job → Bool
by_idempotency k org j = key_is k j.idempotency_key && in_org org j.org_id

unfoldable pub find_job_by_idempotency : String → Option String → Db → Option String
find_job_by_idempotency k org db =
    if str_eq k ""
    then none
    else job_id_of (first_row (latest_first created (keep_if (by_idempotency k org) db.jobs)))

unfoldable pub get_snapshot_for_job : String → Db → Option Snapshot
get_snapshot_for_job id db = first_row (
    latest_first (λ (s : Snapshot). s.created_at)
      (keep_if (λ (s : Snapshot). str_eq s.job_id id) db.snapshots))

unfoldable pub list_jobs : ℕ → Option String → Db → List (String × String × String × String)
list_jobs limit org db =
    map (λ (j : Job). (j.job_id, j.created_at, j.status, j.org_id))
      (take limit (latest_first created (keep_if (λ (j : Job). in_org org j.org_id) db.jobs)))

unfoldable pub get_latest_run : String → Db → Option Run
get_latest_run id db =
    first_row
      (latest_first (λ (r : Run). r.started_at) (keep_if (λ (r : Run). str_eq r.job_id id) db.runs))
