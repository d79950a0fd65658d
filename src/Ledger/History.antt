-- ===== src/Ledger/History.antt =====
-- platform/ledger/db.py: the row of a job under any writes.
use axropus_deploy.Prelude.{
  ℕ, ◌≤◌, String, ◌≡◌, refl, sym, ap, inl, inr, Bool, true, List, [], ◌∷◌, ◌++◌, Option, none, some,
  arith, str_eq, eq_iff, ltb, if◌then◌else◌, any_of, Bool-cases, ◌∙◌,
}
use axropus_deploy.Sql.{map_ok, insert_row}
use axropus_deploy.Sql.Laws.{first_of_list-append, first_of_list-update_where, first_of_list-holds}
use axropus_deploy.Ledger.{Job, Db}
use axropus_deploy.Ledger.Jobs.{
  Json, NewJob, rank, has_id, job_of, job_row, insert_job, set_status, move_status, status_of_job,
  checked_status, update_status, insert_run, insert_snapshot,
}
use axropus_deploy.Ledger.Keys.{create_api_key, revoke_api_key}
use axropus_deploy.Ledger.Governance.{upsert_replay_governance, upsert_spec_governance}
use axropus_deploy.Ledger.Locations.{
  upsert_snapshot_location, mark_snapshot_location_used, prune_snapshot_locations,
}
use axropus_deploy.Ledger.Machine.{
  Write, job, status, run, snapshot, api_key, prune, or_same, or_same-insert_row, write, write_all,
}

-- The status stays, or moves to one that does not stand before it in STATUS_ORDER.
pub data Forward (s t : String) : Type 0 where
  same : s ≡ t → Forward s t
  later : (i j : ℕ) → rank s ≡ some i → rank t ≡ some j → i ≤ j → Forward s t

-- `k` is `j` with at most its status moved forward.
pub record Continues (j k : Job) : Type 0 where
  pub job_id : k.job_id ≡ j.job_id
  pub created_at : k.created_at ≡ j.created_at
  pub org_id : k.org_id ≡ j.org_id
  pub jobspec_json : k.jobspec_json ≡ j.jobspec_json
  pub fingerprint_json : k.fingerprint_json ≡ j.fingerprint_json
  pub prompt_hash : k.prompt_hash ≡ j.prompt_hash
  pub fingerprint_hash : k.fingerprint_hash ≡ j.fingerprint_hash
  pub idempotency_key : k.idempotency_key ≡ j.idempotency_key
  pub immutable_hash : k.immutable_hash ≡ j.immutable_hash
  pub status : Forward j.status k.status

Forward-trans : {s t u : String} → Forward s t → Forward t u → Forward s u
Forward-trans (same e) (same f) = same (e ∙ f)
Forward-trans (same e) (later i j p q lt) = later i j (ap rank e ∙ p) q lt
Forward-trans (later i j p q lt) (same f) = later i j p (ap rank (sym f) ∙ q) lt
Forward-trans (later i j p q lt) (later k l r s lt') =
    let mid : j ≡ k = ground arith in later i l p s (omega arith)

Continues-refl : (j : Job) → Continues j j
Continues-refl j = record {
  job_id = refl;
  created_at = refl;
  org_id = refl;
  jobspec_json = refl;
  fingerprint_json = refl;
  prompt_hash = refl;
  fingerprint_hash = refl;
  idempotency_key = refl;
  immutable_hash = refl;
  status = same refl;
}

Continues-trans : {i j k : Job} → Continues i j → Continues j k → Continues i k
Continues-trans a b = record {
  job_id = b.job_id ∙ a.job_id;
  created_at = b.created_at ∙ a.created_at;
  org_id = b.org_id ∙ a.org_id;
  jobspec_json = b.jobspec_json ∙ a.jobspec_json;
  fingerprint_json = b.fingerprint_json ∙ a.fingerprint_json;
  prompt_hash = b.prompt_hash ∙ a.prompt_hash;
  fingerprint_hash = b.fingerprint_hash ∙ a.fingerprint_hash;
  idempotency_key = b.idempotency_key ∙ a.idempotency_key;
  immutable_hash = b.immutable_hash ∙ a.immutable_hash;
  status = Forward-trans a.status b.status;
}

-- The job is still there, continued.
abbrev pub Survives : String → Job → Db → Type 0
Survives id j db = (k : Job) × (job_of id db ≡ some k) × Continues j k

unmoved : (id : String) (j : Job) (db : Db) → job_of id db ≡ some j → Survives id j db
unmoved id j db found = (j, found, Continues-refl j)

Continues-status :
    (j : Job) (new : String) → Forward j.status new → Continues j (record j { status = new })
Continues-status j new forward = record {
  job_id = refl;
  created_at = refl;
  org_id = refl;
  jobspec_json = refl;
  fingerprint_json = refl;
  prompt_hash = refl;
  fingerprint_hash = refl;
  idempotency_key = refl;
  immutable_hash = refl;
  status = forward;
}

pub job_of-set_status :
    (id at new : String) (j : Job) (db : Db)
    → job_of id db ≡ some j
    → job_of id (set_status at new db)
      ≡ some (if str_eq j.job_id at then record j { status = new } else j)
job_of-set_status id at new j db found =
    first_of_list-update_where (has_id at) (has_id id) (λ k. record k { status = new }) db.jobs j
      (λ x. refl) found

moved-Survives :
    (id at new : String) (j : Job) (db : Db)
    → job_of id db ≡ some j
    → (str_eq j.job_id at ≡ true → Forward j.status new)
    → Survives id j (set_status at new db)
moved-Survives id at new j db found forward = elim (Bool-cases (str_eq j.job_id at)) [
  | inl here ↦ (
    record j { status = new },
    job_of-set_status id at new j db found ∙ rw here,
    Continues-status j new (forward here),
  )
  | inr there ↦ (j, job_of-set_status id at new j db found ∙ rw there, Continues-refl j)
]

-- The last tests of `update_status`.
move-Survives :
    (id at new current : String) (j : Job) (db : Db) (n : ℕ) (o : Option ℕ)
    → job_of id db ≡ some j
    → rank new ≡ some n
    → (str_eq j.job_id at ≡ true → rank j.status ≡ o)
    → Survives id j (or_same db (move_status at new n db current o))
unfolding move_status
move-Survives id at new current j db n none found rn rc = elim (Bool-cases (str_eq current new)) [
  | inl e ↦ rw e (unmoved id j db found)
  | inr d ↦ rw d (unmoved id j db found)
]
move-Survives id at new current j db n (some c) found rn rc =
    elim (Bool-cases (str_eq current new)) [
      | inl e ↦ rw e (unmoved id j db found)
      | inr d ↦ rw d (elim (Bool-cases (ltb n c)) [
        | inl back ↦ rw back (unmoved id j db found)
        | inr onward ↦
            rw onward
              (moved-Survives id at new j db found (λ here. later c n (rc here) rn (ground arith)))
      ])
    ]

-- The row that `update_status` reads is the job, if it has the job's key.
target_same :
    (id at : String) (j : Job) (db : Db)
    → job_of id db ≡ some j
    → str_eq j.job_id at ≡ true
    → job_of at db ≡ some j
target_same id at j db found here =
    let mine : j.job_id ≡ id =
      (eq_iff j.job_id id).0 (first_of_list-holds (has_id id) db.jobs j found) in
    let e : id ≡ at = sym mine ∙ (eq_iff j.job_id at).0 here in rw (← e) found

status_of-Survives :
    (id at new : String) (j : Job) (db : Db) (n : ℕ) (o : Option Job)
    → job_of id db ≡ some j
    → rank new ≡ some n
    → job_of at db ≡ o
    → Survives id j (or_same db (status_of_job at new n db o))
unfolding status_of_job
status_of-Survives id at new j db n none found rn target = unmoved id j db found
status_of-Survives id at new j db n (some k) found rn target =
    move-Survives id at new k.status j db n (rank k.status) found rn
      (λ here. let it : k ≡ j = ground (arith, target_same id at j db found here) in rw it)

checked-Survives :
    (id at new : String) (j : Job) (db : Db) (o : Option ℕ)
    → job_of id db ≡ some j
    → rank new ≡ o
    → Survives id j (or_same db (checked_status at new db o))
unfolding checked_status
checked-Survives id at new j db none found rn = unmoved id j db found
checked-Survives id at new j db (some n) found rn =
    status_of-Survives id at new j db n (job_of at db) found rn refl

insert_job-Survives :
    {J : Type 0} (json : Json J) (id : String) (j : Job) (n : NewJob J) (db : Db)
    → job_of id db ≡ some j
    → Survives id j (or_same db (insert_job json n db))
unfolding insert_job
insert_job-Survives json id j n db found =
    rw
      (or_same-insert_row (has_id n.job_id) (job_row json n) db.jobs (λ t. record db { jobs = t })
        db)
      (elim (Bool-cases (any_of (has_id n.job_id) db.jobs)) [
        | inl taken ↦ rw taken (unmoved id j db found)
        | inr fresh ↦ rw fresh (
          j,
          first_of_list-append (has_id id) db.jobs (job_row json n ∷ []) j found,
          Continues-refl j,
        )
      ])

-- An INSERT into another table leaves the jobs alone.
other_table :
    {R : Type 0} (conflicts : R → Bool) (row : R) (t : List R) (f : List R → Db) (db : Db)
    → ((u : List R) → (f u).jobs ≡ db.jobs)
    → (or_same db (map_ok f (insert_row conflicts row t))).jobs ≡ db.jobs
other_table conflicts row t f db same_jobs =
    rw (or_same-insert_row conflicts row t f db) (ground (arith, same_jobs (t ++ row ∷ [])))

-- All writes but those of jobs and statuses.
jobs-write :
    (id : String) (j : Job) (db db' : Db)
    → db'.jobs ≡ db.jobs
    → job_of id db ≡ some j
    → Survives id j db'
jobs-write id j db db' e found = (j, rw e found, Continues-refl j)

write-Survives :
    {J : Type 0} (json : Json J) (id : String) (j : Job) (w : Write J) (db : Db)
    → job_of id db ≡ some j
    → Survives id j (write json w db)
unfolding write update_status insert_run insert_snapshot create_api_key revoke_api_key
    upsert_replay_governance upsert_spec_governance upsert_snapshot_location
    mark_snapshot_location_used prune_snapshot_locations
write-Survives json id j (job n) db found = insert_job-Survives json id j n db found
write-Survives json id j (status at new) db found =
    checked-Survives id at new j db (rank new) found refl
write-Survives json id j (run r) db found =
    jobs-write id j db (write json (run r) db)
      (other_table _ r db.runs (λ t. record db { runs = t }) db (λ u. refl)) found
write-Survives json id j (snapshot s) db found =
    jobs-write id j db (write json (snapshot s) db)
      (other_table _ s db.snapshots (λ t. record db { snapshots = t }) db (λ u. refl)) found
write-Survives json id j (api_key key_id hash org at tpm rpm permissions) db found =
    jobs-write id j db (write json (api_key key_id hash org at tpm rpm permissions) db)
      (other_table _ _ db.api_keys (λ t. record db { api_keys = t }) db (λ u. refl)) found
write-Survives json id j (prune n) db found =
    jobs-write id j db (write json (prune n) db) (ground arith) found
write-Survives json id j w db found = jobs-write id j db (write json w db) refl found

-- After any writes a job that was there is there, its row unchanged but for the status, which is
-- what it was or stands no earlier in STATUS_ORDER.
pub write_all-Survives :
    {J : Type 0} (json : Json J) (id : String) (ws : List (Write J)) (db : Db) (j : Job)
    → job_of id db ≡ some j
    → Survives id j (write_all json ws db)
unfolding write_all
write_all-Survives json id [] db j found = unmoved id j db found
write_all-Survives json id (w ∷ ws) db j found =
    let (k, there, first) = write-Survives json id j w db found in
    let (l, at_end, rest) = write_all-Survives json id ws (write json w db) k there in
    (l, at_end, Continues-trans first rest)
