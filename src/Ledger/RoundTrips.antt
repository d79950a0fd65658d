-- ===== src/Ledger/RoundTrips.antt =====
-- What a row that was written reads as.
use axropus_deploy.Prelude.{
  String, ◌≡◌, refl, sym, ap, inl, inr, ◌∙◌, true, false, List, [], ◌∷◌, ◌++◌, some, arith, str_eq,
  any_of, first_of_list, Bool-cases, eq_iff, eq_refl,
}
use axropus_deploy.Sql.{Result, ok, raise, upsert, update_where}
use axropus_deploy.Sql.Laws.{first_of_list-append_none, first_of_list-any_of}
use axropus_deploy.Ledger.{Db, ReplayGovernance, SpecGovernance}
use axropus_deploy.Ledger.Jobs.{Json, NewJob, JobView, has_id, job_row, insert_job, get_job}
use axropus_deploy.Ledger.Governance.{
  upsert_replay_governance, get_replay_governance, upsert_spec_governance, get_spec_governance,
}

-- The job as it was handed in.
abbrev pub as_submitted : {J : Type 0} → NewJob J → JobView J
as_submitted n = record {
  job_id = n.job_id;
  created_at = n.created_at;
  org_id = n.org_id;
  jobspec = n.jobspec;
  fingerprint = n.fingerprint;
  prompt_hash = n.prompt_hash;
  fingerprint_hash = n.fingerprint_hash;
  idempotency_key = n.idempotency_key;
  status = n.status;
}

inserted :
    {J : Type 0} (json : Json J) (n : NewJob J) (db : Db)
    → any_of (has_id n.job_id) db.jobs ≡ false
    → first_of_list (has_id n.job_id) (db.jobs ++ job_row json n ∷ []) ≡ some (job_row json n)
inserted json n db fresh =
    first_of_list-append_none (has_id n.job_id) db.jobs (job_row json n ∷ [])
      (first_of_list-any_of (has_id n.job_id) db.jobs fresh)
    ∙ rw (eq_refl n.job_id) refl

read_back :
    {J : Type 0} (json : Json J) (n : NewJob J) (db : Db)
    → ((o : J) → json.loads (json.dumps o) ≡ o)
    → any_of (has_id n.job_id) db.jobs ≡ false
    → get_job json n.job_id (record db { jobs = db.jobs ++ job_row json n ∷ [] })
      ≡ some (as_submitted n)
unfolding get_job
read_back json n db parses fresh =
    rw (inserted json n db fresh, get_job, parses n.jobspec, parses n.fingerprint) refl

abbrev result_or : Db → Result Db → Db
result_or db (ok d) = d
result_or db (raise e) = db

-- An insertion that succeeds makes the job readable as it was handed in, if parsing undoes the
-- dump of a JSON object.
pub get_job-insert_job :
    {J : Type 0} (json : Json J) (n : NewJob J) (db db2 : Db)
    → ((o : J) → json.loads (json.dumps o) ≡ o)
    → insert_job json n db ≡ ok db2
    → get_job json n.job_id db2 ≡ some (as_submitted n)
unfolding insert_job get_job
get_job-insert_job json n db db2 parses done =
    elim (Bool-cases (any_of (has_id n.job_id) db.jobs)) [
      | inl taken ↦ absurd (ground arith)
      | inr fresh ↦
          ap (get_job json n.job_id) (sym (ap (result_or db) (rw fresh at done)))
          ∙ read_back json n db parses fresh
    ]

module _ {R : Type 0} (key : R → String) (f : R → R) (row : R) where
  -- The row that a lookup by a key finds after an upsert.
  first_of_list-update :
      (same : (r : R) → str_eq (key r) (key row) ≡ true → f r ≡ row) (t : List R)
      → any_of (λ r. str_eq (key r) (key row)) t ≡ true
      → first_of_list
          (λ r. str_eq (key r) (key row))
          (update_where (λ r. str_eq (key r) (key row)) f t)
        ≡ some row
  first_of_list-update same [] some_row = absurd (ground arith)
  first_of_list-update same (r ∷ t) some_row = elim (Bool-cases (str_eq (key r) (key row))) [
    | inl e ↦ rw (e, same r e, eq_refl (key row)) refl
    | inr e ↦ rw (e, e) (first_of_list-update same t (rw e at some_row))
  ]

  first_of_list-upsert :
      (same : (r : R) → str_eq (key r) (key row) ≡ true → f r ≡ row) (t : List R)
      → first_of_list
          (λ r. str_eq (key r) (key row))
          (upsert (λ r. str_eq (key r) (key row)) f row t)
        ≡ some row
  first_of_list-upsert same t = elim (Bool-cases (any_of (λ r. str_eq (key r) (key row)) t)) [
    | inl e ↦ rw e (first_of_list-update same t e)
    | inr e ↦ rw e (
        first_of_list-append_none (λ r. str_eq (key r) (key row)) t (row ∷ [])
          (first_of_list-any_of (λ r. str_eq (key r) (key row)) t e)
        ∙ rw (eq_refl (key row)) refl)
  ]

-- A governance row that was written is the one that is read, for replay and for speculative
-- decoding, whether a row was there before or not.
pub get_governance-upsert :
    (g : ReplayGovernance) (s : SpecGovernance) (db : Db)
    → (get_replay_governance g.fingerprint_hash (upsert_replay_governance g db) ≡ some g)
      × (get_spec_governance s.fingerprint_hash (upsert_spec_governance s db) ≡ some s)
unfolding get_replay_governance upsert_replay_governance get_spec_governance upsert_spec_governance
get_governance-upsert g s db = (
  first_of_list-upsert (λ (r : ReplayGovernance). r.fingerprint_hash) _ g
      (λ r e.
        ap (λ h. record g { fingerprint_hash = h })
          ((eq_iff r.fingerprint_hash g.fingerprint_hash).0 e))
      db.replay_governance,
  first_of_list-upsert (λ (r : SpecGovernance). r.fingerprint_hash) _ s
      (λ r e.
        ap (λ h. record s { fingerprint_hash = h })
          ((eq_iff r.fingerprint_hash s.fingerprint_hash).0 e))
      db.spec_governance,
)
