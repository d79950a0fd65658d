-- ===== src/Ledger/Newest.antt =====
-- What the lookups by ORDER BY … DESC LIMIT 1 find.
use axropus_deploy.Prelude.{
  String, ◌≡◌, ◌≢◌, ◌↔◌, ◌⊎◌, refl, inl, inr, Bool, true, false, List, All, Option, none, some,
  str_eq, eq_iff, text_le, arith, Bool-cases,
}
use axropus_deploy.Sql.Newest.{Found, Occurs, All-map, first_row-latest_first}
use axropus_deploy.Ledger.{Job, Run, Snapshot, Db}
use axropus_deploy.Ledger.Jobs.{
  find_job_by_fingerprint, by_fingerprint, find_job_by_idempotency, by_idempotency, created,
  job_id_of, get_snapshot_for_job, get_latest_run, in_org, key_is,
}

-- A job of the organisation that is asked for; without one, or with the empty text, any job
abbrev pub Asked : Option String → Job → Type 0
Asked none j = Unit
Asked (some o) j = (o ≡ "") ⊎ (j.org_id ≡ o)

-- The answer `id`, for jobs with the property `P`: the identifier of one of them that none of them was
-- created later than, or nothing, if there is no such job
abbrev pub NewestId : (Job → Type 0) → List Job → Option String → Type 0
NewestId P jobs none = All (λ j. ¬ P j) jobs
NewestId P jobs (some id) =
    (j : Job) × Occurs j jobs
    × P j
    × (j.job_id ≡ id)
    × All (λ k. P k → text_le k.created_at j.created_at ≡ true) jobs

in_org-Asked : (org : Option String) (j : Job) → (in_org org j.org_id ≡ true) ↔ Asked org j
in_org-Asked none j = ((λ h. tt), (λ h. refl))
in_org-Asked (some o) j = (
  (λ h. elim (Bool-cases (str_eq o "")) [
    | inl e ↦ inl ((eq_iff o "").0 e)
    | inr e ↦ inr ((eq_iff j.org_id o).0 (rw e at h))
  ]),
  (λ h. ground (arith, eq_iff o "", eq_iff j.org_id o)),
)

-- A filter that decides `P` finds what `NewestId` says.
Found-NewestId :
    (P : Job → Type 0) (p : Job → Bool) (jobs : List Job) (o : Option Job)
    → ((j : Job) → (p j ≡ true) ↔ P j)
    → Found p created jobs o
    → NewestId P jobs (job_id_of o)
Found-NewestId P p jobs none decides h =
    All-map jobs (λ j no yes. absurd (true_not_false ((decides j).1 yes) no)) h
  where
    true_not_false : {b : Bool} → b ≡ true → b ≡ false → ⊥
    true_not_false h k = ground arith
Found-NewestId P p jobs (some j) decides (here, passes, newest) =
    (j, here, (decides j).0 passes, refl, All-map jobs (λ k h y. h ((decides k).1 y)) newest)

-- The lookup by fingerprint gives the identifier of a job with that fingerprint in the organisation
-- that is asked for, such that no other such job was created later; it gives nothing only if there
-- is no such job.
pub find_job_by_fingerprint-NewestId :
    (fp : String) (org : Option String) (db : Db)
    → NewestId
        (λ j. (j.fingerprint_hash ≡ fp) × Asked org j)
        db.jobs
        (find_job_by_fingerprint fp org db)
unfolding find_job_by_fingerprint
find_job_by_fingerprint-NewestId fp org db =
    Found-NewestId _ (by_fingerprint fp org) db.jobs _
      (λ j. (
        (λ h.
            (ground (arith, eq_iff j.fingerprint_hash fp), (in_org-Asked org j).0 (ground arith))),
        (λ h.
            let same : str_eq j.fingerprint_hash fp ≡ true = (eq_iff j.fingerprint_hash fp).1 h.0 in
            rw (same, (in_org-Asked org j).1 h.1)),
      ))
      (first_row-latest_first (by_fingerprint fp org) created db.jobs)

-- The lookup by a key of idempotency that is not the empty text gives the identifier of a job with
-- that key in the organisation that is asked for, such that no other such job was created later; it
-- gives nothing only if there is no such job.
pub find_job_by_idempotency-NewestId :
    (k : String) (org : Option String) (db : Db)
    → k ≢ ""
    → NewestId
        (λ j. (j.idempotency_key ≡ some k) × Asked org j)
        db.jobs
        (find_job_by_idempotency k org db)
unfolding find_job_by_idempotency
find_job_by_idempotency-NewestId k org db given = elim (Bool-cases (str_eq k "")) [
  | inl e ↦ absurd (given ((eq_iff k "").0 e))
  | inr e ↦ rw e (
      Found-NewestId _ (by_idempotency k org) db.jobs _
        (λ j. (
          (λ h. (
            (key_is_lem k j.idempotency_key).0 (ground arith),
            (in_org-Asked org j).0 (ground arith),
          )),
          (λ h.
              let same = (key_is_lem k j.idempotency_key).1 h.0 in
              rw (same, (in_org-Asked org j).1 h.1)),
        ))
        (first_row-latest_first (by_idempotency k org) created db.jobs))
]
  where
    key_is_lem : (k : String) (o : Option String) → (key_is k o ≡ true) ↔ (o ≡ some k)
    key_is_lem k none = ((λ h. absurd (ground arith)), (λ h. absurd (ground arith)))
    key_is_lem k (some i) =
        ((λ h. let same : i ≡ k = (eq_iff i k).0 h in rw same), (λ h. ground (arith, eq_iff i k)))

-- The snapshot of a job is one of its snapshots that no other was created later than, and the run
-- is one of its runs that no other was started later than; nothing is found only if it has none.
pub latest_of_job :
    (id : String) (db : Db)
    → Found
        (λ (s : Snapshot). str_eq s.job_id id)
        (λ s. s.created_at)
        db.snapshots
        (get_snapshot_for_job id db)
      × Found (λ (r : Run). str_eq r.job_id id) (λ r. r.started_at) db.runs (get_latest_run id db)
unfolding get_snapshot_for_job get_latest_run
latest_of_job id db = (
  first_row-latest_first (λ (s : Snapshot). str_eq s.job_id id) (λ s. s.created_at) db.snapshots,
  first_row-latest_first (λ (r : Run). str_eq r.job_id id) (λ r. r.started_at) db.runs,
)
