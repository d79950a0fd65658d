-- ===== src/Ledger/AppendOnly.antt =====
-- platform/ledger/db.py: the rows of runs and snapshots under any writes. The triggers of `init_db`
-- that forbid their change or deletion are not modelled.
use mathlib.Core.List.{append_assoc, append-nil}
use axropus_deploy.Prelude.{
  String, ◌≡◌, refl, sym, ap, inl, inr, ◌∙◌, Bool, List, [], ◌∷◌, ◌++◌, arith, any_of, Bool-cases,
}
use axropus_deploy.Sql.{map_ok, insert_row}
use axropus_deploy.Ledger.{Db}
use axropus_deploy.Ledger.Jobs.{
  Json, has_id, job_row, insert_job, update_status, insert_run, insert_snapshot,
}
use axropus_deploy.Ledger.Keys.{create_api_key, revoke_api_key}
use axropus_deploy.Ledger.Governance.{upsert_replay_governance, upsert_spec_governance}
use axropus_deploy.Ledger.Locations.{
  upsert_snapshot_location, mark_snapshot_location_used, prune_snapshot_locations,
}
use axropus_deploy.Ledger.Machine.{
  Write, job, status, run, snapshot, api_key, prune, or_same, or_same-insert_row, write, write_all,
}

-- `u` is `t` with rows behind it.
abbrev pub Grows : {R : Type 0} → List R → List R → Type 0
Grows {R} t u = (more : List R) × (u ≡ t ++ more)

Grows-refl : {R : Type 0} (t : List R) → Grows t t
Grows-refl t = ([], sym (append-nil t))

Grows-trans : {R : Type 0} (t u v : List R) → Grows t u → Grows u v → Grows t v
Grows-trans t u v (a, e) (b, f) = (a ++ b, f ∙ ap (λ x. x ++ b) e ∙ append_assoc t a b)

Grows-insert :
    {R S : Type 0} (conflicts : R → Bool) (row : R) (t : List R) (f : List R → Db) (db : Db)
    (table : Db → List S) (u : List S)
    → Grows u (table db)
    → Grows u (table (f (t ++ row ∷ [])))
    → Grows u (table (or_same db (map_ok f (insert_row conflicts row t))))
Grows-insert conflicts row t f db table u kept added =
    rw (or_same-insert_row conflicts row t f db) (elim (Bool-cases (any_of conflicts t)) [
      | inl taken ↦ rw taken kept
      | inr fresh ↦ rw fresh added
    ])

abbrev Logs : Db → Db → Type 0
Logs db db' = Grows db.runs db'.runs × Grows db.snapshots db'.snapshots

same-Logs : (db db' : Db) → db'.runs ≡ db.runs → db'.snapshots ≡ db.snapshots → Logs db db'
same-Logs db db' e f = (rw e (Grows-refl db.runs), rw f (Grows-refl db.snapshots))

status_logs :
    (at new : String) (db : Db)
    → ((or_same db (update_status at new db)).runs ≡ db.runs)
      × ((or_same db (update_status at new db)).snapshots ≡ db.snapshots)
unfolding update_status
status_logs at new db = (ground arith, ground arith)

write-Logs : {J : Type 0} (json : Json J) (w : Write J) (db : Db) → Logs db (write json w db)
unfolding write insert_job insert_run insert_snapshot create_api_key revoke_api_key
    upsert_replay_governance upsert_spec_governance upsert_snapshot_location
    mark_snapshot_location_used prune_snapshot_locations
write-Logs json (job n) db = (
  Grows-insert (has_id n.job_id) (job_row json n) db.jobs (λ t. record db { jobs = t }) db
      (λ d. d.runs) db.runs (Grows-refl db.runs) (Grows-refl db.runs),
  Grows-insert (has_id n.job_id) (job_row json n) db.jobs (λ t. record db { jobs = t }) db
      (λ d. d.snapshots) db.snapshots (Grows-refl db.snapshots) (Grows-refl db.snapshots),
)
write-Logs json (status at new) db =
    let (e, f) = status_logs at new db in same-Logs db (or_same db (update_status at new db)) e f
write-Logs json (run r) db = (
  Grows-insert _ r db.runs (λ t. record db { runs = t }) db (λ d. d.runs) db.runs
      (Grows-refl db.runs) (r ∷ [], refl),
  Grows-insert _ r db.runs (λ t. record db { runs = t }) db (λ d. d.snapshots) db.snapshots
      (Grows-refl db.snapshots) (Grows-refl db.snapshots),
)
write-Logs json (snapshot s) db = (
  Grows-insert _ s db.snapshots (λ t. record db { snapshots = t }) db (λ d. d.runs) db.runs
      (Grows-refl db.runs) (Grows-refl db.runs),
  Grows-insert _ s db.snapshots (λ t. record db { snapshots = t }) db (λ d. d.snapshots)
      db.snapshots (Grows-refl db.snapshots) (s ∷ [], refl),
)
write-Logs json (api_key key_id hash org at tpm rpm permissions) db = (
  Grows-insert _ _ db.api_keys (λ t. record db { api_keys = t }) db (λ d. d.runs) db.runs
      (Grows-refl db.runs) (Grows-refl db.runs),
  Grows-insert _ _ db.api_keys (λ t. record db { api_keys = t }) db (λ d. d.snapshots) db.snapshots
      (Grows-refl db.snapshots) (Grows-refl db.snapshots),
)
write-Logs json (prune n) db = same-Logs db (write json (prune n) db) (ground arith) (ground arith)
write-Logs json w db = (Grows-refl db.runs, Grows-refl db.snapshots)

-- After any writes the runs and the snapshots that were there are there, in order and unchanged,
-- with new ones behind them.
pub write_all-Logs :
    {J : Type 0} (json : Json J) (ws : List (Write J)) (db : Db)
    → Grows db.runs (write_all json ws db).runs
      × Grows db.snapshots (write_all json ws db).snapshots
unfolding write_all
write_all-Logs json [] db = (Grows-refl db.runs, Grows-refl db.snapshots)
write_all-Logs json (w ∷ ws) db =
    let (a, b) = write-Logs json w db in
    let (c, d) = write_all-Logs json ws (write json w db) in
    (Grows-trans db.runs _ _ a c, Grows-trans db.snapshots _ _ b d)
