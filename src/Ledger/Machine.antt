-- ===== src/Ledger/Machine.antt =====
-- Every function of platform/ledger/db.py that writes, as one step; a step that raises changes
-- nothing.
use axropus_deploy.Prelude.{
  ℕ, String, ◌≡◌, inl, inr, Bool, List, [], ◌∷◌, ◌++◌, if◌then◌else◌, any_of, Bool-cases,
}
use axropus_deploy.Sql.{Result, ok, raise, map_ok, insert_row}
use axropus_deploy.Ledger.{Run, Snapshot, ReplayGovernance, SpecGovernance, Location, Db}
use axropus_deploy.Ledger.Jobs.{
  Json, NewJob, insert_job, update_status, insert_run, insert_snapshot,
}
use axropus_deploy.Ledger.Keys.{create_api_key, revoke_api_key}
use axropus_deploy.Ledger.Governance.{upsert_replay_governance, upsert_spec_governance}
use axropus_deploy.Ledger.Locations.{
  upsert_snapshot_location, mark_snapshot_location_used, prune_snapshot_locations,
}

pub data Write (J : Type 0) : Type 0 where
  job : NewJob J → Write J
  status : String → String → Write J
  run : Run → Write J
  snapshot : Snapshot → Write J
  api_key : String → String → String → String → ℕ → ℕ → String → Write J
  revoke : String → String → Write J
  replay : ReplayGovernance → Write J
  spec : SpecGovernance → Write J
  location : Location → Write J
  mark_used : String → String → String → String → String → Write J
  prune : ℕ → Write J

-- A transaction that raises is rolled back.
abbrev pub or_same : Db → Result Db → Db
or_same db (ok db') = db'
or_same db (raise e) = db

-- An INSERT as a step: nothing on a conflict, or one row more.
pub or_same-insert_row :
    {R : Type 0} (conflicts : R → Bool) (row : R) (t : List R) (f : List R → Db) (db : Db)
    → or_same db (map_ok f (insert_row conflicts row t))
      ≡ (if any_of conflicts t then db else f (t ++ row ∷ []))
or_same-insert_row conflicts row t f db = elim (Bool-cases (any_of conflicts t)) [
  | inl taken ↦ rw (taken, insert_row)
  | inr fresh ↦ rw (fresh, insert_row)
]

module _ {J : Type 0} (json : Json J) where
  unfoldable pub write : Write J → Db → Db
  write (job n) db = or_same db (insert_job json n db)
  write (status id new) db = or_same db (update_status id new db)
  write (run r) db = or_same db (insert_run r db)
  write (snapshot s) db = or_same db (insert_snapshot s db)
  write (api_key key_id hash org at tpm rpm permissions) db =
      or_same db (create_api_key key_id hash org at tpm rpm permissions db)
  write (revoke key_id at) db = (revoke_api_key key_id at db).1
  write (replay g) db = upsert_replay_governance g db
  write (spec g) db = upsert_spec_governance g db
  write (location l) db = upsert_snapshot_location l db
  write (mark_used fp org node s at) db = mark_snapshot_location_used fp org node s at db
  write (prune n) db = (prune_snapshot_locations n db).1

  unfoldable pub write_all : List (Write J) → Db → Db
  write_all [] db = db
  write_all (w ∷ ws) db = write_all ws (write w db)
