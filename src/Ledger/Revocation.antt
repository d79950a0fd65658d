-- ===== src/Ledger/Revocation.antt =====
-- platform/ledger/db.py: the row of an API key under any writes.
use axropus_deploy.Prelude.{
  String, ◌≡◌, refl, ap, inl, inr, ◌∙◌, Bool, true, List, [], ◌∷◌, ◌++◌, Option, none, some, arith,
  str_eq, any_of, if◌then◌else◌, Bool-cases, ◌&&◌,
}
use axropus_deploy.Sql.{map_ok, insert_row}
use axropus_deploy.Sql.Laws.{first_of_list-append, first_of_list-update_where}
use axropus_deploy.Ledger.{ApiKey, Db}
use axropus_deploy.Ledger.Jobs.{Json, insert_job, update_status, insert_run, insert_snapshot}
use axropus_deploy.Ledger.Keys.{
  is_null, revocable, create_api_key, revoke_api_key, get_api_key_by_hash,
}
use axropus_deploy.Ledger.Governance.{upsert_replay_governance, upsert_spec_governance}
use axropus_deploy.Ledger.Locations.{
  upsert_snapshot_location, mark_snapshot_location_used, prune_snapshot_locations,
}
use axropus_deploy.Ledger.Machine.{
  Write, job, status, run, snapshot, api_key, revoke, prune, or_same, or_same-insert_row, write,
  write_all,
}

abbrev has_hash : String → ApiKey → Bool
has_hash h k = str_eq k.key_hash h

-- What a revocation does to the key that is found by its hash.
get-revoke :
    (h id at : String) (k : ApiKey) (db : Db)
    → get_api_key_by_hash h db ≡ some k
    → get_api_key_by_hash h (revoke_api_key id at db).1
      ≡ some (if revocable id k then record k { revoked_at = some at } else k)
unfolding get_api_key_by_hash revoke_api_key
get-revoke h id at k db found =
    first_of_list-update_where (revocable id) (has_hash h) (λ x. record x { revoked_at = some at })
      db.api_keys k (λ x. refl) found

get-insert :
    {R : Type 0} (conflicts : R → Bool) (row : R) (t : List R) (f : List R → Db) (db : Db)
    (h : String) (k : ApiKey)
    → get_api_key_by_hash h db ≡ some k
    → get_api_key_by_hash h (f (t ++ row ∷ [])) ≡ some k
    → get_api_key_by_hash h (or_same db (map_ok f (insert_row conflicts row t))) ≡ some k
get-insert conflicts row t f db h k kept added =
    rw (or_same-insert_row conflicts row t f db) (elim (Bool-cases (any_of conflicts t)) [
      | inl taken ↦ rw taken kept
      | inr fresh ↦ rw fresh added
    ])

status_keys :
    (at new : String) (db : Db) → (or_same db (update_status at new db)).api_keys ≡ db.api_keys
unfolding update_status
status_keys at new db = ground arith

write_revoked :
    {J : Type 0} (json : Json J) (h t : String) (k : ApiKey) (w : Write J) (db : Db)
    → k.revoked_at ≡ some t
    → get_api_key_by_hash h db ≡ some k
    → get_api_key_by_hash h (write json w db) ≡ some k
unfolding write insert_job insert_run insert_snapshot create_api_key get_api_key_by_hash
    upsert_replay_governance upsert_spec_governance upsert_snapshot_location
    mark_snapshot_location_used prune_snapshot_locations
write_revoked json h t k (job n) db was found =
    get-insert _ _ db.jobs (λ u. record db { jobs = u }) db h k found found
write_revoked json h t k (status at new) db was found = rw (status_keys at new db) found
write_revoked json h t k (run r) db was found =
    get-insert _ _ db.runs (λ u. record db { runs = u }) db h k found found
write_revoked json h t k (snapshot s) db was found =
    get-insert _ _ db.snapshots (λ u. record db { snapshots = u }) db h k found found
write_revoked json h t k (api_key key_id hash org at tpm rpm permissions) db was found =
    get-insert _ _ db.api_keys (λ u. record db { api_keys = u }) db h k found
      (first_of_list-append (has_hash h) db.api_keys _ k found)
write_revoked json h t k (revoke id at) db was found = get-revoke h id at k db found ∙ ground arith
write_revoked json h t k (prune n) db was found = ground arith
write_revoked json h t k w db was found = found

write_all_revoked :
    {J : Type 0} (json : Json J) (h t : String) (k : ApiKey) (ws : List (Write J)) (db : Db)
    → k.revoked_at ≡ some t
    → get_api_key_by_hash h db ≡ some k
    → get_api_key_by_hash h (write_all json ws db) ≡ some k
unfolding write_all
write_all_revoked json h t k [] db was found = found
write_all_revoked json h t k (w ∷ ws) db was found =
    write_all_revoked json h t k ws (write json w db) was (write_revoked json h t k w db was found)

-- The time that a revocation at `at` leaves.
abbrev pub first_revocation : Option String → String → String
first_revocation none at = at
first_revocation (some t) at = t

revoked_key :
    (id at : String) (k : ApiKey) (o : Option String)
    → k.revoked_at ≡ o
    → str_eq k.key_id id ≡ true
    → some (if str_eq k.key_id id && is_null o then record k { revoked_at = some at } else k)
      ≡ some (record k { revoked_at = some (first_revocation o at) })
revoked_key id at k none was mine = rw mine refl
revoked_key id at k (some t) was mine = rw mine (ap (λ r. some (record k { revoked_at = r })) was)

-- A key that was revoked is found by its hash after any further writes, with the rest of its row
-- unchanged and the time of its first revocation.
pub revoked_for_good :
    {J : Type 0} (json : Json J) (h id at : String) (k : ApiKey) (ws : List (Write J)) (db : Db)
    → get_api_key_by_hash h db ≡ some k
    → str_eq k.key_id id ≡ true
    → get_api_key_by_hash h (write_all json ws (revoke_api_key id at db).1)
      ≡ some (record k { revoked_at = some (first_revocation k.revoked_at at) })
revoked_for_good json h id at k ws db found mine =
    write_all_revoked json h (first_revocation k.revoked_at at)
      (record k { revoked_at = some (first_revocation k.revoked_at at) }) ws
      (revoke_api_key id at db).1 refl
      (get-revoke h id at k db found ∙ revoked_key id at k k.revoked_at refl mine)
