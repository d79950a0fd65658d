-- ===== src/Ledger/Locations.antt =====
-- platform/ledger/db.py: where snapshots lie, and the pruning of old locations.
use axropus_deploy.Prelude.{
  ℕ, String, Bool, ◌&&◌, List, [], ◌∷◌, str_eq, ltb, if◌then◌else◌, length, keep_if,
}
use axropus_deploy.Sql.{upsert, update_where, delete_where, latest_first}
use axropus_deploy.Ledger.{Location, Db}

-- The primary key: fingerprint, organisation, node, snapshot.
abbrev pub location_is : String → String → String → String → Location → Bool
location_is fp org node snapshot l =
    str_eq l.fingerprint_hash fp
    && (str_eq l.org_id org && (str_eq l.node_id node && str_eq l.snapshot_id snapshot))

unfoldable pub upsert_snapshot_location : Location → Db → Db
upsert_snapshot_location l db = record db {
  snapshot_locations =
      upsert (location_is l.fingerprint_hash l.org_id l.node_id l.snapshot_id)
        (λ r. record r {
          worker_id = l.worker_id;
          snapshot_path = l.snapshot_path;
          size_bytes = l.size_bytes;
          created_at = l.created_at;
          last_used_at = l.last_used_at;
        })
        l db.snapshot_locations;
}

abbrev pub used : Location → String
used l = l.last_used_at

-- `WHERE fingerprint_hash=? AND org_id=?`
abbrev pub in_partition : String → String → Location → Bool
in_partition fp org l = str_eq l.fingerprint_hash fp && str_eq l.org_id org

unfoldable pub list_snapshot_locations : String → String → Db → List Location
list_snapshot_locations fp org db =
    latest_first used (keep_if (in_partition fp org) db.snapshot_locations)

unfoldable pub mark_snapshot_location_used : String → String → String → String → String → Db → Db
mark_snapshot_location_used fp org node snapshot at db = record db {
  snapshot_locations =
      update_where (location_is fp org node snapshot) (λ l. record l { last_used_at = at })
        db.snapshot_locations;
}

-- ROW_NUMBER() OVER (PARTITION BY fingerprint_hash, org_id ORDER BY last_used_at DESC) > n: the rows
-- of the sorted table with `n` rows of their partition before them.
abbrev pub surplus_after : ℕ → List Location → List Location → List Location
surplus_after n before [] = []
surplus_after n before (l ∷ rest) =
    let later = surplus_after n (l ∷ before) rest in
    if ltb (length (keep_if (in_partition l.fingerprint_hash l.org_id) before)) n
    then later
    else l ∷ later

unfoldable pub surplus : ℕ → List Location → List Location
surplus n t = surplus_after n [] (latest_first used t)

-- `DELETE … WHERE fingerprint_hash=? AND org_id=? AND snapshot_id=?`: the node is not compared.
abbrev pub same_snapshot : Location → Location → Bool
same_snapshot row l =
    str_eq l.fingerprint_hash row.fingerprint_hash
    && (str_eq l.org_id row.org_id && str_eq l.snapshot_id row.snapshot_id)

unfoldable pub delete_rows : List Location → List Location → List Location
delete_rows [] t = t
delete_rows (row ∷ rows) t = delete_rows rows (delete_where (same_snapshot row) t)

-- The count that is returned is the number of DELETE statements.
unfoldable pub prune_snapshot_locations : ℕ → Db → ℕ × Db
unfolding surplus delete_rows
prune_snapshot_locations n db = if ltb n 1 then (0, db) else (
  length (surplus n db.snapshot_locations),
  record db {
    snapshot_locations = delete_rows (surplus n db.snapshot_locations) db.snapshot_locations;
  },
)
