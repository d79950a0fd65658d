-- ===== src/Ledger/Keys.antt =====
-- platform/ledger/db.py: API keys.
use axropus_deploy.Prelude.{
  ℕ, String, Bool, true, false, ◌&&◌, ◌||◌, List, Option, none, some, str_eq, first_of_list, any_of,
  keep_if,
}
use axropus_deploy.Sql.{Result, map_ok, insert_row, update_where, latest_first}
use axropus_deploy.Ledger.{ApiKey, Db}
use axropus_deploy.Ledger.Jobs.{in_org}

-- The new row has no `revoked_at`.
unfoldable pub create_api_key : String → String → String → String → ℕ → ℕ → String → Db → Result Db
create_api_key key_id key_hash org_id created_at tpm rpm permissions db =
    map_ok (λ t. record db { api_keys = t })
      (insert_row (λ (k : ApiKey). str_eq k.key_id key_id || str_eq k.key_hash key_hash)
        (record {
          key_id = key_id;
          key_hash = key_hash;
          org_id = org_id;
          created_at = created_at;
          revoked_at = none;
          rate_limit_tpm = tpm;
          rate_limit_rpm = rpm;
          permissions_json = permissions;
        })
        db.api_keys)

abbrev pub is_null : Option String → Bool
is_null none = true
is_null (some t) = false

-- `WHERE key_id=? AND revoked_at IS NULL`
abbrev pub revocable : String → ApiKey → Bool
revocable key_id k = str_eq k.key_id key_id && is_null k.revoked_at

-- Whether a row was changed, and the database.
unfoldable pub revoke_api_key : String → String → Db → Bool × Db
revoke_api_key key_id at db = (
  any_of (revocable key_id) db.api_keys,
  record db {
    api_keys = update_where (revocable key_id) (λ k. record k { revoked_at = some at }) db.api_keys;
  },
)

unfoldable pub list_api_keys : Option String → Db → List ApiKey
list_api_keys org db =
    latest_first (λ (k : ApiKey). k.created_at)
      (keep_if (λ (k : ApiKey). in_org org k.org_id) db.api_keys)

unfoldable pub get_api_key_by_hash : String → Db → Option ApiKey
get_api_key_by_hash h db = first_of_list (λ (k : ApiKey). str_eq k.key_hash h) db.api_keys
