-- ===== src/RequestStores.antt =====
-- platform/runtime/decode_cache_store.py and platform/runtime/restore_store.py: the results of decoding
-- and the requested restores, in SQLite tables. `F` is the type of floats; `now` is strftime('%s','now').
pub mod Refinement
mod Tests
use axropus_deploy.Prelude.{
  ℕ, String, Bool, true, false, ◌&&◌, List, [], ◌∷◌, map, Option, none, some, str_eq, ◌≡◌, refl,
  eq_iff, eq_refl, arith,
}
use axropus_deploy.Sql.Keyed.{KeyTest, find, set_row}

-- The primary key of `decode_cache`
pub record DecodeKey : Type 0 where
  pub org_id : String
  pub backend_id : String
  pub fingerprint_hash : String
  pub prompt_hash : String
  pub sampling_hash : String

pub record DecodeResult (F : Type 0) : Type 0 where
  pub output_text : String
  pub tokens_out : ℕ
  pub decode_ms : F
  pub total_ms : F
  pub updated_at : F

-- The WHERE clause of `get`
unfoldable pub same_key : DecodeKey → DecodeKey → Bool
same_key a b =
    str_eq a.org_id b.org_id
    && (str_eq a.backend_id b.backend_id
        && (str_eq a.fingerprint_hash b.fingerprint_hash
            && (str_eq a.prompt_hash b.prompt_hash && str_eq a.sampling_hash b.sampling_hash)))

pub same_key_sound : (a b : DecodeKey) → same_key a b ≡ true → a ≡ b
unfolding same_key
same_key_sound a b h =
    let e1 = eq_iff a.org_id b.org_id in
    let e2 = eq_iff a.backend_id b.backend_id in
    let e3 = eq_iff a.fingerprint_hash b.fingerprint_hash in
    let e4 = eq_iff a.prompt_hash b.prompt_hash in
    let e5 = eq_iff a.sampling_hash b.sampling_hash in
    let p1 : a.org_id ≡ b.org_id = ground arith in
    let p2 : a.backend_id ≡ b.backend_id = ground arith in
    let p3 : a.fingerprint_hash ≡ b.fingerprint_hash = ground arith in
    let p4 : a.prompt_hash ≡ b.prompt_hash = ground arith in
    let p5 : a.sampling_hash ≡ b.sampling_hash = ground arith in cc

pub same_key_refl : (a : DecodeKey) → same_key a a ≡ true
unfolding same_key
same_key_refl a =
    rw
      (
        eq_refl a.org_id,
        eq_refl a.backend_id,
        eq_refl a.fingerprint_hash,
        eq_refl a.prompt_hash,
        eq_refl a.sampling_hash,
      )
      refl

abbrev pub decode_keys : KeyTest DecodeKey
decode_keys = record { same = same_key; sound = same_key_sound; reflexive = same_key_refl }

abbrev pub path_keys : KeyTest String
path_keys = record { same = str_eq; sound = λ a b. (eq_iff a b).0; reflexive = eq_refl }

module _ {F : Type 0} where
  -- DecodeCacheStore
  unfoldable pub get_result :
      DecodeKey → List (DecodeKey × DecodeResult F) → Option (DecodeResult F)
  get_result k rows = find decode_keys k rows

  unfoldable pub set_result :
      DecodeKey
      → DecodeResult F
      → List (DecodeKey × DecodeResult F)
      → List (DecodeKey × DecodeResult F)
  set_result k v rows = set_row decode_keys k v rows

-- A row of `restore_requests` less its key
pub record RestoreRequest : Type 0 where
  pub snapshot_path : String
  pub created_at : ℕ

abbrev pub path_of : Option RestoreRequest → Option String
path_of none = none
path_of (some r) = some r.snapshot_path

-- RestoreStore
unfoldable pub get_path : String → List (String × RestoreRequest) → Option String
get_path fingerprint rows = path_of (find path_keys fingerprint rows)

unfoldable pub set_path :
    ℕ → String → String → List (String × RestoreRequest) → List (String × RestoreRequest)
set_path now fingerprint path rows =
    set_row path_keys fingerprint (record { snapshot_path = path; created_at = now }) rows
