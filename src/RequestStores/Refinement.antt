-- ===== src/RequestStores/Refinement.antt =====
-- platform/runtime/decode_cache_store.py and platform/runtime/restore_store.py: the tables as maps.
use axropus_deploy.Prelude.{
  ℕ, String, ◌≡◌, refl, ap, ◌∙◌, List, [], ◌∷◌, Option, some, str_eq, if◌then◌else◌, arith,
}
use axropus_deploy.Sql.Keyed.{find, find-set_row}
use axropus_deploy.RequestStores.{
  DecodeKey, DecodeResult, same_key, decode_keys, path_keys, get_result, set_result, RestoreRequest,
  path_of, get_path, set_path,
}

-- Any calls of `set`
unfoldable pub set_results :
    {F : Type 0}
    → List (DecodeKey × DecodeResult F)
    → List (DecodeKey × DecodeResult F)
    → List (DecodeKey × DecodeResult F)
set_results [] rows = rows
set_results ((k, v) ∷ calls) rows = set_results calls (set_result k v rows)

unfoldable pub set_paths :
    List (ℕ × String × String) → List (String × RestoreRequest) → List (String × RestoreRequest)
set_paths [] rows = rows
set_paths ((now, fingerprint, path) ∷ calls) rows =
    set_paths calls (set_path now fingerprint path rows)

-- The map that the calls stand for
abbrev pub last_result :
    {F : Type 0}
    → DecodeKey
    → List (DecodeKey × DecodeResult F)
    → Option (DecodeResult F)
    → Option (DecodeResult F)
last_result k [] before = before
last_result k ((j, v) ∷ calls) before =
    last_result k calls (if same_key j k then some v else before)

abbrev pub last_path : String → List (ℕ × String × String) → Option String → Option String
last_path k [] before = before
last_path k ((now, fingerprint, path) ∷ calls) before =
    last_path k calls (if str_eq fingerprint k then some path else before)

-- After any calls of `set` on the decode cache, `get` returns for each key what the last call with the
-- same five parts of the key stored, and what it returned before if there is none.
pub results_refine :
    {F : Type 0} (k : DecodeKey) (calls rows : List (DecodeKey × DecodeResult F))
    → get_result k (set_results calls rows) ≡ last_result k calls (get_result k rows)
unfolding set_results set_result get_result
results_refine k [] rows = refl
results_refine k ((j, v) ∷ calls) rows =
    results_refine k calls (set_result j v rows)
    ∙ ap (last_result k calls) (find-set_row decode_keys k j v rows)

path_of-if :
    (k j path : String) (r : RestoreRequest) (o : Option RestoreRequest)
    → r.snapshot_path ≡ path
    → path_of (if str_eq j k then some r else o) ≡ (if str_eq j k then some path else path_of o)
path_of-if k j path r o h = ground (arith, ap some h)

-- After any calls of `set` on the restore requests, `get` returns for each fingerprint the path of the
-- last call with it, and what it returned before if there is none.
pub paths_refine :
    (k : String) (calls : List (ℕ × String × String)) (rows : List (String × RestoreRequest))
    → get_path k (set_paths calls rows) ≡ last_path k calls (get_path k rows)
unfolding set_paths set_path get_path
paths_refine k [] rows = refl
paths_refine k ((now, j, path) ∷ calls) rows =
    let r : RestoreRequest = record { snapshot_path = path; created_at = now } in
    paths_refine k calls (set_path now j path rows)
    ∙ ap (last_path k calls) (
        ap path_of (find-set_row path_keys k j r rows)
        ∙ path_of-if k j path r (find path_keys k rows) refl)
