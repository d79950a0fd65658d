-- ===== src/KvManager/Tests.antt =====
-- A save and restores of a small cache, and the theorems at concrete inputs.
use axropus_deploy.Prelude.{
  ◌+◌, ◌^◌, ◌<◌, ◌≡◌, refl, true, false, List, [], ◌∷◌, none, some, ◌⊎◌, arith,
}
use axropus_deploy.Dict.{get, put}
use axropus_deploy.KvManager.{Dtype, float16, bfloat16, Cache, stacked, joined, Layer, collect}
use axropus_deploy.KvManager.Keys.{
  fnv_step, fnv_offset, fnv1a_bytes, amf_hash_tokens, amf_hash_tenant_id, amf_hash_model, decimal,
  hex16, amf_key_filename, kv_filename,
}
use axropus_deploy.KvManager.Store.{
  Settings, Manager, raised, Env, blob_of, compute_amf_key, has_snapshot, save_kv_state, returned,
  restore_kv_state,
}
use axropus_deploy.KvManager.Hashes.{amf_hash_model_lem}
use axropus_deploy.KvManager.Names.{kv_filename_inj}
use axropus_deploy.KvManager.Layers.{no_layers, more_layers}
use axropus_deploy.KvManager.RoundTrip.{restore-save}
use axropus_deploy.KvManager.Misses.{restore_cases, Taken, Refused}

abbrev tenant_x : Settings
tenant_x = record {
  model_hash = 255;
  tenant_hash = amf_hash_tenant_id (120 ∷ []);
  kv_version = 1;
  rope_base_bits = 1176256512;
  rope_scale_bits = 1065353216;
  sampling_hash = 0;
  rng_hash = 0;
  max_model_len = 4096;
}

abbrev fresh : Manager
fresh = record { files = []; hits = 0; misses = 0; saves = 0; restore_ms = 0 }

abbrev layer : Cache → Layer
layer c = record { dtype = float16; kv_heads = 1; head_dim = 1; block_bytes = 2; cache = c }

abbrev first_layer : Layer
first_layer = layer (stacked ((1 ∷ 2 ∷ []) ∷ (3 ∷ 4 ∷ []) ∷ []) ((5 ∷ 6 ∷ []) ∷ (7 ∷ 8 ∷ []) ∷ []))

abbrev second_layer : Layer
second_layer = layer (joined ((9 ∷ 9 ∷ []) ∷ (10 ∷ 11 ∷ []) ∷ []))

abbrev blank : List Layer
blank =
    layer (stacked ((0 ∷ 0 ∷ []) ∷ []) ((0 ∷ 0 ∷ []) ∷ []))
    ∷ layer (joined ((0 ∷ 0 ∷ []) ∷ []))
    ∷ []

abbrev quiet : Env
quiet = record {
  has_numpy = λ d. elim d [ Dtype.bfloat16 ↦ false | _ ↦ true ];
  kv_writable = true;
  tok_writable = true;
}

abbrev after_save : Manager
after_save =
    (save_kv_state quiet tenant_x (5 ∷ 7 ∷ []) (1 ∷ []) (first_layer ∷ second_layer ∷ []) fresh).1

name_lem :
    amf_key_filename (record {
      model_hash = 255;
      tenant_hash = 0;
      prefix_hash = 2 ^ 64;
      n_ctx = 4096;
      kv_version = 1;
      rope_base_bits = 10;
      rope_scale_bits = 0;
      sampling_hash = 0;
      rng_hash = 171;
    })
    ≡ "amf_00000000000000ff_0000000000000000_10000000000000000_4096_1_10_0_0000000000000000_00000000000000ab"
unfolding amf_key_filename decimal hex16
name_lem = refl

restored_lem :
    (restore_kv_state tenant_x 3 true (5 ∷ 7 ∷ []) (0 ∷ []) blank after_save).layers
    ≡ layer (stacked ((3 ∷ 4 ∷ []) ∷ []) ((7 ∷ 8 ∷ []) ∷ []))
      ∷ layer (joined ((10 ∷ 11 ∷ []) ∷ []))
      ∷ []
unfolding amf_hash_tenant_id amf_hash_tokens amf_key_filename blob_of compute_amf_key decimal
    fnv1a_bytes fnv_step get hex16 put restore_kv_state save_kv_state
restored_lem = refl

-- With an empty block table nothing is copied, and the tokens count as restored.
nothing_copied : restore_kv_state tenant_x 3 true (5 ∷ 7 ∷ []) [] blank after_save ≡ record {
  answer = returned 2;
  layers = blank;
  manager = record after_save { hits = 1; restore_ms = 3 };
}
unfolding amf_hash_tenant_id amf_hash_tokens amf_key_filename blob_of compute_amf_key decimal
    fnv1a_bytes fnv_step get hex16 put restore_kv_state save_kv_state
nothing_copied = refl

-- A save of bfloat16 raises where numpy has no such dtype.
bfloat16_lem :
    (save_kv_state quiet tenant_x
      (5 ∷ [])
      (0 ∷ [])
      (record second_layer { dtype = bfloat16 } ∷ [])
      fresh).0
    ≡ raised
unfolding amf_hash_tenant_id amf_hash_tokens amf_key_filename blob_of compute_amf_key decimal
    fnv1a_bytes fnv_step get hex16 put restore_kv_state save_kv_state
bfloat16_lem = refl

restore-save_example :
    let o = restore_kv_state tenant_x 3 true (5 ∷ 7 ∷ []) (0 ∷ []) blank after_save in
    (o.answer ≡ returned 2)
    × ((o.manager.hits ≡ 1)
        × (collect (0 ∷ []) o.layers ≡ collect (1 ∷ []) (first_layer ∷ second_layer ∷ [])))
unfolding amf_hash_tenant_id amf_hash_tokens amf_key_filename blob_of compute_amf_key decimal
    fnv1a_bytes fnv_step get hex16 put restore_kv_state save_kv_state
restore-save_example =
    restore-save quiet tenant_x (5 ∷ 7 ∷ []) 1 [] 0 [] first_layer (second_layer ∷ []) blank fresh 3
      (refl, tt) refl
      (more_layers _ _ _ _
        (record {
          same_layout = refl;
          same_size = refl;
          positive = omega arith;
          sized = ((refl, (refl, tt)), (refl, (refl, tt)));
          in_range = ((omega arith, tt), (omega arith, tt));
        })
        (more_layers _ _ _ _
          (record {
            same_layout = refl;
            same_size = refl;
            positive = omega arith;
            sized = ((refl, (refl, tt)), (refl, (refl, tt)));
            in_range = ((omega arith, tt), (omega arith, tt));
          })
          no_layers))
      refl

-- A file that is not there
restore_cases_example :
    let o = restore_kv_state tenant_x 3 true (5 ∷ []) (0 ∷ []) blank after_save in
    let file = get (kv_filename (compute_amf_key tenant_x (5 ∷ []) none)) after_save.files in
    Taken blank file true after_save o ⊎ Refused blank file true after_save o
restore_cases_example = restore_cases tenant_x 3 true (5 ∷ []) (0 ∷ []) blank after_save

amf_hash_model_lem_example :
    (amf_hash_model (some (1 ∷ 2 ∷ 3 ∷ [])) ≡ some (fnv1a_bytes (1 ∷ 2 ∷ 3 ∷ []) fnv_offset))
    × (fnv1a_bytes (1 ∷ 2 ∷ 3 ∷ []) fnv_offset < 2 ^ 64)
amf_hash_model_lem_example = amf_hash_model_lem (1 ∷ 2 ∷ 3 ∷ [])

kv_filename_inj_example :
    compute_amf_key tenant_x (5 ∷ []) (some 0) ≡ compute_amf_key tenant_x ((5 + 2 ^ 32) ∷ []) none
unfolding compute_amf_key amf_hash_tokens fnv_step
kv_filename_inj_example =
    kv_filename_inj (compute_amf_key tenant_x (5 ∷ []) (some 0))
      (compute_amf_key tenant_x ((5 + 2 ^ 32) ∷ []) none) refl

has_snapshot_lem : has_snapshot tenant_x (5 ∷ 7 ∷ []) after_save ≡ true
unfolding amf_hash_tenant_id amf_hash_tokens amf_key_filename blob_of compute_amf_key decimal
    fnv1a_bytes fnv_step get hex16 put has_snapshot save_kv_state
has_snapshot_lem = refl
