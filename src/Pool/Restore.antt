-- ===== src/Pool/Restore.antt =====
-- korith_vllm_ext/compressed_vram_pool.py: `restore_to_tensor`. The codecs and `torch.stack` are
-- arguments, which may raise (`none`).
use axropus_deploy.Prelude.{ℕ, String, List, [], ◌∷◌, Option, none, some}
use axropus_deploy.Pool.{CompressedKv, PoolEntry, Pool, lookup}
use axropus_deploy.Pool.Insert.{Result, ok, raise, codec_error, decompress_error, stack_error}

-- The loop over the blobs of an entry; `get_codec` and `decompress_to` may raise.
unfoldable pub decode_all :
    {C T : Type 0}
    → (String → Option (CompressedKv C → Option T))
    → List (CompressedKv C)
    → Result (List T)
decode_all decoders [] = ok []
decode_all decoders (b ∷ blobs) = elim (decoders b.format) [
  | none ↦ raise codec_error
  | some decode ↦ elim (decode b) [
    | none ↦ raise decompress_error
    | some layer ↦ elim (decode_all decoders blobs) [
      | ok layers ↦ ok (layer ∷ layers)
      | raise e ↦ raise e
    ]
  ]
]

-- `torch.stack(layers, dim=0)`
unfoldable pub stacked : {T S : Type 0} → (List T → Option S) → Result (List T) → Result (Option S)
stacked stack (raise e) = raise e
stacked stack (ok layers) = elim (stack layers) [ none ↦ raise stack_error | some s ↦ ok (some s) ]

unfoldable pub restore_entry :
    {C F T S : Type 0}
    → (String → Option (CompressedKv C → Option T))
    → (List T → Option S)
    → Option (PoolEntry C F)
    → Result (Option S)
unfolding decode_all stacked
restore_entry decoders stack none = ok none
restore_entry decoders stack (some e) = stacked stack (decode_all decoders e.blobs)

unfoldable pub restore_to_tensor :
    {C F T S : Type 0}
    → (String → Option (CompressedKv C → Option T))
    → (List T → Option S)
    → ℕ
    → String
    → Pool C F
    → Result (Option S) × Pool C F
unfolding restore_entry
restore_to_tensor decoders stack now k p =
    (restore_entry decoders stack (lookup now k p).0, (lookup now k p).1)
