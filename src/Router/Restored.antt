-- ===== src/Router/Restored.antt =====
-- korith_vllm_ext/tiered_router.py: a lookup in the pool right after a store.
use axropus_deploy.Prelude.{
  ℕ, ◌≡◌, refl, sym, ap, ◌∙◌, String, Bool, true, false, List, map, Option, some, either_of,
  add_key,
}
use axropus_deploy.Pool.{CompressedKv, PoolEntry, Pool, Floats, contains, hit}
use axropus_deploy.Pool as Vram
use axropus_deploy.Pool.Insert.{Result, ok, raise}
use axropus_deploy.Pool.Put.{Tensor, put_from_raw, infer_layout, chosen_format, tabulate}
use axropus_deploy.LmCache.{Engine}
use axropus_deploy.Router.{
  g1_amf, Router, Payload, Readings, tensor, entry, nothing, is_too_short, should_mirror, note_hit,
  lookup, after_put, store_after_prefill,
}
use axropus_deploy.Pool.Restore.{decode_all}
use axropus_deploy.Pool.Stored.{IsCodec, put_from_raw-Restores}
use axropus_deploy.Dict.{get}

-- A payload of the pool, whose blobs decode to the layers
abbrev pub DecodesTo :
    {C F T : Type 0}
    → (String → Option (CompressedKv C → Option T))
    → List T
    → Payload C F T
    → Type 0
DecodesTo decoders layers (entry e) = decode_all decoders e.blobs ≡ ok layers
DecodesTo decoders layers (tensor kv) = ⊥
DecodesTo decoders layers (nothing reason) = ⊥

module _ {C F E T : Type 0} (fl : Floats F) (codecs : String → Option (T → Option (CompressedKv C)))
    (lib : Engine E (Tensor T)) (decoders : String → Option (CompressedKv C → Option T)) where
  after_put-pool :
      (env : Readings F) (k : String) (n : ℕ) (kv : Tensor T) (o : Result Bool) (q : Router C F E T)
      → (after_put fl codecs lib env k n kv o q).1.pool ≡ q.pool
  after_put-pool env k n kv (ok b) q =
      either_of (λ (x : Router C F E T). x.pool ≡ q.pool)
        (should_mirror q.write_policy n q.large_write_threshold false) _ _ refl refl
  after_put-pool env k n kv (raise x) q = refl

  after_put-same :
      (env : Readings F) (k : String) (n : ℕ) (kv : Tensor T) (o : Result Bool) (q : Router C F E T)
      → ((after_put fl codecs lib env k n kv o q).0 ≡ o)
        × ((after_put fl codecs lib env k n kv o q).1.min_prefix_tokens ≡ q.min_prefix_tokens)
  after_put-same env k n kv (ok b) q = (
    refl,
    either_of (λ (x : Router C F E T). x.min_prefix_tokens ≡ q.min_prefix_tokens)
        (should_mirror q.write_policy n q.large_write_threshold false) _ _ refl refl,
  )
  after_put-same env k n kv (raise x) q = (refl, refl)

  long_lookup :
      (env : Readings F) (k : String) (tokens : Option ℕ) (q : Router C F E T) (layers : List T)
      (e : PoolEntry C F)
      → is_too_short tokens q.min_prefix_tokens ≡ false
      → get k q.pool.index ≡ some e
      → decode_all decoders e.blobs ≡ ok layers
      → let o = lookup fl codecs lib env k tokens q in
        (o.0.tier ≡ g1_amf) × DecodesTo decoders layers o.0.payload
  unfolding lookup Vram.lookup hit note_hit
  long_lookup env k tokens q layers e long found decodes =
      rw (found, Vram.lookup) (rw long (refl, decodes))

  module _ (compress : T → Option (CompressedKv C)) (approx : T → T)
      (codec : IsCodec decoders compress approx) where
    -- If the codec that is chosen decompresses what it compresses to an approximation of it, and a store
    -- of a prefix returns True, then a lookup of it with enough tokens, if nothing was done in between,
    -- finds in the pool an entry whose blobs decode to the approximations of the layers, in their order.
    pub lookup-store_after_prefill :
        (env : Readings F) (k : String) (n : ℕ) (kv : Tensor T) (savings : F)
        (format : Option String) (r : Router C F E T) (l t h d : ℕ) (env' : Readings F)
        (tokens : Option ℕ)
        → infer_layout kv.shape ≡ ok (l, t, h, d)
        → codecs (chosen_format kv.one_byte format r.pool) ≡ some compress
        → (store_after_prefill fl codecs lib env k n kv savings format r).0 ≡ ok true
        → is_too_short tokens r.min_prefix_tokens ≡ false
        → let o =
            lookup fl codecs lib env' k tokens
              (store_after_prefill fl codecs lib env k n kv savings format r).1 in
          (o.0.tier ≡ g1_amf) × DecodesTo decoders (map approx (tabulate kv.layer 0 l)) o.0.payload
    unfolding store_after_prefill
    lookup-store_after_prefill env k n kv savings format r l t h d env' tokens shape chosen stored
          long =
        let (result, p) = put_from_raw fl codecs env.clock k kv format savings r.pool in
        let q = record r { seen = add_key k r.seen; pool = p } in
        let (same, least) = after_put-same env k n kv result q in
        let (e, found, decodes) =
          put_from_raw-Restores fl codecs decoders compress approx codec env.clock k kv format
            savings r.pool l t h d shape chosen (sym same ∙ stored) in
        long_lookup env' k tokens (after_put fl codecs lib env k n kv result q).1 _ e
          (ap (is_too_short tokens) least ∙ long)
          (ap (λ (x : Pool C F). get k x.index) (after_put-pool env k n kv result q) ∙ found)
          decodes
