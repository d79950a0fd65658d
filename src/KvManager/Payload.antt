-- ===== src/KvManager/Payload.antt =====
-- korith_vllm_ext/amf_kv_manager.py: the payload of a file, which the layers fill one after another.
use axropus_deploy.Prelude.{
  ℕ, suc, ◌+◌, ◌≡◌, refl, ap, ◌∙◌, List, [], ◌∷◌, ◌++◌, arith, length, length-append,
}
use axropus_deploy.KvManager.{layer_infos, total_bytes, fill}
use axropus_deploy.KvManager.Words.{Bytes, zeros, write_at, write_at_end, append_assoc}

abbrev pub flat : List (Bytes × Bytes) → Bytes
flat [] = []
flat ((k, v) ∷ ts) = k ++ (v ++ flat ts)

pub total_bytes_lem :
    (total : ℕ) (ts : List (Bytes × Bytes)) → total_bytes total ts ≡ total + length (flat ts)
total_bytes_lem total [] = omega arith
total_bytes_lem total ((k, v) ∷ ts) = omega (
  arith,
  total_bytes_lem (total + (length k + length v)) ts,
  length-append k (v ++ flat ts),
  length-append v (flat ts),
)

pub length-layer_infos :
    (total : ℕ) (ts : List (Bytes × Bytes)) → length (layer_infos total ts) ≡ length ts
length-layer_infos total [] = refl
length-layer_infos total ((k, v) ∷ ts) =
    ap suc (length-layer_infos (total + (length k + length v)) ts)

pub fill_lem :
    (ts : List (Bytes × Bytes)) (pre : Bytes) (off room : ℕ)
    → off ≡ length pre
    → room ≡ length (flat ts)
    → fill (layer_infos off ts) ts (pre ++ zeros room) ≡ pre ++ flat ts
fill_lem [] pre off room h k = rw k refl
fill_lem ((k, v) ∷ ts) pre off room h e =
    let measured = length-append k (v ++ flat ts) in
    let measured' = length-append v (flat ts) in
    let first : write_at off k (pre ++ zeros room)
        ≡ (pre ++ k) ++ zeros (length v + length (flat ts)) =
      write_at_end pre k off (length v + length (flat ts)) room h (omega arith) in
    let second : write_at (off + length k) v ((pre ++ k) ++ zeros (length v + length (flat ts)))
        ≡ ((pre ++ k) ++ v) ++ zeros (length (flat ts)) =
      write_at_end (pre ++ k) v (off + length k) (length (flat ts)) (length v + length (flat ts))
        (omega (arith, length-append pre k)) refl in
    ap (λ x. fill (layer_infos (off + (length k + length v)) ts) ts (write_at (off + length k) v x))
      first
    ∙ (ap (fill (layer_infos (off + (length k + length v)) ts) ts) second
        ∙ (fill_lem ts ((pre ++ k) ++ v) (off + (length k + length v)) (length (flat ts))
              (omega (arith, length-append pre k, length-append (pre ++ k) v)) refl
            ∙ (append_assoc (pre ++ k) v (flat ts) ∙ append_assoc pre k (v ++ flat ts))))
