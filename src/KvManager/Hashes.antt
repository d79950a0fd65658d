-- ===== src/KvManager/Hashes.antt =====
-- korith_vllm_ext/amf_kv_manager.py: the hash of a file that is read in chunks.
use axropus_deploy.Prelude.{
  ℕ, zero, suc, ◌+◌, ◌%◌, ◌^◌, ◌<◌, ◌≡◌, refl, sym, ap, ◌∙◌, List, [], ◌∷◌, ◌++◌, some, ◌==◌, arith,
  length, take, drop, inl, inr, Bool-cases,
}
use axropus_deploy.KvManager.Words.{Bytes}
use axropus_deploy.KvManager.Keys.{
  fnv_step, fnv_offset, fnv1a_bytes, hash_chunks, amf_hash_model, hash_tokens_from,
}

fnv1a_bytes-append :
    (xs ys : Bytes) (h : ℕ) → fnv1a_bytes (xs ++ ys) h ≡ fnv1a_bytes ys (fnv1a_bytes xs h)
unfolding fnv1a_bytes
fnv1a_bytes-append [] ys h = refl
fnv1a_bytes-append (x ∷ xs) ys h = fnv1a_bytes-append xs ys (fnv_step h x)

module _ {A : Type 0} where
  append-take-drop : (n : ℕ) (xs : List A) → take n xs ++ drop n xs ≡ xs
  append-take-drop zero xs = refl
  append-take-drop (suc n) [] = refl
  append-take-drop (suc n) (x ∷ xs) = ap (◌∷◌ x) (append-take-drop n xs)

  length-drop-lt : (n : ℕ) (xs : List A) → length (take n xs) + length (drop n xs) ≡ length xs
  length-drop-lt zero xs = omega arith
  length-drop-lt (suc n) [] = omega arith
  length-drop-lt (suc n) (x ∷ xs) = omega (arith, length-drop-lt n xs)

  take-empty : (n : ℕ) (xs : List A) → length (take (suc n) xs) ≡ 0 → xs ≡ []
  take-empty n [] h = refl
  take-empty n (x ∷ xs) h = absurd (omega arith)

hash_chunks_lem :
    (fuel n : ℕ) (bs : Bytes) (h : ℕ)
    → length bs < fuel
    → hash_chunks fuel (suc n) bs h ≡ some (fnv1a_bytes bs h)
unfolding hash_chunks fnv1a_bytes
hash_chunks_lem zero n bs h less = absurd (omega arith)
hash_chunks_lem (suc fuel) n bs h less = elim (Bool-cases (length (take (suc n) bs) == 0)) [
  | inl e ↦
      let empty : bs ≡ [] = take-empty n bs (ground arith) in
      rw e (ap (λ x. some (fnv1a_bytes x h)) (sym empty))
  | inr e ↦
      let parts = length-drop-lt (suc n) bs in
      let rest = drop (suc n) bs in
      rw e (
        hash_chunks_lem fuel n rest (fnv1a_bytes (take (suc n) bs) h) (ground arith)
        ∙ ap some (
            sym (fnv1a_bytes-append (take (suc n) bs) rest h)
            ∙ ap (λ x. fnv1a_bytes x h) (append-take-drop (suc n) bs)))
]

fnv_step-lt : (h x : ℕ) → fnv_step h x < 2 ^ 64
unfolding fnv_step
fnv_step-lt h x = omega arith

fnv1a_bytes-lt : (bs : Bytes) (h : ℕ) → h < 2 ^ 64 → fnv1a_bytes bs h < 2 ^ 64
unfolding fnv1a_bytes
fnv1a_bytes-lt [] h less = less
fnv1a_bytes-lt (b ∷ bs) h less = fnv1a_bytes-lt bs (fnv_step h b) (fnv_step-lt h b)

pub hash_tokens_from-lt : (ts : List ℕ) (h : ℕ) → h < 2 ^ 64 → hash_tokens_from ts h < 2 ^ 64
hash_tokens_from-lt [] h less = less
hash_tokens_from-lt (t ∷ ts) h less = hash_tokens_from-lt ts _ (fnv_step-lt h (t % 2 ^ 32))

-- Reading a file in chunks ends, and gives the hash of all its bytes at once, which is below 2^64.
pub amf_hash_model_lem :
    (bs : Bytes)
    → (amf_hash_model (some bs) ≡ some (fnv1a_bytes bs fnv_offset))
      × (fnv1a_bytes bs fnv_offset < 2 ^ 64)
unfolding amf_hash_model
amf_hash_model_lem bs = (
  hash_chunks_lem (suc (length bs)) _ bs fnv_offset (omega arith),
  fnv1a_bytes-lt bs fnv_offset (omega arith),
)
