-- ===== src/KvManager/Keys.antt =====
-- korith_vllm_ext/amf_kv_manager.py: the hashes, the key of a snapshot and the names of its files.
use Prim.Native.Nat.{bit_xor}
use Prim.Native.Char.{Char}
use axropus_deploy.Prelude.{
  ℕ, zero, suc, ◌-◌, ◌*◌, ◌/◌, ◌%◌, ◌^◌, String, List, [], ◌∷◌, Option, none, some, if◌then◌else◌,
  ltb, ◌==◌, length, take, drop,
}
use Prim.Native.String.{◌++◌}
use axropus_deploy.KvManager.Words.{Bytes}

abbrev pub fnv_offset : ℕ
fnv_offset = 1469598103934665603

abbrev pub fnv_prime : ℕ
fnv_prime = 1099511628211

-- One step of the hash, masked to 64 bits
unfoldable pub fnv_step : ℕ → ℕ → ℕ
fnv_step h x = (bit_xor h x * fnv_prime) % 2 ^ 64

unfoldable pub fnv1a_bytes : Bytes → ℕ → ℕ
fnv1a_bytes [] h = h
fnv1a_bytes (b ∷ bs) h = fnv1a_bytes bs (fnv_step h b)

abbrev pub hash_tokens_from : List ℕ → ℕ → ℕ
hash_tokens_from [] h = h
hash_tokens_from (t ∷ ts) h = hash_tokens_from ts (fnv_step h (t % 2 ^ 32))

unfoldable pub amf_hash_tokens : List ℕ → ℕ
amf_hash_tokens ts = hash_tokens_from ts fnv_offset

-- On the bytes of the tenant's name in UTF-8
unfoldable pub amf_hash_tenant_id : Bytes → ℕ
amf_hash_tenant_id [] = fnv_offset
amf_hash_tenant_id (b ∷ bs) = fnv1a_bytes (b ∷ bs) fnv_offset

-- The loop that reads chunks of a file until one is empty; each round uses up one of the fuel.
unfoldable pub hash_chunks : ℕ → ℕ → Bytes → ℕ → Option ℕ
hash_chunks zero size bs h = none
hash_chunks (suc fuel) size bs h =
    let chunk = take size bs in
    let rest = hash_chunks fuel size (drop size bs) (fnv1a_bytes chunk h) in
    if length chunk == 0 then some h else rest

-- A file that does not exist is none.
unfoldable pub amf_hash_model : Option Bytes → Option ℕ
amf_hash_model none = some 0
amf_hash_model (some bs) = hash_chunks (suc (length bs)) (2 ^ 20) bs fnv_offset

abbrev pub nth_char : ℕ → String → Char
nth_char n String.[] = "f"
nth_char zero (String.◌∷◌ c s) = c
nth_char (suc n) (String.◌∷◌ c s) = nth_char n s

abbrev pub digit : ℕ → Char
digit n = nth_char n "0123456789abcdef"

-- The digits of n in front of a text; each digit uses up one of the fuel, and n + 1 is enough.
abbrev pub digits : ℕ → ℕ → ℕ → String → String
digits base zero n s = s
digits base (suc fuel) n s =
    let rest = digits base fuel (n / base) (String.◌∷◌ (digit (n % base)) s) in
    if ltb n base then String.◌∷◌ (digit n) s else rest

abbrev pub count_chars : String → ℕ
count_chars String.[] = 0
count_chars (String.◌∷◌ c s) = suc (count_chars s)

abbrev pub pad : ℕ → String → String
pad zero s = s
pad (suc n) s = String.◌∷◌ "0" (pad n s)

-- f"{n}"
unfoldable pub decimal : ℕ → String
decimal n = digits 10 (suc n) n ""

-- f"{n:016x}"
unfoldable pub hex16 : ℕ → String
hex16 n = let s = digits 16 (suc n) n "" in pad (16 - count_chars s) s

pub record AmfKey : Type 0 where
  pub model_hash : ℕ
  pub tenant_hash : ℕ
  pub prefix_hash : ℕ
  pub n_ctx : ℕ
  pub kv_version : ℕ
  pub rope_base_bits : ℕ
  pub rope_scale_bits : ℕ
  pub sampling_hash : ℕ
  pub rng_hash : ℕ

-- A text, an underscore and a text
abbrev pub joined_by_underscore : String → String → String
joined_by_underscore s t = s ++ String.◌∷◌ "_" t

unfoldable pub amf_key_filename : AmfKey → String
amf_key_filename k = joined_by_underscore "amf" (
    joined_by_underscore (hex16 k.model_hash) (
      joined_by_underscore (hex16 k.tenant_hash) (
        joined_by_underscore (hex16 k.prefix_hash) (
          joined_by_underscore (decimal k.n_ctx) (
            joined_by_underscore (decimal k.kv_version) (
              joined_by_underscore (decimal k.rope_base_bits) (
                joined_by_underscore (decimal k.rope_scale_bits)
                  (joined_by_underscore (hex16 k.sampling_hash) (hex16 k.rng_hash)))))))))

abbrev pub kv_filename : AmfKey → String
kv_filename k = amf_key_filename k ++ ".kv"

abbrev pub tok_filename : AmfKey → String
tok_filename k = amf_key_filename k ++ ".tok"
