-- ===== src/KvManager/Store.antt =====
-- korith_vllm_ext/amf_kv_manager.py: AmfKvManager. Files are a dict by name. The clock, what torch
-- converts to numpy and which writes and reads fail with OSError are arguments.
use axropus_deploy.Prelude.{
  ℕ, zero, suc, ◌+◌, ◌*◌, ◌^◌, Bool, true, false, not, ◌&&◌, List, [], ◌∷◌, ◌++◌, Option, none,
  some, if◌then◌else◌, ltb, ◌==◌, length, set, take, drop,
}
use axropus_deploy.Dict.{Dict, get, put}
use axropus_deploy.KvManager.{
  Dtype, dtype_tag, Blocks, Cache, stacked, joined, Layer, k_all, gather, collect, LayerInfo,
  layer_infos, total_bytes, Header, header_size, layer_size, pack_header, unpack_header, pack_infos,
  unpack_infos, fill, ◌>>=◌,
}
use axropus_deploy.KvManager.Words.{Bytes, word_bytes, slice, zeros}
use axropus_deploy.KvManager.Keys.{AmfKey, amf_hash_tokens, kv_filename, tok_filename}

pub record Settings : Type 0 where
  pub model_hash : ℕ
  pub tenant_hash : ℕ
  pub kv_version : ℕ
  pub rope_base_bits : ℕ
  pub rope_scale_bits : ℕ
  pub sampling_hash : ℕ
  pub rng_hash : ℕ
  pub max_model_len : ℕ

-- The manager: its files and its counters
pub record Manager : Type 0 where
  pub files : Dict Bytes
  pub hits : ℕ
  pub misses : ℕ
  pub saves : ℕ
  pub restore_ms : ℕ

-- `n_ctx or max_model_len`
abbrev pub context_length : Option ℕ → ℕ → ℕ
context_length none longest = longest
context_length (some n) longest = if n == 0 then longest else n

unfoldable pub compute_amf_key : Settings → List ℕ → Option ℕ → AmfKey
compute_amf_key s tokens n_ctx = record {
  model_hash = s.model_hash;
  tenant_hash = s.tenant_hash;
  prefix_hash = amf_hash_tokens tokens;
  n_ctx = context_length n_ctx s.max_model_len;
  kv_version = s.kv_version;
  rope_base_bits = s.rope_base_bits;
  rope_scale_bits = s.rope_scale_bits;
  sampling_hash = s.sampling_hash;
  rng_hash = s.rng_hash;
}

abbrev pub is_present : {A : Type 0} → Option A → Bool
is_present none = false
is_present (some a) = true

unfoldable pub has_snapshot : Settings → List ℕ → Manager → Bool
has_snapshot s tokens m = is_present (get (kv_filename (compute_amf_key s tokens none)) m.files)

-- What a save comes to: True, False, or an exception
pub data Saved : Type 0 where
  saved : Saved
  refused : Saved
  raised : Saved

-- `struct.pack(f"<{n}i", *tokens)` on tokens that are not negative, none where it raises
abbrev pub pack_tokens : List ℕ → Option Bytes
pack_tokens [] = some []
pack_tokens (t ∷ ts) = do
  rest ← pack_tokens ts
  if ltb t (2 ^ 31) then some (word_bytes 4 t ++ rest) else none

-- What the environment does during a save: which dtypes torch converts to numpy, and which of the two
-- writes raise no OSError
pub record Env : Type 0 where
  pub has_numpy : Dtype → Bool
  pub kv_writable : Bool
  pub tok_writable : Bool

abbrev pub all_numpy : Env → List Layer → Bool
all_numpy env [] = true
all_numpy env (l ∷ ls) = env.has_numpy l.dtype && all_numpy env ls

abbrev pub header_of : AmfKey → List ℕ → Layer → List Layer → List (Bytes × Bytes) → Header
header_of key tokens l ls parts = record {
  magic = 0x414d464b;
  version = 1;
  n_layers = length ls;
  n_tokens = length tokens;
  n_kv_heads = l.kv_heads;
  head_dim = l.head_dim;
  dtype = dtype_tag l.dtype;
  reserved = 0;
  total_kv_bytes = total_bytes 0 parts;
  model_hash = key.model_hash;
  prefix_hash = key.prefix_hash;
}

-- The bytes of the `.kv` file, none where gathering, packing or converting raises
unfoldable pub blob_of : Env → AmfKey → List ℕ → List ℕ → Layer → List Layer → Option Bytes
blob_of env key tokens table l ls = do
  parts ← collect table ls
  header ← pack_header (header_of key tokens l ls parts)
  infos ← pack_infos (layer_infos 0 parts)
  let payload = fill (layer_infos 0 parts) parts (zeros (total_bytes 0 parts))
  if all_numpy env ls then some (header ++ infos ++ payload) else none

-- The writes of the two files. An OSError of the second is only logged.
abbrev pub write_tokens : Bool → AmfKey → Option Bytes → Manager → Saved × Manager
write_tokens writable key none m = (raised, m)
write_tokens writable key (some bs) m = (
  saved,
  record m {
    files = if writable then put (tok_filename key) bs m.files else m.files;
    saves = suc m.saves;
  },
)

abbrev pub write_files : Env → AmfKey → List ℕ → Option Bytes → Manager → Saved × Manager
write_files env key tokens none m = (raised, m)
write_files env key tokens (some blob) m =
    if env.kv_writable
    then write_tokens env.tok_writable key (pack_tokens tokens)
        (record m { files = put (kv_filename key) blob m.files })
    else (refused, m)

unfoldable pub save_kv_state :
    Env → Settings → List ℕ → List ℕ → List Layer → Manager → Saved × Manager
unfolding blob_of
save_kv_state env s tokens table [] m = (refused, m)
save_kv_state env s tokens table (l ∷ ls) m =
    let key = compute_amf_key s tokens none in
    write_files env key tokens (blob_of env key tokens table l (l ∷ ls)) m

-- n blocks of the bytes, by `reshape`
abbrev pub split : ℕ → ℕ → Bytes → Blocks
split zero size bs = []
split (suc n) size bs = take size bs ∷ split n size (drop size bs)

-- `torch.frombuffer(bytes).reshape(k_all[block_ids].shape)`: none where the bytes are none or are
-- not as many as the blocks take
abbrev pub to_blocks : ℕ → ℕ → Bytes → Option Blocks
to_blocks n size bs =
    if not (length bs == 0) && (length bs == n * size) then some (split n size bs) else none

-- `t[block_ids] = src`
abbrev pub scatter : List ℕ → Blocks → Blocks → Blocks
scatter [] src t = t
scatter (i ∷ is) [] t = t
scatter (i ∷ is) (b ∷ bs) t = scatter is bs (set t i b)

-- K is written first; V into the same tensor if there is one.
abbrev pub scatter_cache : List ℕ → Blocks → Blocks → Cache → Cache
scatter_cache table k v (stacked ks vs) = stacked (scatter table k ks) (scatter table v vs)
scatter_cache table k v (joined t) = joined (scatter table v (scatter table k t))

-- A round of the loop over the layers, none where it raises
abbrev pub fill_layer : List ℕ → Bytes → Layer → LayerInfo → Option Layer
fill_layer table payload l i = do
  old ← gather table (k_all l.cache)
  k ← to_blocks (length table) l.block_bytes (slice i.k_off i.k_sz payload)
  v ← to_blocks (length table) l.block_bytes (slice i.v_off i.v_sz payload)
  some (record l { cache = scatter_cache table k v l.cache })

abbrev pub restore_layer : List ℕ → Bytes → Layer → LayerInfo → Option Layer
restore_layer [] payload l i = some l
restore_layer (b ∷ table) payload l i =
    if (i.k_sz == 0) && (i.v_sz == 0) then some l else fill_layer (b ∷ table) payload l i

-- The loop, and whether it raised nothing; layers stay as they are from one that raises on.
abbrev pub after_layer : Option Layer → Layer → List Layer → Bool × List Layer → Bool × List Layer
after_layer none l ls rest = (false, l ∷ ls)
after_layer (some l') l ls (fine, done) = (fine, l' ∷ done)

abbrev pub restore_layers : List ℕ → Bytes → List Layer → List LayerInfo → Bool × List Layer
restore_layers table payload [] is = (true, [])
restore_layers table payload (l ∷ ls) [] = (true, l ∷ ls)
restore_layers table payload (l ∷ ls) (i ∷ is) =
    after_layer (restore_layer table payload l i) l ls (restore_layers table payload ls is)

-- What a restore comes to: the number that it returns, or an exception
pub data Restored : Type 0 where
  returned : ℕ → Restored
  raised_at : Restored

pub record Outcome : Type 0 where
  pub answer : Restored
  pub layers : List Layer
  pub manager : Manager

abbrev pub missed : List Layer → Manager → Outcome
missed ls m = record {
  answer = returned 0;
  layers = ls;
  manager = record m { misses = suc m.misses };
}

abbrev pub finish : ℕ → ℕ → Bool × List Layer → Manager → Outcome
finish elapsed n_tokens (true, ls) m = record {
  answer = returned n_tokens;
  layers = ls;
  manager = record m { hits = suc m.hits; restore_ms = elapsed };
}
finish elapsed n_tokens (false, ls) m = record { answer = raised_at; layers = ls; manager = m }

-- The checks of the header and of the layer table
abbrev pub is_readable : List Layer → Header → Bytes → Bool
is_readable ls h blob =
    not (ltb (length blob) header_size)
    && ((h.magic == 0x414d464b)
        && ((h.version == 1)
            && ((h.n_layers == length ls)
                && not (ltb (length blob) (header_size + h.n_layers * layer_size)))))

abbrev pub restore_blob : ℕ → List ℕ → List Layer → Header → Bytes → Manager → Outcome
restore_blob elapsed table ls h blob m =
    let infos = unpack_infos h.n_layers header_size blob in
    let payload = drop (header_size + h.n_layers * layer_size) blob in
    let done = finish elapsed h.n_tokens (restore_layers table payload ls infos) m in
    if is_readable ls h blob then done else missed ls m

abbrev pub restore_file : ℕ → Bool → List ℕ → List Layer → Option Bytes → Manager → Outcome
restore_file elapsed readable table ls none m = missed ls m
restore_file elapsed readable table ls (some blob) m =
    if readable then restore_blob elapsed table ls (unpack_header blob) blob m else missed ls m

-- `readable` says whether reading the file raises no OSError.
unfoldable pub restore_kv_state :
    Settings → ℕ → Bool → List ℕ → List ℕ → List Layer → Manager → Outcome
restore_kv_state s elapsed readable tokens table ls m =
    restore_file elapsed readable table ls
      (get (kv_filename (compute_amf_key s tokens none)) m.files) m
