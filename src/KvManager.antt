-- ===== src/KvManager.antt =====
-- korith_vllm_ext/amf_kv_manager.py: snapshots of vLLM's cache in files. A tensor of blocks is a
-- list of blocks, a block the list of its bytes.
pub mod Words
pub mod Keys
pub mod Store
pub mod Packing
pub mod Payload
pub mod Layers
pub mod RoundTrip
pub mod Misses
pub mod Gathering
pub mod Hashes
pub mod Names
mod Tests
use axropus_deploy.Prelude.{
  ℕ, zero, suc, ◌+◌, ◌*◌, String, Bool, true, false, not, ◌&&◌, ◌||◌, List, [], ◌∷◌, ◌++◌, Option,
  none, some, if◌then◌else◌, ltb, leb, ◌==◌, length, get_elem?, set, take, drop, replicate, any_of,
}
use axropus_deploy.Dict.{Dict, get, put}
use axropus_deploy.KvManager.Words.{Bytes, has_room, word_bytes, field, slice, write_at}

pub data Dtype : Type 0 where
  float16 : Dtype
  float32 : Dtype
  bfloat16 : Dtype
  other_dtype : Dtype

-- `_DTYPE_TAG.get(dtype, 0)`
abbrev pub dtype_tag : Dtype → ℕ
dtype_tag float16 = 0
dtype_tag float32 = 1
dtype_tag bfloat16 = 2
dtype_tag other_dtype = 0

abbrev pub Blocks : Type 0
Blocks = List Bytes

-- The cache of a layer: K and V stacked in one tensor of 5 dimensions, or one tensor that the code
-- takes for both.
pub data Cache : Type 0 where
  stacked : Blocks → Blocks → Cache
  joined : Blocks → Cache

pub record Layer : Type 0 where
  pub dtype : Dtype
  pub kv_heads : ℕ
  pub head_dim : ℕ
  pub block_bytes : ℕ
  pub cache : Cache

abbrev pub k_all : Cache → Blocks
k_all (stacked k v) = k
k_all (joined t) = t

abbrev pub v_all : Cache → Blocks
v_all (stacked k v) = v
v_all (joined t) = t

infixl 5 ◌>>=◌
abbrev pub ◌>>=◌ : {A B : Type 0} → Option A → (A → Option B) → Option B
none >>= f = none
some a >>= f = f a

-- `t[block_ids]`, none where a block is out of range
abbrev pub gather : List ℕ → Blocks → Option Blocks
gather [] t = some []
gather (i ∷ is) t = do b ← get_elem? t i; bs ← gather is t; some (b ∷ bs)

-- The blocks of a sequence, or all of them for an empty block table
abbrev pub blocks_of : List ℕ → Blocks → Option Blocks
blocks_of [] t = some t
blocks_of (i ∷ is) t = gather (i ∷ is) t

abbrev pub concat : Blocks → Bytes
concat [] = []
concat (b ∷ bs) = b ++ concat bs

-- What is gathered of each layer, K and V, as bytes
abbrev pub collect : List ℕ → List Layer → Option (List (Bytes × Bytes))
collect table [] = some []
collect table (l ∷ ls) = do
  k ← blocks_of table (k_all l.cache)
  v ← blocks_of table (v_all l.cache)
  rest ← collect table ls
  some ((concat k, concat v) ∷ rest)

pub record LayerInfo : Type 0 where
  pub k_off : ℕ
  pub k_sz : ℕ
  pub v_off : ℕ
  pub v_sz : ℕ

-- The offsets of the layers, and where the last one ends
abbrev pub layer_infos : ℕ → List (Bytes × Bytes) → List LayerInfo
layer_infos total [] = []
layer_infos total ((k, v) ∷ ts) =
    record { k_off = total; k_sz = length k; v_off = total + length k; v_sz = length v }
    ∷ layer_infos (total + (length k + length v)) ts

abbrev pub total_bytes : ℕ → List (Bytes × Bytes) → ℕ
total_bytes total [] = total
total_bytes total ((k, v) ∷ ts) = total_bytes (total + (length k + length v)) ts

pub record Header : Type 0 where
  pub magic : ℕ
  pub version : ℕ
  pub n_layers : ℕ
  pub n_tokens : ℕ
  pub n_kv_heads : ℕ
  pub head_dim : ℕ
  pub dtype : ℕ
  pub reserved : ℕ
  pub total_kv_bytes : ℕ
  pub model_hash : ℕ
  pub prefix_hash : ℕ

abbrev pub header_size : ℕ
header_size = 56

abbrev pub layer_size : ℕ
layer_size = 32

-- `struct.pack` of fields, each a width and a value, where each value fits
abbrev pub bytes_of : List (ℕ × ℕ) → Bytes
bytes_of [] = []
bytes_of ((w, v) ∷ fields) = word_bytes w v ++ bytes_of fields

abbrev pub fits_all : List (ℕ × ℕ) → Bool
fits_all [] = true
fits_all ((w, v) ∷ fields) = if has_room w v then fits_all fields else false

-- `_HEADER_FMT`
abbrev pub header_fields : Header → List (ℕ × ℕ)
header_fields h =
    (4, h.magic)
    ∷ (4, h.version)
    ∷ (4, h.n_layers)
    ∷ (4, h.n_tokens)
    ∷ (4, h.n_kv_heads)
    ∷ (4, h.head_dim)
    ∷ (4, h.dtype)
    ∷ (4, h.reserved)
    ∷ (8, h.total_kv_bytes)
    ∷ (8, h.model_hash)
    ∷ (8, h.prefix_hash)
    ∷ []

-- `struct.pack(_HEADER_FMT, ...)`, none where it raises
abbrev pub pack_header : Header → Option Bytes
pack_header h = if fits_all (header_fields h) then some (bytes_of (header_fields h)) else none

-- `struct.unpack_from(_HEADER_FMT, blob, 0)`
abbrev pub unpack_header : Bytes → Header
unpack_header bs = record {
  magic = field 4 0 bs;
  version = field 4 4 bs;
  n_layers = field 4 8 bs;
  n_tokens = field 4 12 bs;
  n_kv_heads = field 4 16 bs;
  head_dim = field 4 20 bs;
  dtype = field 4 24 bs;
  reserved = field 4 28 bs;
  total_kv_bytes = field 8 32 bs;
  model_hash = field 8 40 bs;
  prefix_hash = field 8 48 bs;
}

-- `_LAYER_FMT`
abbrev pub info_fields : LayerInfo → List (ℕ × ℕ)
info_fields i = (8, i.k_off) ∷ (8, i.k_sz) ∷ (8, i.v_off) ∷ (8, i.v_sz) ∷ []

abbrev pub pack_infos : List LayerInfo → Option Bytes
pack_infos [] = some []
pack_infos (i ∷ is) = do
  rest ← pack_infos is
  if fits_all (info_fields i) then some (bytes_of (info_fields i) ++ rest) else none

abbrev pub unpack_info : Bytes → LayerInfo
unpack_info bs = record {
  k_off = field 8 0 bs;
  k_sz = field 8 8 bs;
  v_off = field 8 16 bs;
  v_sz = field 8 24 bs;
}

-- The entries of the layer table from an offset on
abbrev pub unpack_infos : ℕ → ℕ → Bytes → List LayerInfo
unpack_infos zero off blob = []
unpack_infos (suc n) off blob = unpack_info (drop off blob) ∷ unpack_infos n (off + layer_size) blob

-- The loop that copies each layer's K and V into the payload
abbrev pub fill : List LayerInfo → List (Bytes × Bytes) → Bytes → Bytes
fill [] ts buf = buf
fill (i ∷ is) [] buf = buf
fill (i ∷ is) ((k, v) ∷ ts) buf = fill is ts (write_at i.v_off v (write_at i.k_off k buf))
