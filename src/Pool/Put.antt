-- ===== src/Pool/Put.antt =====
-- korith_vllm_ext/compressed_vram_pool.py: the insertions `put_from_raw`, `promote_from_raw` and
-- `put_from_vllm`. What torch and the codecs compute is an argument: a layer of type `T` is compressed
-- by a function from `codecs`, which may raise (`none`).
use axropus_deploy.Prelude.{
  ℕ, zero, suc, ◌+◌, ◌*◌, String, Bool, false, List, [], ◌∷◌, Option, none, some, ◌==◌, str_eq,
  if◌then◌else◌, length,
}
use axropus_deploy.Pool.{CompressedKv, Pool, Floats}
use axropus_deploy.Pool.Insert.{
  Clock, Result, ok, raise, value_error, codec_error, compress_error, index_error, insert,
}

-- A raw tensor: its shape, whether its dtype has one byte, and its layers after the reshape.
pub record Tensor (T : Type 0) : Type 0 where
  pub shape : List ℕ
  pub one_byte : Bool
  pub layer : ℕ → T

-- The three accepted layouts: layers, tokens, heads, head dimension.
unfoldable pub infer_layout : List ℕ → Result (ℕ × ℕ × ℕ × ℕ)
infer_layout (l ∷ two ∷ t ∷ h ∷ d ∷ []) = if two == 2 then ok (l, t, h, d) else raise value_error
infer_layout (l ∷ two ∷ nb ∷ bs ∷ h ∷ d ∷ []) =
    if two == 2 then ok (l, nb * bs, h, d) else raise value_error
infer_layout (nb ∷ bs ∷ h ∷ d ∷ []) = ok (1, nb * bs, h, d)
infer_layout _ = raise value_error

-- `format or self.default_format`
abbrev pub or_default : Option String → String → String
or_default none d = d
or_default (some f) d = if str_eq f "" then d else f

-- A dtype of one byte is stored as it is.
abbrev pub chosen_format : {C F : Type 0} → Bool → Option String → Pool C F → String
chosen_format one_byte format p =
    if one_byte then "fp8_e4m3" else or_default format p.default_format

-- `[f(i) for i in range(layer, layer + n)]`
abbrev pub tabulate {ℓ} : {A : Type ℓ} → (ℕ → A) → ℕ → ℕ → List A
tabulate f i zero = []
tabulate f i (suc n) = f i ∷ tabulate f (i + 1) n

-- The loop that compresses layer by layer; `none` if the codec raises for one of them.
unfoldable pub compress_all :
    {C T : Type 0} → (T → Option (CompressedKv C)) → List T → Option (List (CompressedKv C))
compress_all compress [] = some []
compress_all compress (x ∷ xs) = elim (compress x) [
  | none ↦ none
  | some b ↦ elim (compress_all compress xs) [ none ↦ none | some bs ↦ some (b ∷ bs) ]
]

module _ {C F T : Type 0} (fl : Floats F)
    (codecs : String → Option (T → Option (CompressedKv C))) where
  -- The insertion of the compressed layers
  unfoldable pub put_blobs :
      Clock
      → String
      → String
      → F
      → Pool C F
      → ℕ × ℕ × ℕ × ℕ
      → Option (List (CompressedKv C))
      → Result Bool × Pool C F
  put_blobs clock k fmt savings p (l, t, h, d) none = (raise compress_error, p)
  put_blobs clock k fmt savings p (l, t, h, d) (some blobs) =
      insert fl clock
        (record {
          prefix_hash = k;
          format = fmt;
          num_layers = l;
          num_tokens = t;
          dims = λ b. (h, d);
          savings_ms = savings;
          blobs = blobs;
        })
        p

  unfoldable pub put_layout :
      Clock
      → String
      → Tensor T
      → String
      → F
      → Pool C F
      → Result (ℕ × ℕ × ℕ × ℕ)
      → Option (T → Option (CompressedKv C))
      → Result Bool × Pool C F
  unfolding put_blobs
  put_layout clock k raw fmt savings p (raise e) codec = (raise e, p)
  put_layout clock k raw fmt savings p (ok layout) none = (raise codec_error, p)
  put_layout clock k raw fmt savings p (ok layout) (some compress) =
      put_blobs clock k fmt savings p layout (compress_all compress (tabulate raw.layer 0 layout.0))

  unfoldable pub put_from_raw :
      Clock → String → Tensor T → Option String → F → Pool C F → Result Bool × Pool C F
  unfolding put_layout infer_layout
  put_from_raw clock k raw format savings p =
      let fmt = chosen_format raw.one_byte format p in
      put_layout clock k raw fmt savings p (infer_layout raw.shape) (codecs fmt)

  -- `promote_from_raw`, with the default savings of 0.0
  unfoldable pub promote_from_raw :
      Clock → String → Tensor T → Option String → Pool C F → Result Bool × Pool C F
  promote_from_raw clock k raw format p = put_from_raw clock k raw format (fl.of_nat 0) p

-- `shape[-2] if len(shape) > 2 else 1`, `shape[-1] if len(shape) > 1 else 1`
abbrev pub last_two : List ℕ → ℕ × ℕ
last_two [] = (1, 1)
last_two (a ∷ []) = (1, 1)
last_two (a ∷ b ∷ []) = (1, b)
last_two (a ∷ b ∷ c ∷ []) = (b, c)
last_two (a ∷ b ∷ c ∷ rest) = last_two (b ∷ c ∷ rest)

-- vLLM's cache: one tensor for each layer, and whether its dtype has one byte.
pub record Cache (L : Type 0) : Type 0 where
  pub one_byte : Bool
  pub layers : List L

-- The loop over the layers: each is gathered by the block table, in chunks, and compressed. `gather`
-- is `none` where the indexing raises.
gather_all :
    {C T L : Type 0}
    → (L → Option T)
    → (T → Option (CompressedKv C))
    → List L
    → Result (List (CompressedKv C))
gather_all gather compress [] = ok []
gather_all gather compress (l ∷ ls) = elim (gather l) [
  | none ↦ raise index_error
  | some x ↦ elim (compress x) [
    | none ↦ raise compress_error
    | some b ↦ elim (gather_all gather compress ls) [ ok bs ↦ ok (b ∷ bs) | raise e ↦ raise e ]
  ]
]

-- `gather` stands for the indexing of a layer by the block table.
module _ {C F T L : Type 0} (fl : Floats F) (codecs : String → Option (T → Option (CompressedKv C)))
    (gather : L → List ℕ → Option T) where
  -- The insertion of the compressed layers; heads and head dimension are those of each blob.
  put_gathered_blobs :
      Clock
      → String
      → ℕ
      → ℕ
      → String
      → F
      → Pool C F
      → Result (List (CompressedKv C))
      → Result Bool × Pool C F
  put_gathered_blobs clock k n_layers n_tokens fmt savings p (raise e) = (raise e, p)
  put_gathered_blobs clock k n_layers n_tokens fmt savings p (ok blobs) =
      insert fl clock
        (record {
          prefix_hash = k;
          format = fmt;
          num_layers = n_layers;
          num_tokens = n_tokens;
          dims = λ b. last_two b.shape;
          savings_ms = savings;
          blobs = blobs;
        })
        p

  put_gathered :
      Clock
      → String
      → List L
      → List ℕ
      → ℕ
      → String
      → F
      → Pool C F
      → Option (T → Option (CompressedKv C))
      → Result Bool × Pool C F
  put_gathered clock k layers table n_tokens fmt savings p none = (raise codec_error, p)
  put_gathered clock k layers [] n_tokens fmt savings p (some compress) = (raise index_error, p)
  put_gathered clock k layers (id ∷ table) n_tokens fmt savings p (some compress) =
      put_gathered_blobs clock k (length layers) n_tokens fmt savings p
        (gather_all (λ l. gather l (id ∷ table)) compress layers)

  unfoldable pub put_from_vllm :
      Clock → String → Cache L → List ℕ → ℕ → Option String → F → Pool C F → Result Bool × Pool C F
  unfolding put_gathered put_gathered_blobs gather_all
  put_from_vllm clock k cache table n_tokens format savings p =
      let fmt = chosen_format cache.one_byte format p in
      if length cache.layers == 0
      then (ok false, p)
      else put_gathered clock k cache.layers table n_tokens fmt savings p (codecs fmt)
