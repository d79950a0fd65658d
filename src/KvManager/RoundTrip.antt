-- ===== src/KvManager/RoundTrip.antt =====
-- korith_vllm_ext/amf_kv_manager.py: what a restore finds after a save of the same prompt.
use text.Mathlib.TextLemmas.{append_cancel_left}
use axropus_deploy.Prelude.{
  ℕ, suc, ◌+◌, ◌*◌, ◌≤◌, ◌≡◌, refl, sym, ap, ◌∙◌, Bool, true, false, List, [], ◌∷◌, ◌++◌, Option,
  none, some, arith, length, drop, length-append, inl, inr, Option-cases, Bool-cases, str_eq,
  eq_iff, eq_refl,
}
use axropus_deploy.Dict.{get, put}
use axropus_deploy.Dict.Laws.{get-put}
use axropus_deploy.KvManager.{
  Layer, collect, layer_infos, total_bytes, header_size, layer_size, fits_all, bytes_of,
  header_fields, unpack_header, pack_infos, unpack_infos, fill,
}
use axropus_deploy.KvManager.Words.{Bytes, zeros, append_assoc, drop_whole}
use axropus_deploy.KvManager.Keys.{AmfKey, amf_key_filename, kv_filename, tok_filename}
use axropus_deploy.KvManager.Packing.{
  some_inj, option_ne, unpack_header_lem, unpack_infos_lem, length-pack_infos,
}
use axropus_deploy.KvManager.Payload.{flat, fill_lem, total_bytes_lem, length-layer_infos}
use axropus_deploy.KvManager.Layers.{
  AllAlike, no_layers, more_layers, length-collect, restore_layers_lem,
}
use axropus_deploy.KvManager.Gathering.{Distinct}
use axropus_deploy.KvManager.Store.{
  Settings, Manager, saved, refused, raised, Env, all_numpy, header_of, blob_of, compute_amf_key,
  pack_tokens, write_tokens, write_files, save_kv_state, restore_layers, returned, finish,
  is_readable, restore_blob, restore_file, restore_kv_state,
}

-- A blob, by its parts
record Built (key : AmfKey) (tokens table : List ℕ) (l : Layer) (ls : List Layer) (blob : Bytes)
    : Type 0 where
  parts : List (Bytes × Bytes)
  infos : Bytes
  collected : collect table ls ≡ some parts
  header_fits : fits_all (header_fields (header_of key tokens l ls parts)) ≡ true
  infos_packed : pack_infos (layer_infos 0 parts) ≡ some infos
  built :
      blob
      ≡ bytes_of (header_fields (header_of key tokens l ls parts))
        ++ infos
        ++ fill (layer_infos 0 parts) parts (zeros (total_bytes 0 parts))

blob_of-Built :
    (env : Env) (key : AmfKey) (tokens table : List ℕ) (l : Layer) (ls : List Layer) (blob : Bytes)
    → blob_of env key tokens table l ls ≡ some blob
    → Built key tokens table l ls blob
unfolding blob_of
blob_of-Built env key tokens table l ls blob h = elim (Option-cases (collect table ls)) [
  | inl e ↦ absurd (option_ne (rw e at h))
  | inr (parts, e) ↦
      elim (Bool-cases (fits_all (header_fields (header_of key tokens l ls parts)))) [
        | inr f ↦ absurd (option_ne (rw (e, f) at h))
        | inl f ↦ elim (Option-cases (pack_infos (layer_infos 0 parts))) [
          | inl g ↦ absurd (option_ne (rw (e, f, g) at h))
          | inr (infos, g) ↦ elim (Bool-cases (all_numpy env ls)) [
            | inr i ↦ absurd (option_ne (rw (e, f, g, i) at h))
            | inl i ↦ record {
              parts = parts;
              infos = infos;
              collected = e;
              header_fits = f;
              infos_packed = g;
              built = sym (some_inj (rw (e, f, g, i) at h));
            }
          ]
        ]
      ]
]

true_ne : {P : Type 0} → true ≡ false → P
true_ne h = absurd cc

names-ne : (k : AmfKey) → str_eq (tok_filename k) (kv_filename k) ≡ false
names-ne k = elim (Bool-cases (str_eq (tok_filename k) (kv_filename k))) [
  | inr e ↦ e
  | inl e ↦ true_ne (
      ap (str_eq ".tok") (
        append_cancel_left (amf_key_filename k) ".tok" ".kv"
          ((eq_iff (tok_filename k) (kv_filename k)).0 e)))
]

refused_ne : {P : Type 0} → refused ≡ saved → P
refused_ne h = absurd cc

raised_ne : {P : Type 0} → raised ≡ saved → P
raised_ne h = absurd cc

kept_file :
    (writable : Bool) (key : AmfKey) (blob bs : Bytes) (m : Manager)
    → get
        (kv_filename key)
        (write_tokens writable key
          (some bs)
          (record m { files = put (kv_filename key) blob m.files })).1.files
      ≡ some blob
kept_file true key blob bs m =
    get-put (kv_filename key) (tok_filename key) bs (put (kv_filename key) blob m.files)
    ∙ rw (names-ne key) (
        get-put (kv_filename key) (kv_filename key) blob m.files
        ∙ rw (eq_refl (kv_filename key)) refl)
kept_file false key blob bs m =
    get-put (kv_filename key) (kv_filename key) blob m.files ∙ rw (eq_refl (kv_filename key)) refl

-- What a save that returns True leaves
record Kept (env : Env) (key : AmfKey) (tokens table : List ℕ) (l : Layer) (ls : List Layer)
    (m m' : Manager) : Type 0 where
  blob : Bytes
  made : blob_of env key tokens table l ls ≡ some blob
  kept : get (kv_filename key) m'.files ≡ some blob
  same_hits : m'.hits ≡ m.hits

write_files-Kept :
    (env : Env) (key : AmfKey) (tokens table : List ℕ) (l : Layer) (ls : List Layer) (m : Manager)
    (o : Option Bytes)
    → blob_of env key tokens table l ls ≡ o
    → (write_files env key tokens o m).0 ≡ saved
    → Kept env key tokens table l ls m (write_files env key tokens o m).1
unfolding blob_of
write_files-Kept env key tokens table l ls m none e h = absurd cc
write_files-Kept env key tokens table l ls m (some blob) e h = elim (Bool-cases env.kv_writable) [
  | inr w ↦ absurd (refused_ne (rw w at h))
  | inl w ↦ elim (Option-cases (pack_tokens tokens)) [
    | inl p ↦ absurd (raised_ne (rw (w, p) at h))
    | inr (bs, p) ↦
        rw (w, p)
          (record {
            blob = blob;
            made = e;
            kept = kept_file env.tok_writable key blob bs m;
            same_hits = refl;
          })
  ]
]

-- A blob that was built, part by part
module _ {key : AmfKey} {tokens table : List ℕ} {l : Layer} {ls : List Layer} {blob : Bytes}
    (b : Built key tokens table l ls blob) where
  whole :
      blob
      ≡ bytes_of (header_fields (header_of key tokens l ls b.parts)) ++ (b.infos ++ flat b.parts)
  whole =
      let head = bytes_of (header_fields (header_of key tokens l ls b.parts)) in
      let sized : total_bytes 0 b.parts ≡ length (flat b.parts) =
        omega (arith, total_bytes_lem 0 b.parts) in
      b.built
      ∙ (ap (λ x. head ++ b.infos ++ x) (fill_lem b.parts [] 0 (total_bytes 0 b.parts) refl sized)
          ∙ append_assoc head b.infos (flat b.parts))

  header_read : unpack_header blob ≡ header_of key tokens l ls b.parts
  header_read =
      ap unpack_header whole
      ∙ unpack_header_lem (header_of key tokens l ls b.parts) (b.infos ++ flat b.parts)
          b.header_fits

  count_layers : length (layer_infos 0 b.parts) ≡ length ls
  count_layers = length-layer_infos 0 b.parts ∙ length-collect table ls b.parts b.collected

  infos_read : unpack_infos (length ls) header_size blob ≡ layer_infos 0 b.parts
  infos_read =
      ap (unpack_infos (length ls) header_size) whole
      ∙ (ap
            (λ n. unpack_infos n header_size (
              bytes_of (header_fields (header_of key tokens l ls b.parts))
              ++ (b.infos ++ flat b.parts)))
            (sym count_layers)
          ∙ unpack_infos_lem (layer_infos 0 b.parts)
              (bytes_of (header_fields (header_of key tokens l ls b.parts))) b.infos (flat b.parts)
              header_size b.infos_packed refl)

  length-infos : length b.infos ≡ length ls * layer_size
  length-infos =
      length-pack_infos (layer_infos 0 b.parts) b.infos b.infos_packed
      ∙ ap (λ n. n * layer_size) count_layers

  payload_read : drop (header_size + length ls * layer_size) blob ≡ flat b.parts
  payload_read =
      let head = bytes_of (header_fields (header_of key tokens l ls b.parts)) in
      ap (drop (header_size + length ls * layer_size)) whole
      ∙ (ap (drop (header_size + length ls * layer_size))
            (sym (append_assoc head b.infos (flat b.parts)))
          ∙ drop_whole (head ++ b.infos) (flat b.parts) (header_size + length ls * layer_size)
              (ap (λ n. header_size + n) (sym length-infos) ∙ sym (length-append head b.infos)))

  long_enough : header_size + length ls * layer_size ≤ length blob
  long_enough =
      let head = bytes_of (header_fields (header_of key tokens l ls b.parts)) in
      let measured : length blob ≡ header_size + length (b.infos ++ flat b.parts) =
        ap length whole ∙ length-append head (b.infos ++ flat b.parts) in
      let rest = length-append b.infos (flat b.parts) in let same = length-infos in omega arith

  readable_by :
      (ls' : List Layer)
      → length ls ≡ length ls'
      → is_readable ls' (header_of key tokens l ls b.parts) blob ≡ true
  readable_by ls' h = let enough = long_enough in ground arith

  restore_built :
      (elapsed : ℕ) (to : List ℕ) (ls' done : List Layer) (m : Manager)
      → length ls ≡ length ls'
      → restore_layers to (flat b.parts) ls' (layer_infos 0 b.parts) ≡ (true, done)
      → restore_file elapsed true to ls' (some blob) m
        ≡ finish elapsed (length tokens) (true, done) m
  restore_built elapsed to ls' done m h filled =
      ap (λ x. restore_blob elapsed to ls' x blob m) header_read
      ∙ rw (readable_by ls' h, payload_read, infos_read, filled) refl

AllAlike-length :
    {table : List ℕ} {ls ls' : List Layer} → AllAlike table ls ls' → length ls ≡ length ls'
AllAlike-length no_layers = refl
AllAlike-length (more_layers l l' ls ls' a rest) = ap suc (AllAlike-length rest)

-- If a save of a prompt's blocks returns True, then a restore of the same prompt that can read the
-- file, into as many distinct blocks of layers of the same layout and block size, returns the number
-- of tokens, counts a hit, and leaves in those blocks of each layer the K and V that were saved.
pub restore-save :
    (env : Env) (s : Settings) (tokens : List ℕ) (a : ℕ) (from : List ℕ) (b : ℕ) (to : List ℕ)
    (l : Layer) (ls ls' : List Layer) (m : Manager) (elapsed : ℕ)
    → Distinct (b ∷ to)
    → length from ≡ length to
    → AllAlike (b ∷ to) (l ∷ ls) ls'
    → (save_kv_state env s tokens (a ∷ from) (l ∷ ls) m).0 ≡ saved
    → let o =
        restore_kv_state s elapsed true tokens
          (b ∷ to)
          ls'
          (save_kv_state env s tokens (a ∷ from) (l ∷ ls) m).1 in
      (o.answer ≡ returned (length tokens))
      × ((o.manager.hits ≡ suc m.hits) × (collect (b ∷ to) o.layers ≡ collect (a ∷ from) (l ∷ ls)))
unfolding save_kv_state restore_kv_state
restore-save env s tokens a from b to l ls ls' m elapsed distinct long alike h =
    let key = compute_amf_key s tokens none in
    let m' = (save_kv_state env s tokens (a ∷ from) (l ∷ ls) m).1 in
    let kept : Kept env key tokens (a ∷ from) l (l ∷ ls) m m' =
      write_files-Kept env key tokens (a ∷ from) l (l ∷ ls) m _ refl h in
    let built = blob_of-Built env key tokens (a ∷ from) l (l ∷ ls) kept.blob kept.made in
    let (done, (filled, gathered)) =
      restore_layers_lem a from b to distinct long (l ∷ ls) ls' built.parts [] 0 alike
        built.collected refl in
    let run = restore_built built elapsed (b ∷ to) ls' done m' (AllAlike-length alike) filled in
    rw (kept.kept, run) (refl, (ap suc kept.same_hits, gathered ∙ sym built.collected))
