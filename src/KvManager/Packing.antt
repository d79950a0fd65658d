-- ===== src/KvManager/Packing.antt =====
-- korith_vllm_ext/amf_kv_manager.py: the header and the layer table of a file, written and read.
use axropus_deploy.Prelude.{
  ℕ, ◌+◌, ◌*◌, ◌≡◌, refl, sym, ap, ◌∙◌, true, List, [], ◌∷◌, ◌++◌, Option, some, All, arith, length,
  drop, length-append, inl, inr, Bool-cases, Option-cases,
}
use axropus_deploy.KvManager.{
  LayerInfo, Header, fits_all, bytes_of, header_fields, info_fields, unpack_header, pack_infos,
  unpack_info, unpack_infos, layer_size,
}
use axropus_deploy.KvManager.Words.{
  Bytes, word, word_bytes, word-word_bytes, drop_whole, append_assoc,
}

pub some_inj : {A : Type 0} {x y : A} → some x ≡ some y → x ≡ y
some_inj {A = A} {x = x} {y = y} h = cc

pub option_ne : {A : Type 0} {x : A} {P : Type 0} → Option.none ≡ some x → P
option_ne h = absurd cc

header_ext :
    (g h : Header)
    → g.magic ≡ h.magic
    → g.version ≡ h.version
    → g.n_layers ≡ h.n_layers
    → g.n_tokens ≡ h.n_tokens
    → g.n_kv_heads ≡ h.n_kv_heads
    → g.head_dim ≡ h.head_dim
    → g.dtype ≡ h.dtype
    → g.reserved ≡ h.reserved
    → g.total_kv_bytes ≡ h.total_kv_bytes
    → g.model_hash ≡ h.model_hash
    → g.prefix_hash ≡ h.prefix_hash
    → g ≡ h
header_ext g h e1 e2 e3 e4 e5 e6 e7 e8 e9 e10 e11 = cc

-- Each field is read back.
Reads : ℕ × ℕ → Type 0
Reads f = word (word_bytes f.0 f.1) ≡ f.1

fits_all-Reads : (fs : List (ℕ × ℕ)) → fits_all fs ≡ true → All Reads fs
unfolding Reads
fits_all-Reads [] h = tt
fits_all-Reads ((w, v) ∷ fs) h =
    (word-word_bytes w v (ground arith), fits_all-Reads fs (ground arith))

pub unpack_header_lem :
    (h : Header) (rest : Bytes)
    → fits_all (header_fields h) ≡ true
    → unpack_header (bytes_of (header_fields h) ++ rest) ≡ h
unfolding Reads
unpack_header_lem h rest e =
    let (a, (b, (c, (d, (f, (g, (i, (j, (k, (l, (m, end))))))))))) =
      fits_all-Reads (header_fields h) e in
    header_ext (unpack_header (bytes_of (header_fields h) ++ rest)) h a b c d f g i j k l m

info_ext :
    (g h : LayerInfo)
    → g.k_off ≡ h.k_off
    → g.k_sz ≡ h.k_sz
    → g.v_off ≡ h.v_off
    → g.v_sz ≡ h.v_sz
    → g ≡ h
info_ext g h e1 e2 e3 e4 = cc

unpack_info_lem :
    (i : LayerInfo) (rest : Bytes)
    → fits_all (info_fields i) ≡ true
    → unpack_info (bytes_of (info_fields i) ++ rest) ≡ i
unfolding Reads
unpack_info_lem i rest e =
    let (a, (b, (c, (d, end)))) = fits_all-Reads (info_fields i) e in
    info_ext (unpack_info (bytes_of (info_fields i) ++ rest)) i a b c d

pack_infos_cons :
    (i : LayerInfo) (is : List LayerInfo) (bs : Bytes)
    → pack_infos (i ∷ is) ≡ some bs
    → (rest : Bytes) × ((pack_infos is ≡ some rest)
        × ((fits_all (info_fields i) ≡ true) × (bytes_of (info_fields i) ++ rest ≡ bs)))
pack_infos_cons i is bs h = elim (Option-cases (pack_infos is)) [
  | inl e ↦ absurd (option_ne (rw e at h))
  | inr (rest, e) ↦ elim (Bool-cases (fits_all (info_fields i))) [
    | inl fits ↦ (rest, (e, (fits, some_inj (rw (e, fits) at h))))
    | inr not_fits ↦ absurd (option_ne (rw (e, not_fits) at h))
  ]
]

pub length-pack_infos :
    (is : List LayerInfo) (bs : Bytes)
    → pack_infos is ≡ some bs
    → length bs ≡ length is * layer_size
length-pack_infos [] bs h = rw (← some_inj h) refl
length-pack_infos (i ∷ is) bs h =
    let (rest, (e, (_, same))) = pack_infos_cons i is bs h in
    rw (← same)
      (omega (arith, length-append (bytes_of (info_fields i)) rest, length-pack_infos is rest e))

pub unpack_infos_lem :
    (is : List LayerInfo) (pre bs rest : Bytes) (off : ℕ)
    → pack_infos is ≡ some bs
    → off ≡ length pre
    → unpack_infos (length is) off (pre ++ (bs ++ rest)) ≡ is
unpack_infos_lem [] pre bs rest off h k = refl
unpack_infos_lem (i ∷ is) pre bs rest off h k =
    let (more, (e, (fits, same))) = pack_infos_cons i is bs h in
    let dropped : drop off (pre ++ (bs ++ rest)) ≡ bytes_of (info_fields i) ++ (more ++ rest) =
      drop_whole pre (bs ++ rest) off k
      ∙ (ap (λ x. x ++ rest) (sym same) ∙ append_assoc (bytes_of (info_fields i)) more rest) in
    let moved : pre ++ (bs ++ rest) ≡ (pre ++ bytes_of (info_fields i)) ++ (more ++ rest) =
      ap (λ x. pre ++ x)
        (ap (λ x. x ++ rest) (sym same) ∙ append_assoc (bytes_of (info_fields i)) more rest)
      ∙ sym (append_assoc pre (bytes_of (info_fields i)) (more ++ rest)) in
    let head = ap unpack_info dropped ∙ unpack_info_lem i (more ++ rest) fits in
    let tail =
      ap (unpack_infos (length is) (off + layer_size)) moved
      ∙ unpack_infos_lem is (pre ++ bytes_of (info_fields i)) more rest (off + layer_size) e
          (omega (arith, length-append pre (bytes_of (info_fields i)))) in
    rw (head, tail) refl
