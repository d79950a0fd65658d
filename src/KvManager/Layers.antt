-- ===== src/KvManager/Layers.antt =====
-- korith_vllm_ext/amf_kv_manager.py: the loop that copies the payload into the layers.
use axropus_deploy.Prelude.{
  ℕ, suc, ◌+◌, ◌*◌, ◌≤◌, ◌≡◌, refl, sym, ap, ◌∙◌, Bool, true, false, List, [], ◌∷◌, ◌++◌, some,
  ◌==◌, arith, length, length-append, inl, inr, Option-cases,
}
use axropus_deploy.KvManager.{
  Blocks, Cache, stacked, joined, Layer, k_all, v_all, gather, blocks_of, concat, collect,
  LayerInfo, layer_infos,
}
use axropus_deploy.KvManager.Words.{Bytes, slice, slice-append, append_assoc}
use axropus_deploy.KvManager.Packing.{some_inj, option_ne}
use axropus_deploy.KvManager.Payload.{flat}
use axropus_deploy.KvManager.Gathering.{
  Sized, InRange, Distinct, length-concat, to_blocks-concat, gather-Sized, gather-InRange,
  scatter-InRange, gather-scatter,
}
use axropus_deploy.KvManager.Store.{
  scatter, scatter_cache, restore_layer, after_layer, restore_layers,
}

abbrev pub is_stacked : Cache → Bool
is_stacked (stacked k v) = true
is_stacked (joined t) = false

-- A layer to restore into, for the layer that was saved: of the same layout, with blocks of the same
-- positive size, and the block table in range.
pub record Alike (table : List ℕ) (l l' : Layer) : Type 0 where
  pub same_layout : is_stacked l.cache ≡ is_stacked l'.cache
  pub same_size : l'.block_bytes ≡ l.block_bytes
  pub positive : 1 ≤ l.block_bytes
  pub sized : Sized l.block_bytes (k_all l.cache) × Sized l.block_bytes (v_all l.cache)
  pub in_range : InRange table (k_all l'.cache) × InRange table (v_all l'.cache)

-- Layer by layer
pub data AllAlike (table : List ℕ) : List Layer → List Layer → Type 0 where
  no_layers : AllAlike table [] []
  more_layers :
      (l l' : Layer) (ls ls' : List Layer)
      → Alike table l l'
      → AllAlike table ls ls'
      → AllAlike table (l ∷ ls) (l' ∷ ls')

-- What is gathered after K and V are scattered to distinct blocks: of a joined cache, the same for both
scattered :
    (table : List ℕ) (k v : Blocks) (saved old : Cache)
    → is_stacked saved ≡ is_stacked old
    → Distinct table
    → InRange table (k_all old) × InRange table (v_all old)
    → length k ≡ length table
    → length v ≡ length table
    → (is_stacked saved ≡ false → k ≡ v)
    → (gather table (k_all (scatter_cache table k v old)) ≡ some k)
      × (gather table (v_all (scatter_cache table k v old)) ≡ some v)
scattered table k v saved (stacked ks vs) same d r lk lv one =
    (gather-scatter table k ks d r.0 lk, gather-scatter table v vs d r.1 lv)
scattered table k v saved (joined t) same d r lk lv one =
    let found =
      gather-scatter table v (scatter table k t) d (scatter-InRange table table k t r.0) lv in
    (found ∙ ap some (sym (one same)), found)

joined_same :
    (table : List ℕ) (c : Cache) (k v : Blocks)
    → gather table (k_all c) ≡ some k
    → gather table (v_all c) ≡ some v
    → is_stacked c ≡ false
    → k ≡ v
joined_same table (stacked ks vs) k v ek ev h = absurd (ground arith)
joined_same table (joined t) k v ek ev h = some_inj (sym ek ∙ ev)

module _ (b : ℕ) (bs : List ℕ) (d : Distinct (b ∷ bs)) where
  fill_layer_lem :
      (l l' : Layer) (k v : Blocks) (pre rest : Bytes) (off n : ℕ)
      → Alike (b ∷ bs) l l'
      → length k ≡ n
      → length v ≡ n
      → n ≡ length (b ∷ bs)
      → Sized l.block_bytes k × Sized l.block_bytes v
      → off ≡ length pre
      → restore_layer (b ∷ bs) (pre ++ (concat k ++ (concat v ++ rest))) l' (record {
        k_off = off;
        k_sz = length (concat k);
        v_off = off + length (concat k);
        v_sz = length (concat v);
      })
        ≡ some (record l' { cache = scatter_cache (b ∷ bs) k v l'.cache })
  fill_layer_lem l l' k v pre rest off n a lk lv ln sz h =
      let payload = pre ++ (concat k ++ (concat v ++ rest)) in
      let bytes = length-concat l.block_bytes k sz.0 in
      let enough : 1 ≤ length (b ∷ bs) * l.block_bytes = grind (arith, a.positive) in
      let whole : length (concat k) ≡ length (b ∷ bs) * l.block_bytes =
        bytes ∙ ap (λ x. x * l.block_bytes) (lk ∙ ln) in
      let filled : (length (concat k) == 0) ≡ false = ground arith in
      let (old, gathered) = gather-InRange (b ∷ bs) (k_all l'.cache) a.in_range.0 in
      let k_slice : slice off (length (concat k)) payload ≡ concat k =
        slice-append pre (concat k) (concat v ++ rest) off (length (concat k)) h refl in
      let v_slice : slice (off + length (concat k)) (length (concat v)) payload ≡ concat v =
        ap (slice (off + length (concat k)) (length (concat v)))
          (sym (append_assoc pre (concat k) (concat v ++ rest)))
        ∙ slice-append (pre ++ concat k) (concat v) rest (off + length (concat k))
            (length (concat v)) (omega (arith, h, length-append pre (concat k))) refl in
      let k_back = to_blocks-concat l.block_bytes (length (b ∷ bs)) k sz.0 (omega arith) enough in
      let v_back = to_blocks-concat l.block_bytes (length (b ∷ bs)) v sz.1 (omega arith) enough in
      rw (filled, gathered, k_slice, v_slice, a.same_size, k_back, v_back) refl

collect_cons :
    (table : List ℕ) (l : Layer) (ls : List Layer) (parts : List (Bytes × Bytes))
    → collect table (l ∷ ls) ≡ some parts
    → (k : Blocks) × ((v : Blocks) × ((rest : List (Bytes × Bytes)) × ((blocks_of table
                (k_all l.cache)
              ≡ some k)
            × ((blocks_of table (v_all l.cache) ≡ some v)
                × ((collect table ls ≡ some rest) × ((concat k, concat v) ∷ rest ≡ parts))))))
collect_cons table l ls parts h = elim (Option-cases (blocks_of table (k_all l.cache))) [
  | inl e ↦ absurd (option_ne (rw e at h))
  | inr (k, e) ↦ elim (Option-cases (blocks_of table (v_all l.cache))) [
    | inl f ↦ absurd (option_ne (rw (e, f) at h))
    | inr (v, f) ↦ elim (Option-cases (collect table ls)) [
      | inl g ↦ absurd (option_ne (rw (e, f, g) at h))
      | inr (rest, g) ↦ (k, (v, (rest, (e, (f, (g, some_inj (rw (e, f, g) at h)))))))
    ]
  ]
]

pub length-collect :
    (table : List ℕ) (ls : List Layer) (parts : List (Bytes × Bytes))
    → collect table ls ≡ some parts
    → length parts ≡ length ls
length-collect table [] parts h = rw (← some_inj h) refl
length-collect table (l ∷ ls) parts h =
    let (k, (v, (rest, (_, (_, (g, same)))))) = collect_cons table l ls parts h in
    rw (← same) (ap suc (length-collect table ls rest g))

restore_layers_cons :
    (table : List ℕ) (payload : Bytes) (l l' : Layer) (ls : List Layer) (i : LayerInfo)
    (is : List LayerInfo) (done : List Layer)
    → restore_layer table payload l i ≡ some l'
    → restore_layers table payload ls is ≡ (true, done)
    → restore_layers table payload (l ∷ ls) (i ∷ is) ≡ (true, l' ∷ done)
restore_layers_cons table payload l l' ls i is done e f =
    ap (λ o. after_layer o l ls (restore_layers table payload ls is)) e
    ∙ ap (after_layer (some l') l ls) f

collect_next :
    (table : List ℕ) (l : Layer) (ls : List Layer) (k v : Blocks) (rest : List (Bytes × Bytes))
    → blocks_of table (k_all l.cache) ≡ some k
    → blocks_of table (v_all l.cache) ≡ some v
    → collect table ls ≡ some rest
    → collect table (l ∷ ls) ≡ some ((concat k, concat v) ∷ rest)
collect_next table l ls k v rest e f g = rw (e, f, g) refl

module _ (a : ℕ) (more : List ℕ) (b : ℕ) (bs : List ℕ) (d : Distinct (b ∷ bs))
    (long : length more ≡ length bs) where
  pub restore_layers_lem :
      (ls ls' : List Layer) (parts : List (Bytes × Bytes)) (pre : Bytes) (off : ℕ)
      → AllAlike (b ∷ bs) ls ls'
      → collect (a ∷ more) ls ≡ some parts
      → off ≡ length pre
      → (done : List Layer) × ((restore_layers
              (b ∷ bs)
              (pre ++ flat parts)
              ls'
              (layer_infos off parts)
            ≡ (true, done))
          × (collect (b ∷ bs) done ≡ some parts))
  restore_layers_lem _ _ parts pre off no_layers h e = ([], (refl, h))
  restore_layers_lem _ _ parts pre off (more_layers l l' ls ls' al all) h e =
      let (k, (v, (rest, (ek, (ev, (er, same)))))) = collect_cons (a ∷ more) l ls parts h in
      let (k_sized, k_long) =
        gather-Sized l.block_bytes (a ∷ more) (k_all l.cache) k al.sized.0 ek in
      let (v_sized, v_long) =
        gather-Sized l.block_bytes (a ∷ more) (v_all l.cache) v al.sized.1 ev in
      let n : length (a ∷ more) ≡ length (b ∷ bs) = ap suc long in
      let i : LayerInfo = record {
        k_off = off;
        k_sz = length (concat k);
        v_off = off + length (concat k);
        v_sz = length (concat v);
      } in
      let one =
        fill_layer_lem b bs d l l' k v pre (flat rest) off (length (a ∷ more)) al k_long v_long n
          (k_sized, v_sized) e in
      let off' = off + (length (concat k) + length (concat v)) in
      let pre' = (pre ++ concat k) ++ concat v in
      let (done, (others, gathered)) =
        restore_layers_lem ls ls' rest pre' off' all er (
          omega
            (arith, length-append pre (concat k), length-append (pre ++ concat k) (concat v))) in
      let moved : pre' ++ flat rest ≡ pre ++ (concat k ++ (concat v ++ flat rest)) =
        append_assoc (pre ++ concat k) (concat v) (flat rest)
        ∙ append_assoc pre (concat k) (concat v ++ flat rest) in
      let others' = rw moved at others in
      let back =
        scattered (b ∷ bs) k v l.cache l'.cache al.same_layout d al.in_range (k_long ∙ n)
          (v_long ∙ n) (joined_same (a ∷ more) l.cache k v ek ev) in
      let l'' : Layer = record l' { cache = scatter_cache (b ∷ bs) k v l'.cache } in
      let payload = pre ++ (concat k ++ (concat v ++ flat rest)) in
      rw (← same) (
        l'' ∷ done,
        (
          restore_layers_cons (b ∷ bs) payload l' l'' ls' i (layer_infos off' rest) done one
              others',
          collect_next (b ∷ bs) l'' done k v rest back.0 back.1 gathered,
        ),
      )
