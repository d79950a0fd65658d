-- ===== src/Pool/Stored.antt =====
-- What can be read back after an insertion.
use axropus_deploy.Prelude.{
  ℕ, String, ◌≡◌, refl, inl, inr, true, false, List, [], ◌∷◌, map, Option, none, some, arith,
  str_eq, eq_refl, Option-cases,
}
use axropus_deploy.Dict.{get, IsDict}
use axropus_deploy.Dict.Laws.{get-put}
use axropus_deploy.Pool.{CompressedKv, PoolEntry, Pool, Floats, lookup, hit, release_entry}
use axropus_deploy.Pool.Insert.{
  Clock, raise, stack_error, Allocated, allocated, no_room, bad_layer, ok, Request, allocate,
  drop_existing, new_entry, commit, insert,
}
use axropus_deploy.Pool.Put.{
  compress_all, put_blobs, Tensor, infer_layout, chosen_format, tabulate, put_layout, put_from_raw,
}
use axropus_deploy.Pool.Restore.{decode_all, stacked, restore_entry, restore_to_tensor}
use axropus_deploy.Pool.Evictions.{Kept, Kept-pop, allocate-closed}

module _ {C F : Type 0} where
  -- The entry that an insertion leaves under its key.
  pub record Holds (r : Request C F) (q : Pool C F) : Type 0 where
    pub entry : PoolEntry C F
    pub found : get r.prefix_hash q.index ≡ some entry
    pub same_blobs : entry.blobs ≡ r.blobs
    pub same_tokens : entry.num_tokens ≡ r.num_tokens
    pub no_hits : entry.hit_count ≡ 0

  commit-Holds :
      (clock : Clock) (r : Request C F) (o : Allocated) (q : Pool C F)
      → (commit clock r o q).0 ≡ ok true
      → Holds r (commit clock r o q).1
  unfolding commit
  commit-Holds clock r (allocated allocs) q h = record {
    entry = new_entry clock r allocs;
    found = simp (get-put, eq_refl);
    same_blobs = refl;
    same_tokens = refl;
    no_hits = refl;
  }
  commit-Holds clock r no_room q h = absurd (ground arith)
  commit-Holds clock r bad_layer q h = absurd (ground arith)

  insert-Holds :
      (fl : Floats F) (clock : Clock) (r : Request C F) (p : Pool C F)
      → (insert fl clock r p).0 ≡ ok true
      → Holds r (insert fl clock r p).1
  unfolding insert
  insert-Holds fl clock r p h = commit-Holds clock r _ _ h

  -- A commit writes under its own key only.
  commit_others :
      (clock : Clock) (r : Request C F) (o : Allocated) (q : Pool C F) (j : String)
      → str_eq r.prefix_hash j ≡ false
      → get j (commit clock r o q).1.index ≡ get j q.index
  unfolding commit
  commit_others clock r (allocated allocs) q j other = simp (get-put, other)
  commit_others clock r no_room q j other = refl
  commit_others clock r bad_layer q j other = refl

  drop_existing-Kept :
      (k : String) (p : Pool C F) → IsDict p.index → Kept p.index (drop_existing k p).index
  unfolding drop_existing release_entry
  drop_existing-Kept k p d =
      let start : Kept p.index p.index = record { keys = d; entries = λ j e g. g } in
      elim (Option-cases (get k p.index)) [
        | inl gone ↦ rw (gone, drop_existing) start
        | inr (e, found) ↦ rw (found, drop_existing) (Kept-pop p.index k p.index start)
      ]

  -- If no key stands twice in the index, an insertion, whatever it returns or raises, adds or changes
  -- no entry under another prefix: what is found there after it was there before, unchanged.
  pub insert_others :
      (fl : Floats F) (clock : Clock) (r : Request C F) (p : Pool C F) (j : String)
      (e : PoolEntry C F)
      → IsDict p.index
      → str_eq r.prefix_hash j ≡ false
      → get j (insert fl clock r p).1.index ≡ some e
      → get j p.index ≡ some e
  unfolding insert
  insert_others fl clock r p j e d other h =
      let p' = drop_existing r.prefix_hash p in
      let res = allocate fl clock.scored r.blobs p' in
      let kept : Kept p.index res.1.index =
        allocate-closed fl (λ w m. Kept p.index m) (λ w k m g. Kept-pop p.index k m g) clock.scored
          r.blobs p' (drop_existing-Kept r.prefix_hash p d) in
      kept.entries j e (rw (← commit_others clock r res.0 res.1 j other) h)

-- What a codec promises for the layers that it compresses: the codec that the format of the blob names
-- decompresses the blob, to an approximation of the layer.
pub record IsCodec {C T : Type 0} (decoders : String → Option (CompressedKv C → Option T))
    (compress : T → Option (CompressedKv C)) (approx : T → T) : Type 0 where
  pub decode : CompressedKv C → Option T
  pub has_decoder :
      (x : T) (b : CompressedKv C) → compress x ≡ some b → decoders b.format ≡ some decode
  pub restores : (x : T) (b : CompressedKv C) → compress x ≡ some b → decode b ≡ some (approx x)

module _ {C F T : Type 0} (fl : Floats F) (codecs : String → Option (T → Option (CompressedKv C)))
    (decoders : String → Option (CompressedKv C → Option T))
    (compress : T → Option (CompressedKv C)) (approx : T → T)
    (codec : IsCodec decoders compress approx) where
  decode_all-compress_all :
      (xs : List T) (blobs : List (CompressedKv C))
      → compress_all compress xs ≡ some blobs
      → decode_all decoders blobs ≡ ok (map approx xs)
  unfolding compress_all decode_all
  decode_all-compress_all [] blobs h = let none_left : [] ≡ blobs = ground arith in rw (← none_left)
  decode_all-compress_all (x ∷ xs) blobs h = elim (Option-cases (compress x)) [
    | inl fails ↦ absurd (cc (rw (fails, compress_all) at h))
    | inr (b, first) ↦ elim (Option-cases (compress_all compress xs)) [
      | inl fails ↦ absurd (cc (rw (first, fails, compress_all) at h))
      | inr (bs, others) ↦
          let all : b ∷ bs ≡ blobs = ground (arith, (rw (first, others, compress_all) at h)) in
          rw (
            ← all,
            codec.has_decoder x b first,
            codec.restores x b first,
            decode_all,
            decode_all-compress_all xs bs others,
          )
    ]
  ]

  -- The entry that a store of the layers leaves, by what its blobs decode to
  abbrev Restores : String → List T → Pool C F → Type 0
  Restores k xs q =
      (e : PoolEntry C F) × (get k q.index ≡ some e)
      × (decode_all decoders e.blobs ≡ ok (map approx xs))

  put_blobs-Restores :
      (clock : Clock) (k fmt : String) (savings : F) (p : Pool C F) (layout : ℕ × ℕ × ℕ × ℕ)
      (xs : List T) (blobs : Option (List (CompressedKv C)))
      → compress_all compress xs ≡ blobs
      → (put_blobs fl codecs clock k fmt savings p layout blobs).0 ≡ ok true
      → Restores k xs (put_blobs fl codecs clock k fmt savings p layout blobs).1
  unfolding put_blobs
  put_blobs-Restores clock k fmt savings p (l, t, h, d) xs none all stored = absurd (ground arith)
  put_blobs-Restores clock k fmt savings p (l, t, h, d) xs (some blobs) all stored =
      let s = insert-Holds fl clock _ p stored in
      (s.entry, s.found, rw s.same_blobs (decode_all-compress_all xs blobs all))

  -- A store that returns True leaves an entry whose blobs decode to the approximations of its layers.
  pub put_from_raw-Restores :
      (clock : Clock) (k : String) (raw : Tensor T) (format : Option String) (savings : F)
      (p : Pool C F) (l t h d : ℕ)
      → infer_layout raw.shape ≡ ok (l, t, h, d)
      → codecs (chosen_format raw.one_byte format p) ≡ some compress
      → (put_from_raw fl codecs clock k raw format savings p).0 ≡ ok true
      → Restores k (tabulate raw.layer 0 l) (put_from_raw fl codecs clock k raw format savings p).1
  unfolding put_from_raw
  put_from_raw-Restores clock k raw format savings p l t h d shape chosen stored =
      rw (shape, chosen, put_layout)
        (put_blobs-Restores clock k (chosen_format raw.one_byte format p) savings p (l, t, h, d)
          (tabulate raw.layer 0 l) _ refl (rw (shape, chosen, put_layout) at stored))

  -- If the codec that is chosen decompresses what it compresses to an approximation of it, then right
  -- after a `put_from_raw` that returns True, `restore_to_tensor` returns what torch.stack makes of the
  -- approximations of the layers, in their order, and raises if torch.stack does.
  pub restore_to_tensor-put_from_raw :
      {S : Type 0} (stack : List T → Option S) (clock : Clock) (later : ℕ) (k : String)
      (raw : Tensor T) (format : Option String) (savings : F) (p : Pool C F) (l t h d : ℕ)
      → infer_layout raw.shape ≡ ok (l, t, h, d)
      → codecs (chosen_format raw.one_byte format p) ≡ some compress
      → (put_from_raw fl codecs clock k raw format savings p).0 ≡ ok true
      → (restore_to_tensor decoders stack later k
          (put_from_raw fl codecs clock k raw format savings p).1).0
        ≡ elim (stack (map approx (tabulate raw.layer 0 l))) [
          | none ↦ raise stack_error
          | some s ↦ ok (some s)
        ]
  unfolding restore_to_tensor lookup hit restore_entry stacked
  restore_to_tensor-put_from_raw stack clock later k raw format savings p l t h d shape chosen
        stored =
      let (e, found, decoded) =
        put_from_raw-Restores clock k raw format savings p l t h d shape chosen stored in
      rw (found, lookup) (rw decoded)
