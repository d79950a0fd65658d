-- ===== src/KvManager/Words.antt =====
-- Python's `struct` and slices of bytes, as far as korith_vllm_ext/amf_kv_manager.py uses them. Bytes
-- are a list of numbers; a word has its low byte first.
use axropus_deploy.Prelude.{
  ℕ, zero, suc, ◌+◌, ◌*◌, ◌/◌, ◌%◌, ◌<◌, ◌≡◌, refl, ap, ◌∙◌, Bool, List, [], ◌∷◌, ◌++◌, arith, ltb,
  length, take, drop, replicate, drop-append_length,
}

abbrev pub Bytes : Type 0
Bytes = List ℕ

-- 256 ^ w
abbrev pub limit : ℕ → ℕ
limit zero = 1
limit (suc w) = 256 * limit w

-- Whether `struct.pack` takes the value for a field of w bytes; it raises if not.
abbrev pub has_room : ℕ → ℕ → Bool
has_room w v = ltb v (limit w)

abbrev pub word_bytes : ℕ → ℕ → Bytes
word_bytes zero v = []
word_bytes (suc w) v = v % 256 ∷ word_bytes w (v / 256)

abbrev pub word : Bytes → ℕ
word [] = 0
word (b ∷ bs) = b + 256 * word bs

-- The field of w bytes at an offset
abbrev pub field : ℕ → ℕ → Bytes → ℕ
field w off bs = word (take w (drop off bs))

-- `bs[off : off + n]`
abbrev pub slice : ℕ → ℕ → Bytes → Bytes
slice off n bs = take n (drop off bs)

-- `mv[off : off + len(new)] = new`
abbrev pub write_at : ℕ → Bytes → Bytes → Bytes
write_at off new bs = take off bs ++ new ++ drop (off + length new) bs

pub word-word_bytes : (w v : ℕ) → v < limit w → word (word_bytes w v) ≡ v
word-word_bytes zero v h = omega arith
word-word_bytes (suc w) v h = omega (arith, word-word_bytes w (v / 256) (omega arith))

pub length-word_bytes : (w v : ℕ) → length (word_bytes w v) ≡ w
length-word_bytes zero v = refl
length-word_bytes (suc w) v = ap suc (length-word_bytes w (v / 256))

module _ {A : Type 0} where
  pub take_whole : (xs ys : List A) (n : ℕ) → n ≡ length xs → take n (xs ++ ys) ≡ xs
  take_whole [] ys zero h = refl
  take_whole [] ys (suc n) h = absurd (omega arith)
  take_whole (x ∷ xs) ys zero h = absurd (omega arith)
  take_whole (x ∷ xs) ys (suc n) h = ap (◌∷◌ x) (take_whole xs ys n (omega arith))

  pub drop_whole : (xs ys : List A) (n : ℕ) → n ≡ length xs → drop n (xs ++ ys) ≡ ys
  drop_whole [] ys zero h = refl
  drop_whole [] ys (suc n) h = absurd (omega arith)
  drop_whole (x ∷ xs) ys zero h = absurd (omega arith)
  drop_whole (x ∷ xs) ys (suc n) h = drop_whole xs ys n (omega arith)

  pub append_assoc : (xs ys zs : List A) → (xs ++ ys) ++ zs ≡ xs ++ (ys ++ zs)
  append_assoc [] ys zs = refl
  append_assoc (x ∷ xs) ys zs = ap (◌∷◌ x) (append_assoc xs ys zs)

  pub append_nil : (xs : List A) → xs ++ [] ≡ xs
  append_nil [] = refl
  append_nil (x ∷ xs) = ap (◌∷◌ x) (append_nil xs)

-- A slice of bytes that stand after others
pub slice-append :
    (pre bs rest : Bytes) (off n : ℕ)
    → off ≡ length pre
    → n ≡ length bs
    → slice off n (pre ++ (bs ++ rest)) ≡ bs
slice-append pre bs rest off n h k =
    ap (take n) (drop_whole pre (bs ++ rest) off h) ∙ take_whole bs rest n k

-- `bytearray(n)`
abbrev pub zeros : ℕ → Bytes
zeros n = replicate n 0

split_zeros : (m n total : ℕ) → total ≡ m + n → zeros total ≡ zeros m ++ zeros n
split_zeros zero n total h = let same : total ≡ n = omega arith in ap zeros same
split_zeros (suc m) n zero h = absurd (omega arith)
split_zeros (suc m) n (suc total) h = ap (◌∷◌ 0) (split_zeros m n total (omega arith))

length-zeros : (n : ℕ) → length (zeros n) ≡ n
length-zeros zero = refl
length-zeros (suc n) = ap suc (length-zeros n)

-- What is written next into the zeros after what is there
pub write_at_end :
    (pre new : Bytes) (off n total : ℕ)
    → off ≡ length pre
    → total ≡ length new + n
    → write_at off new (pre ++ zeros total) ≡ (pre ++ new) ++ zeros n
write_at_end pre new off n total h k =
    let parts = split_zeros (length new) n total k in
    let taken = take_whole pre (zeros total) off h in
    let dropped : drop (off + length new) (pre ++ zeros total) ≡ zeros n =
      ap (λ zs. drop (off + length new) (pre ++ zs)) parts
      ∙ drop-append_length pre (zeros (length new)) (zeros n) (off + length new)
          (omega (arith, h, length-zeros (length new))) in
    rw (taken, dropped) refl
