-- ===== src/Pool/Tests.antt =====
-- Runs of a small pool, and the theorems at concrete inputs.
use axropus_deploy.Prelude.{
  get_elem?, ℕ, ◌+◌, ◌-◌, ◌*◌, ◌/◌, String, ◌≡◌, refl, Bool, true, false, ◌==◌, List, [], ◌∷◌,
  Option, none, some, arith, ltb, if◌then◌else◌, count, length, str_eq,
}
use axropus_deploy.Dict.{IsDict, get, pop, put}
use axropus_deploy.Slab.{alloc_span, free_span, units}
use axropus_deploy.Pool.{
  CompressedKv, PoolEntry, Pool, Floats, Weights, init, lookup, delete, clear, evict_one,
  alloc_layer, free_extents, free_extent, alloc_at, next_round, nbytes, reuse_score,
}
use axropus_deploy.Pool.Insert.{
  alloc_for, new_entry, ok, Request, insert, Clock, raise, compress_error, index_error, stack_error,
}
use axropus_deploy.Pool.Put.{
  Cache, put_from_vllm, Tensor, put_from_raw, infer_layout, compress_all, put_layout, put_blobs,
}
use axropus_deploy.Pool.Restore.{restore_to_tensor, restore_entry, stacked, decode_all}
use axropus_deploy.Pool.Balance.{holders}
use axropus_deploy.Pool.Release.{live}
use axropus_deploy.Pool.Machine.{Call, gets, inserts, step, run, run_owns_blocks_once}
use axropus_deploy.Pool.Rejected.{insert_rejected}
use axropus_deploy.Pool.Accounts.{init-Accounts, Settled, insert-Settled}
use axropus_deploy.Pool.Victim.{FloatOrder, Victim, evict_one-Victim}
use axropus_deploy.Slab.Counts.{held, count-alloc_span}
use axropus_deploy.Pool.Stored.{IsCodec, insert_others, restore_to_tensor-put_from_raw}

-- Scores as whole numbers, each a difference, and minus infinity
data Score : Type 0 where
  diff : ℕ → ℕ → Score
  lowest : Score

abbrev whole : ℕ → Score
whole n = diff n 0

abbrev plus : Score → Score → Score
plus (diff a b) (diff c d) = diff (a + c) (b + d)
plus lowest y = lowest
plus (diff a b) lowest = lowest

abbrev minus : Score → Score → Score
minus (diff a b) (diff c d) = diff (a + d) (b + c)
minus lowest y = lowest
minus (diff a b) lowest = lowest

abbrev times : Score → Score → Score
times (diff a b) (diff c d) = diff (a * c + b * d) (a * d + b * c)
times lowest y = lowest
times (diff a b) lowest = lowest

abbrev over : Score → Score → Score
over (diff a b) (diff c d) = diff ((a - b) / (c - d)) ((b - a) / (c - d))
over lowest y = lowest
over (diff a b) lowest = lowest

abbrev top : Score → Score → Score
top (diff a b) (diff c d) = if ltb (a + d) (c + b) then diff c d else diff a b
top lowest y = y
top (diff a b) lowest = diff a b

abbrev above : Score → Score → Bool
above (diff a b) (diff c d) = ltb (c + b) (a + d)
above (diff a b) lowest = true
above lowest y = false

abbrev plain : Floats Score
plain = record {
  of_nat = whole;
  add = plus;
  sub = minus;
  mul = times;
  div = over;
  maximum = top;
  greater = above;
  minus_inf = lowest;
}

abbrev ones : Weights Score
ones = record { alpha = whole 1; beta = whole 1; gamma = whole 1; delta = whole 1 }

-- A clock that moves on by one for each entry that is scored, by the round
abbrev from : ℕ → Clock
from n = record { scored = λ layer round k. n + round; created = n + 10; last_hit = n + 11 }

abbrev blob : ℕ → CompressedKv ℕ
blob n = record { format = "fp16"; data_bytes = n; scale_bytes = 0; shape = []; content = n }

abbrev request : String → List (CompressedKv ℕ) → Request ℕ Score
request k blobs = record {
  prefix_hash = k;
  format = "fp16";
  num_layers = length blobs;
  num_tokens = 1;
  dims = λ b. (1, 1);
  savings_ms = whole 0;
  blobs = blobs;
}

-- Two layers of four blocks of ten bytes.
abbrev fresh : Pool ℕ Score
fresh = init 2 40 10 "fp16" ones

abbrev calls : List (Call ℕ Score)
calls =
    inserts (from 1) (request "a" (blob 15 ∷ blob 5 ∷ []))
    ∷ inserts (from 20) (request "b" (blob 12 ∷ blob 40 ∷ []))
    ∷ gets 40 "b"
    ∷ []

program : Unit {0}
unfolding infer_layout init insert step run lookup delete clear evict_one alloc_layer free_extents
    free_extent alloc_at next_round nbytes reuse_score alloc_span free_span units get pop put
    put_from_raw put_from_vllm restore_to_tensor restore_entry stacked decode_all compress_all
    put_layout put_blobs
program = tt

-- The second prefix needs the whole second layer, so the first is evicted.
run_evicts : (run plain calls fresh).free_lists ≡ ((0 ∷ 1 ∷ []) ∷ [] ∷ [])
unfolding program
run_evicts = refl

run_owns_blocks_once_example :
    count 1 (0 ∷ 1 ∷ []) + holders 0 1 (live 10 (run plain calls fresh).index) ≡ 1
unfolding program
run_owns_blocks_once_example =
    run_owns_blocks_once plain 2 40 10 "fp16" ones calls (omega arith) 0 1 (0 ∷ 1 ∷ []) refl

-- A prefix of five blocks does not fit a layer of four.
abbrev too_large : Request ℕ Score
too_large = request "c" (blob 41 ∷ [])

insert_rejected_example : (insert plain (from 50) too_large (run plain calls fresh)).1.index ≡ []
unfolding program
insert_rejected_example =
    insert_rejected plain (from 50) too_large (run plain calls fresh) ((λ layer round. refl), tt)
      refl

abbrev x_first : Pool ℕ Score
x_first = (insert plain (from 1) (request "x" (blob 15 ∷ [])) fresh).1

abbrev x_entry : PoolEntry ℕ Score
x_entry = new_entry (from 1) (request "x" (blob 15 ∷ [])) (alloc_for 10 0 (blob 15) ∷ [])

x_IsDict : IsDict x_first.index
unfolding program
x_IsDict = (refl, tt)

insert_others_example : get "x" x_first.index ≡ some x_entry
unfolding program
insert_others_example =
    insert_others plain (from 20) (request "y" (blob 5 ∷ [])) x_first "x" x_entry x_IsDict refl refl

plain_order : FloatOrder plain
unfolding program
plain_order = record { irreflexive = not_above; raises = still_below }
  where
    not_above : (a : Score) → above a a ≡ false
    not_above (diff a b) = ground arith
    not_above lowest = refl

    still_below : (a b d : Score) → above a b ≡ false → above d b ≡ true → above a d ≡ false
    still_below lowest b d h k = refl
    still_below (diff a x) lowest d h k = absurd (ground arith)
    still_below (diff a x) (diff b y) lowest h k = absurd (ground arith)
    still_below (diff a x) (diff b y) (diff d z) h k = ground arith

abbrev clock_9 : String → ℕ
clock_9 k = if str_eq k "x" then 29 else 30

evict_one-Victim_example : Victim plain clock_9 x_first (evict_one plain clock_9 x_first).1
unfolding program
evict_one-Victim_example = evict_one-Victim plain plain_order clock_9 x_first x_IsDict refl

insert-Settled_example :
    Settled
      (record { layers = 2; blocks = 4; block_bytes = 10 })
      (insert plain (from 30) too_large fresh).0
      (insert plain (from 30) too_large fresh).1
unfolding program
insert-Settled_example =
    insert-Settled (record { layers = 2; blocks = 4; block_bytes = 10 }) plain (from 30) too_large
      fresh (init-Accounts 2 40 10 "fp16" ones)

count-alloc_span_example :
    count 1 (alloc_span 2 (2 ∷ 0 ∷ 1 ∷ [])).1 + held (alloc_span 2 (2 ∷ 0 ∷ 1 ∷ [])).0 2 1 ≡ 1
unfolding program
count-alloc_span_example = count-alloc_span 2 1 (2 ∷ 0 ∷ 1 ∷ []) (omega arith)

abbrev tens_of : ℕ → CompressedKv ℕ
tens_of n = record {
  format = "tens";
  data_bytes = 12;
  scale_bytes = 0;
  shape = [];
  content = n / 10;
}

-- A lossy codec: it keeps the whole tens of a layer, and refuses a layer of zero.
abbrev keep_tens : ℕ → Option (CompressedKv ℕ)
keep_tens n = if n == 0 then none else some (tens_of n)

abbrev codecs : String → Option (ℕ → Option (CompressedKv ℕ))
codecs f = if str_eq f "tens" then some keep_tens else none

abbrev from_tens : CompressedKv ℕ → Option ℕ
from_tens c = some (c.content * 10)

abbrev decoders : String → Option (CompressedKv ℕ → Option ℕ)
decoders f = if str_eq f "tens" then some from_tens else none

abbrev two_layers : Tensor ℕ
two_layers = record { shape = 2 ∷ 2 ∷ 3 ∷ 1 ∷ 8 ∷ []; one_byte = false; layer = λ i. i * 5 + 17 }

-- `torch.stack`, which refuses an empty list
abbrev stack : List ℕ → Option (List ℕ)
stack [] = none
stack (x ∷ xs) = some (x ∷ xs)

tens_IsCodec : IsCodec decoders keep_tens (λ n. n / 10 * 10)
unfolding program
tens_IsCodec = record {
  decode = from_tens;
  has_decoder = λ x b h. named x b h;
  restores = λ x b h. back x b h;
}
  where
    kept : (x : ℕ) (b : CompressedKv ℕ) → keep_tens x ≡ some b → tens_of x ≡ b
    kept x b h = ground arith

    named : (x : ℕ) (b : CompressedKv ℕ) → keep_tens x ≡ some b → decoders b.format ≡ some from_tens
    named x b h = rw (← kept x b h)

    back : (x : ℕ) (b : CompressedKv ℕ) → keep_tens x ≡ some b → from_tens b ≡ some (x / 10 * 10)
    back x b h = rw (← kept x b h)

restore_to_tensor-put_from_raw_example :
    (restore_to_tensor decoders stack 5 "t"
      (put_from_raw plain codecs (from 4) "t" two_layers (some "tens") (whole 0) fresh).1).0
    ≡ ok (some (10 ∷ 20 ∷ []))
unfolding program
restore_to_tensor-put_from_raw_example =
    restore_to_tensor-put_from_raw plain codecs decoders keep_tens (λ n. n / 10 * 10) tens_IsCodec
      stack (from 4) 5 "t" two_layers (some "tens") (whole 0) fresh 2 3 1 8 refl refl refl

-- A layer that the codec refuses: nothing is stored.
refused_lem :
    put_from_raw plain codecs
      (from 4)
      "t"
      (record two_layers { layer = λ i. i })
      (some "tens")
      (whole 0)
      fresh
    ≡ (raise compress_error, fresh)
unfolding program
refused_lem = refl

-- An entry without layers is stored, but cannot be stacked.
no_layers_lem :
    (restore_to_tensor decoders stack 5 "t"
      (put_from_raw plain codecs
        (from 4)
        "t"
        (record two_layers { shape = 0 ∷ 2 ∷ 3 ∷ 1 ∷ 8 ∷ [] })
        (some "tens")
        (whole 0)
        fresh).1).0
    ≡ raise stack_error
unfolding program
no_layers_lem = refl

-- A layer of vLLM's cache as the list of its blocks: the first block of the table is taken.
abbrev first_block : List ℕ → List ℕ → Option ℕ
first_block l [] = none
first_block l (id ∷ table) = get_elem? l id

abbrev cache : Cache (List ℕ)
cache = record { one_byte = false; layers = (11 ∷ 25 ∷ []) ∷ (38 ∷ 47 ∷ []) ∷ [] }

from_vllm_lem :
    (restore_to_tensor decoders stack 5 "t"
      (put_from_vllm plain codecs first_block
        (from 4)
        "t"
        cache
        (1 ∷ [])
        16
        (some "tens")
        (whole 0)
        fresh).1).0
    ≡ ok (some (20 ∷ 40 ∷ []))
unfolding program
from_vllm_lem = refl

-- A block out of range raises before anything is stored.
no_block_lem :
    put_from_vllm plain codecs first_block
      (from 4)
      "t"
      cache
      (2 ∷ [])
      16
      (some "tens")
      (whole 0)
      fresh
    ≡ (raise index_error, fresh)
unfolding program
no_block_lem = refl
