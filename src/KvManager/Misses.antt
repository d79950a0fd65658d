-- ===== src/KvManager/Misses.antt =====
-- korith_vllm_ext/amf_kv_manager.py: every way in which a restore ends.
use axropus_deploy.Prelude.{
  either_at, ◌≤◌, length, arith, ℕ, ◌+◌, ◌*◌, drop, ◌≡◌, refl, inl, inr, ◌⊎◌, Bool, true, false,
  List, Option, none, some,
}
use axropus_deploy.Dict.{get}
use axropus_deploy.KvManager.{Layer, unpack_header, unpack_infos, header_size, layer_size}
use axropus_deploy.KvManager.Words.{Bytes, field}
use axropus_deploy.KvManager.Keys.{kv_filename}
use axropus_deploy.KvManager.Store.{
  Settings, Manager, compute_amf_key, returned, raised_at, Outcome, missed, finish, is_readable,
  restore_layers, restore_file, restore_kv_state,
}

-- The bytes of a snapshot that a cache of the layers `ls` can take: a whole header of 56 bytes with the
-- magic, version 1 and the number of layers, and 32 bytes for each of them after it
pub record IsSnapshot (ls : List Layer) (blob : Bytes) : Type 0 where
  pub whole_header : 56 ≤ length blob
  pub has_magic : field 4 0 blob ≡ 0x414d464b
  pub has_version : field 4 4 blob ≡ 1
  pub same_layers : field 4 8 blob ≡ length ls
  pub whole_table : 56 + length ls * 32 ≤ length blob

-- A file that is read and is such a snapshot: a hit with the number of tokens of its header, or an
-- exception of the copying, which changes no counter
abbrev pub Taken : List Layer → Option Bytes → Bool → Manager → Outcome → Type 0
Taken ls file readable m o =
    (blob : Bytes) × (file ≡ some blob)
    × (readable ≡ true)
    × IsSnapshot ls blob
    × (((o.answer ≡ raised_at) × (o.manager ≡ m))
        ⊎ ((o.answer ≡ returned (field 4 12 blob))
            × (o.manager.hits ≡ m.hits + 1)
            × (o.manager.misses ≡ m.misses)
            × (o.manager.files ≡ m.files)))

-- No file is read, or it is no such snapshot: a miss, and nothing else is changed
abbrev pub Refused : List Layer → Option Bytes → Bool → Manager → Outcome → Type 0
Refused ls file readable m o =
    ((blob : Bytes) → file ≡ some blob → readable ≡ true → ¬ IsSnapshot ls blob)
    × (o.answer ≡ returned 0)
    × (o.layers ≡ ls)
    × (o.manager.misses ≡ m.misses + 1)
    × (o.manager.hits ≡ m.hits)
    × (o.manager.files ≡ m.files)

is_readable-IsSnapshot :
    (ls : List Layer) (blob : Bytes)
    → is_readable ls (unpack_header blob) blob ≡ true
    → IsSnapshot ls blob
is_readable-IsSnapshot ls blob h = record {
  whole_header = ground arith;
  has_magic = ground arith;
  has_version = ground arith;
  same_layers = ground arith;
  whole_table = ground arith;
}

IsSnapshot-is_readable :
    (ls : List Layer) (blob : Bytes)
    → is_readable ls (unpack_header blob) blob ≡ false
    → ¬ IsSnapshot ls blob
IsSnapshot-is_readable ls blob h s =
    ground (arith, s.whole_header, s.has_magic, s.has_version, s.same_layers, s.whole_table)

finish_cases :
    (elapsed n : ℕ) (done : Bool × List Layer) (m : Manager)
    → let o = finish elapsed n done m in
      ((o.answer ≡ raised_at) × (o.manager ≡ m))
      ⊎ ((o.answer ≡ returned n)
          × (o.manager.hits ≡ m.hits + 1)
          × (o.manager.misses ≡ m.misses)
          × (o.manager.files ≡ m.files))
finish_cases elapsed n (true, ls) m = inr (refl, omega arith, refl, refl)
finish_cases elapsed n (false, ls) m = inl (refl, refl)

missed-Refused :
    (ls : List Layer) (file : Option Bytes) (readable : Bool) (m : Manager)
    → ((blob : Bytes) → file ≡ some blob → readable ≡ true → ¬ IsSnapshot ls blob)
    → Refused ls file readable m (missed ls m)
missed-Refused ls file readable m unfit = (unfit, refl, refl, omega arith, refl, refl)

restore_file_cases :
    (elapsed : ℕ) (readable : Bool) (table : List ℕ) (ls : List Layer) (file : Option Bytes)
    (m : Manager)
    → let o = restore_file elapsed readable table ls file m in
      Taken ls file readable m o ⊎ Refused ls file readable m o
restore_file_cases elapsed readable table ls none m =
    inr (missed-Refused ls none readable m (λ blob e. absurd (ground arith)))
restore_file_cases elapsed false table ls (some blob) m =
    inr (missed-Refused ls (some blob) false m (λ b e r. absurd (ground arith)))
restore_file_cases elapsed true table ls (some blob) m =
    let h = unpack_header blob in
    let done =
      restore_layers table (drop (header_size + h.n_layers * layer_size) blob) ls
        (unpack_infos h.n_layers header_size blob) in
    either_at (λ o. Taken ls (some blob) true m o ⊎ Refused ls (some blob) true m o)
      (is_readable ls h blob) (finish elapsed h.n_tokens done m) (missed ls m)
      (λ e. inl (
        blob,
        refl,
        refl,
        is_readable-IsSnapshot ls blob e,
        finish_cases elapsed h.n_tokens done m,
      ))
      (λ e. inr (
        missed-Refused ls (some blob) true m (λ b same r.
          let is_blob : blob ≡ b = ground arith in
          rw (← is_blob) (IsSnapshot-is_readable ls blob e))))

-- A restore of a file that is read and is a snapshot for the layers of the cache counts a hit, keeps the
-- files and returns the number of tokens of the file's header, or it raises in the copying and changes
-- no counter and no file. Any other restore, without a file too, returns 0, changes no layer and no
-- file, and counts a miss only.
pub restore_cases :
    (s : Settings) (elapsed : ℕ) (readable : Bool) (tokens table : List ℕ) (ls : List Layer)
    (m : Manager)
    → let o = restore_kv_state s elapsed readable tokens table ls m in
      let file = get (kv_filename (compute_amf_key s tokens none)) m.files in
      Taken ls file readable m o ⊎ Refused ls file readable m o
unfolding restore_kv_state
restore_cases s elapsed readable tokens table ls m =
    restore_file_cases elapsed readable table ls
      (get (kv_filename (compute_amf_key s tokens none)) m.files) m
