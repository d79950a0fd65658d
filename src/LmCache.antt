-- ===== src/LmCache.antt =====
-- korith_vllm_ext/lmcache_adapter.py: the adapter over LMCache with its fallback stores. The library
-- is an argument with its state `E`; a tensor is `T`.
pub mod Held
use axropus_deploy.Prelude.{
  ℕ, suc, ◌+◌, String, Bool, true, false, Option, none, some, if◌then◌else◌,
}
use axropus_deploy.Dict.{Dict, get, pop, put}

-- The engine's `get` and `put`, none for None and where they raise, and the bytes of a tensor
pub record Engine (E T : Type 0) : Type 0 where
  pub fetch : String → E → Option T
  pub keep : String → T → E → Option E
  pub bytes : T → ℕ

pub record LmCache (E T : Type 0) : Type 0 where
  pub enabled : Bool
  pub on_nvme : Bool
  pub engine : Option E
  pub cpu_store : Dict T
  pub files : Dict T
  pub stat_hits : ℕ
  pub stat_misses : ℕ
  pub stat_stores : ℕ
  pub stat_bytes_in : ℕ
  pub stat_bytes_out : ℕ

-- Whether torch loads and saves a file without an exception
pub record Disk : Type 0 where
  pub loads : Bool
  pub saves : Bool

module _ {E T : Type 0} (lib : Engine E T) where
  abbrev pub native_lookup : String → Option E → Option T
  native_lookup k none = none
  native_lookup k (some e) = lib.fetch k e

  abbrev pub fallback_lookup : Disk → String → LmCache E T → Option T
  fallback_lookup disk k c =
      if c.on_nvme then (if disk.loads then get k c.files else none) else get k c.cpu_store

  -- The native result, or the fallback's
  abbrev pub or_else : Option T → Option T → Option T
  or_else none o = o
  or_else (some kv) o = some kv

  abbrev pub count_lookup : Option T → LmCache E T → Option T × LmCache E T
  count_lookup none c = (none, record c { stat_misses = suc c.stat_misses })
  count_lookup (some kv) c = (
    some kv,
    record c { stat_hits = suc c.stat_hits; stat_bytes_out = c.stat_bytes_out + lib.bytes kv },
  )

  unfoldable pub fetch : Disk → String → LmCache E T → Option T × LmCache E T
  fetch disk k c =
      if c.enabled
      then count_lookup (or_else (native_lookup k c.engine) (fallback_lookup disk k c)) c
      else (none, record c { stat_misses = suc c.stat_misses })

  -- The adapter after `engine.put`, or none
  abbrev pub native_store : String → T → LmCache E T → Option (LmCache E T)
  native_store k kv c = elim c.engine [
    | none ↦ none
    | some e ↦ elim (lib.keep k kv e) [
      | none ↦ none
      | some e' ↦ some (record c { engine = some e' })
    ]
  ]

  abbrev pub fallback_store : Disk → String → T → LmCache E T → Option (LmCache E T)
  fallback_store disk k kv c =
      if c.on_nvme
      then (if disk.saves then some (record c { files = put k kv c.files }) else none)
      else some (record c { cpu_store = put k kv c.cpu_store })

  abbrev pub either_store : Option (LmCache E T) → Option (LmCache E T) → Option (LmCache E T)
  either_store none o = o
  either_store (some c) o = some c

  abbrev pub count_store : T → LmCache E T → Option (LmCache E T) → Bool × LmCache E T
  count_store kv c none = (false, c)
  count_store kv c (some c') = (
    true,
    record c' { stat_stores = suc c'.stat_stores; stat_bytes_in = c'.stat_bytes_in + lib.bytes kv },
  )

  unfoldable pub store : Disk → String → T → LmCache E T → Bool × LmCache E T
  store disk k kv c =
      if c.enabled
      then count_store kv c (either_store (native_store k kv c) (fallback_store disk k kv c))
      else (false, c)

abbrev pub is_there : {A : Type 0} → Option A → Bool
is_there none = false
is_there (some a) = true

-- `evict`: only the dict in memory
unfoldable pub evict : {E T : Type 0} → String → LmCache E T → Bool × LmCache E T
evict k c =
    if c.enabled
    then (is_there (get k c.cpu_store), record c { cpu_store = pop k c.cpu_store })
    else (false, c)
