-- ===== src/LmCache/Held.antt =====
-- korith_vllm_ext/lmcache_adapter.py: a prefix that the dict in memory holds.
use axropus_deploy.Prelude.{
  suc, ◌+◌, ◌≡◌, refl, String, Bool, true, false, Option, none, some, inl, inr, either_of, str_eq,
  Option-cases, Bool-cases,
}
use axropus_deploy.Dict.{Dict, get, put}
use axropus_deploy.Dict.Laws.{get-put}
use axropus_deploy.LmCache.{Engine, LmCache, Disk, fetch, store, count_lookup}

abbrev pub is_found : {A : Type 0} → Option A → Bool
is_found none = false
is_found (some a) = true

module _ {E T : Type 0} where
  -- The adapter is enabled, without the library and with the dict in memory, which has the prefix.
  pub record Kept (k : String) (c : LmCache E T) : Type 0 where
    pub enabled : c.enabled ≡ true
    pub in_memory : c.on_nvme ≡ false
    pub no_engine : c.engine ≡ none
    pub held : is_found (get k c.cpu_store) ≡ true

module _ {T : Type 0} where
  get-put_kept :
      (k j : String) (v : T) (m : Dict T)
      → is_found (get k m) ≡ true
      → is_found (get k (put j v m)) ≡ true
  get-put_kept k j v m h = elim (Bool-cases (str_eq j k)) [
    | inl e ↦ rw (get-put k j v m, e) refl
    | inr e ↦ rw (get-put k j v m, e) h
  ]

module _ {E T : Type 0} (lib : Engine E T) where
  pub fetch-Kept :
      (disk : Disk) (k j : String) (c : LmCache E T) → Kept k c → Kept k (fetch lib disk j c).1
  unfolding fetch
  fetch-Kept disk k j c h =
      either_of (λ (o : Option T × LmCache E T). Kept k o.1) c.enabled _ _ (counted _) (again h)
    where
      again : Kept k c → Kept k (record c { stat_misses = suc c.stat_misses })
      again h = record {
        enabled = h.enabled;
        in_memory = h.in_memory;
        no_engine = h.no_engine;
        held = h.held;
      }

      counted : (o : Option T) → Kept k (count_lookup lib o c).1
      counted none = again h
      counted (some kv) = record {
        enabled = h.enabled;
        in_memory = h.in_memory;
        no_engine = h.no_engine;
        held = h.held;
      }

  pub store_lem :
      (disk : Disk) (j : String) (v : T) (c : LmCache E T)
      → c.enabled ≡ true
      → c.on_nvme ≡ false
      → c.engine ≡ none
      → (store lib disk j v c).1 ≡ record c {
        cpu_store = put j v c.cpu_store;
        stat_stores = suc c.stat_stores;
        stat_bytes_in = c.stat_bytes_in + lib.bytes v;
      }
  unfolding store
  store_lem disk j v c on memory bare = rw (on, memory, bare) refl

  pub store-Kept :
      (disk : Disk) (k j : String) (v : T) (c : LmCache E T)
      → Kept k c
      → Kept k (store lib disk j v c).1
  store-Kept disk k j v c h = rw (store_lem disk j v c h.enabled h.in_memory h.no_engine) (record {
    enabled = h.enabled;
    in_memory = h.in_memory;
    no_engine = h.no_engine;
    held = get-put_kept k j v c.cpu_store h.held;
  })

  pub fetch_found :
      (disk : Disk) (k : String) (c : LmCache E T)
      → Kept k c
      → is_found (fetch lib disk k c).0 ≡ true
  unfolding fetch
  fetch_found disk k c h = elim (Option-cases (get k c.cpu_store)) [
    | inl e ↦ absurd (false_ne (rw e at h.held))
    | inr (kv, e) ↦ rw (h.enabled, h.no_engine, h.in_memory, e) refl
  ]
    where
      false_ne : {P : Type 0} → false ≡ true → P
      false_ne g = absurd cc
