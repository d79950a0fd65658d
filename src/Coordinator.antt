-- ===== src/Coordinator.antt =====
-- platform/runtime/amf_coordinator.py: which node holds which prefix. The index in memory and the
-- table `coordinator_entries` change together; each method is one step. `M` is the type of metadata.
pub mod Keys
pub mod Cells
pub mod Machine
pub mod Agreement
pub mod Heartbeats
pub mod Evictions
pub mod Restart
mod Tests
use axropus_deploy.Prelude.{
  ℕ, ◌+◌, String, Bool, true, false, not, ◌&&◌, ◌||◌, List, [], ◌∷◌, ◌++◌, map, Option, none, some,
  str_eq, if◌then◌else◌, any_of, keep_if, has, add_key, length, sum, sort_by,
}
use axropus_deploy.Dict.{Dict, get, pop, put, values}
use axropus_deploy.Sql.{delete_where, replace}
use axropus_deploy.Coordinator.Keys.{Texts, safe_tenant_id, safe_hash, composite}

-- What `json` computes on metadata; `loads` is none where it raises. `before` is the order of the
-- sort key of `lookup`: hit rate, cache entries and time, each descending.
pub record Metadata (M : Type 0) : Type 0 where
  pub dumps : M → String
  pub loads : String → Option M
  pub no_metadata : M

pub record Record (M : Type 0) : Type 0 where
  pub node_id : String
  pub worker_id : String
  pub tenant_id : String
  pub hash : String
  pub metadata : M
  pub updated_at : ℕ

-- A row of `coordinator_entries`
pub record Row : Type 0 where
  pub composite_key : String
  pub node_id : String
  pub worker_id : String
  pub tenant_id : String
  pub prefix_hash : String
  pub metadata_json : String
  pub updated_at : ℕ

abbrev pub Entries : Type 0 → Type 0
Entries M = Dict (Dict (Record M))

pub record Index (M : Type 0) : Type 0 where
  pub entries_by_key : Entries M
  pub keys_by_node : Dict (List String)
  pub rows : List Row

-- `d.get(k, {})`, and `d.get(k, set())` with a set as a list
abbrev pub or_nothing : {A : Type 0} → Option (List A) → List A
or_nothing none = []
or_nothing (some xs) = xs

abbrev pub discard : String → List String → List String
discard k keys = keep_if (λ j. not (str_eq j k)) keys

-- `old_keys - new_keys`
abbrev pub minus : List String → List String → List String
minus old new = keep_if (λ j. not (has j new)) old

abbrev pub is_row : String → String → Row → Bool
is_row key node r = str_eq r.composite_key key && str_eq r.node_id node

-- What the index knows of a key and a node
abbrev pub cell : {M : Type 0} → String → String → Entries M → Option (Record M)
cell key node e = get node (or_nothing (get key e))

abbrev pub put_cell : {M : Type 0} → String → String → Record M → Entries M → Entries M
put_cell key node r e = put key (put node r (or_nothing (get key e))) e

-- The dict of the key after `by_node.pop(node, None)` goes back, or away if it is empty.
abbrev pub put_back : {M : Type 0} → String → Dict (Record M) → Entries M → Entries M
put_back key [] e = pop key e
put_back key (x ∷ m) e = put key (x ∷ m) e

abbrev pub drop_cell : {M : Type 0} → String → String → Entries M → Entries M
drop_cell key node e = put_back key (pop node (or_nothing (get key e))) e

-- `_delete_record`
abbrev pub delete_record : String → String → List Row → List Row
delete_record key node rows = delete_where (is_row key node) rows

-- What `item.get` gives of an entry of a heartbeat, with the defaults filled in
pub record Item (M : Type 0) : Type 0 where
  pub tenant_id : String
  pub hash : String
  pub worker_id : String
  pub metadata : M

module _ {M : Type 0} (io : Metadata M) where
  abbrev pub row_of : String → String → Record M → Row
  row_of key node r = record {
    composite_key = key;
    node_id = node;
    worker_id = r.worker_id;
    tenant_id = r.tenant_id;
    prefix_hash = r.hash;
    metadata_json = io.dumps r.metadata;
    updated_at = r.updated_at;
  }

  -- `_persist_record`
  abbrev pub persist_record : String → String → Record M → List Row → List Row
  persist_record key node r rows = replace (is_row key node) (row_of key node r) rows

  abbrev pub metadata_of : Option M → M
  metadata_of none = io.no_metadata
  metadata_of (some m) = m

  abbrev pub record_of : Row → Record M
  record_of r = record {
    node_id = r.node_id;
    worker_id = r.worker_id;
    tenant_id = r.tenant_id;
    hash = r.prefix_hash;
    metadata =
        if str_eq r.metadata_json ""
        then io.no_metadata
        else metadata_of (io.loads r.metadata_json);
    updated_at = r.updated_at;
  }

  -- One round of the loop of `_load_from_db`
  abbrev pub load_row : Row → Index M → Index M
  load_row r ix = record ix {
    entries_by_key = put_cell r.composite_key r.node_id (record_of r) ix.entries_by_key;
    keys_by_node =
        put r.node_id (add_key r.composite_key (or_nothing (get r.node_id ix.keys_by_node)))
          ix.keys_by_node;
  }

  unfoldable pub load_rows : List Row → Index M → Index M
  load_rows [] ix = ix
  load_rows (r ∷ rs) ix = load_rows rs (load_row r ix)

  -- `__init__` on a database that holds `rows`
  unfoldable pub open_index : List Row → Index M
  unfolding load_rows
  open_index rows = load_rows rows (record { entries_by_key = []; keys_by_node = []; rows = rows })

  -- The three writes of `register` and of a round of `heartbeat`'s first loop
  abbrev pub write_cell : String → String → Record M → Index M → Index M
  write_cell key node r ix = record ix {
    entries_by_key = put_cell key node r ix.entries_by_key;
    rows = persist_record key node r ix.rows;
  }

  unfoldable pub take_item :
      String → Option (String × Record M) → List String × Index M → List String × Index M
  take_item node none s = s
  take_item node (some (key, r)) (keys, ix) = (add_key key keys, write_cell key node r ix)

module _ {M : Type 0} where
  -- The second loop
  unfoldable pub drop_stale : String → List String → Index M → Index M
  drop_stale node [] ix = ix
  drop_stale node (key ∷ keys) ix = drop_stale node keys (record ix {
    entries_by_key = drop_cell key node ix.entries_by_key;
    rows = delete_record key node ix.rows;
  })

  unfoldable pub finish_heartbeat : String → List String × Index M → Index M
  finish_heartbeat node (new, ix) =
      let stale = minus (or_nothing (get node ix.keys_by_node)) new in
      let ix' = drop_stale node stale ix in
      record ix' { keys_by_node = put node new ix'.keys_by_node }

  -- The loop of `evict` over the nodes of the key
  unfoldable pub forget_nodes : String → List String → Index M → Index M
  forget_nodes key [] ix = ix
  forget_nodes key (node ∷ nodes) ix = forget_nodes key nodes (record ix {
    keys_by_node = put node (discard key (or_nothing (get node ix.keys_by_node))) ix.keys_by_node;
    rows = delete_record key node ix.rows;
  })

module _ {M : Type 0} (texts : Texts) where
  -- The key and the record of an item, `none` for one that is skipped: not a dict, or without hash.
  abbrev pub item_record : ℕ → String → Option (Item M) → Option (String × Record M)
  item_record now node none = none
  item_record now node (some item) =
      let tenant = safe_tenant_id texts item.tenant_id in
      let prefix = safe_hash texts item.hash in
      if str_eq prefix ""
      then none
      else some (
        composite texts tenant prefix,
        record {
          node_id = node;
          worker_id = item.worker_id;
          tenant_id = tenant;
          hash = prefix;
          metadata = item.metadata;
          updated_at = now;
        },
      )

  -- `before` is the order of the sort key, each part descending, with ties kept in order.
  unfoldable pub lookup : (Record M → Record M → Bool) → String → String → Index M → List (Record M)
  lookup before tenant prefix ix =
      sort_by before (values (or_nothing (get (composite texts tenant prefix) ix.entries_by_key)))

  unfoldable pub evict : String → String → Index M → ℕ × Index M
  unfolding forget_nodes
  evict tenant prefix ix =
      let key = composite texts tenant prefix in
      let found = or_nothing (get key ix.entries_by_key) in
      (
        length found,
        forget_nodes key (map (λ e. e.0) found)
            (record ix { entries_by_key = pop key ix.entries_by_key }),
      )

module _ {M : Type 0} (io : Metadata M) (texts : Texts) where
  unfoldable pub register : ℕ → String → String → String → String → M → Index M → Index M
  register now tenant prefix node_id worker metadata ix =
      let key = composite texts tenant prefix in
      let node = texts.strip node_id in
      let r : Record M = record {
        node_id = node;
        worker_id = texts.strip worker;
        tenant_id = safe_tenant_id texts tenant;
        hash = safe_hash texts prefix;
        metadata = metadata;
        updated_at = now;
      } in
      let ix' = write_cell io key node r ix in
      if str_eq key "" || str_eq node "" then ix else record ix' {
        keys_by_node =
            put node (add_key key (or_nothing (get node ix.keys_by_node))) ix.keys_by_node;
      }

  -- The first loop, with the keys that it collects. The clock is read for each item.
  unfoldable pub take_items :
      String → List (ℕ × Option (Item M)) → List String × Index M → List String × Index M
  take_items node [] s = s
  take_items node ((now, item) ∷ items) s =
      take_items node items (take_item io node (item_record texts now node item) s)

  unfoldable pub heartbeat : String → List (ℕ × Option (Item M)) → Index M → Index M
  unfolding take_item take_items drop_stale finish_heartbeat
  heartbeat node_id items ix =
      let node = texts.strip node_id in
      let ix' = finish_heartbeat node (take_items node items ([], ix)) in
      if str_eq node "" then ix else ix'

pub record IndexStats : Type 0 where
  pub keys : ℕ
  pub nodes : ℕ
  pub rows : ℕ

abbrev pub is_nonempty : {A : Type 0} → List A → Bool
is_nonempty [] = false
is_nonempty (x ∷ xs) = true

unfoldable pub stats : {M : Type 0} → Index M → IndexStats
stats ix = record {
  keys = length ix.entries_by_key;
  nodes = length (keep_if (λ (e : String × List String). is_nonempty e.1) ix.keys_by_node);
  rows = sum (map (λ m. length m) (values ix.entries_by_key));
}
