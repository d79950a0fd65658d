-- ===== src/NodeRegistry.antt =====
-- platform/cluster/node_registry.py: the nodes of the cluster in a SQLite table, where no Redis is
-- given. Times are whole ticks; `Caps` is the type of a node's capabilities.
pub mod Listing
pub mod Rows
pub mod Latest
mod Tests
use axropus_deploy.Prelude.{
  ℕ, ◌-◌, String, Bool, true, false, ◌&&◌, List, [], ◌∷◌, Option, none, some, str_eq, if◌then◌else◌,
  ltb, leb, ◌==◌, sort_by, first_of_list,
}
use axropus_deploy.Sql.{upsert}

-- What `json` computes on capabilities; `loads` is none where it raises.
pub record Json (Caps : Type 0) : Type 0 where
  pub dumps : Caps → String
  pub loads : String → Option Caps

-- The numbers that a node reports
pub record Load : Type 0 where
  pub router_port : ℕ
  pub gpu_count : ℕ
  pub inflight : ℕ
  pub queue_depth_hit : ℕ
  pub queue_depth_miss : ℕ

-- A row of `nodes`
pub record Row : Type 0 where
  pub node_id : String
  pub host : String
  pub load : Load
  pub capabilities_json : String
  pub last_heartbeat : ℕ

pub record Node (Caps : Type 0) : Type 0 where
  pub node_id : String
  pub host : String
  pub load : Load
  pub capabilities : Caps
  pub last_heartbeat : ℕ

abbrev pub is_node : String → Row → Bool
is_node id r = str_eq r.node_id id

-- ORDER BY inflight ASC, queue_depth_miss ASC, last_heartbeat DESC
abbrev pub is_before : Row → Row → Bool
is_before a b =
    if a.load.inflight == b.load.inflight
    then (if a.load.queue_depth_miss == b.load.queue_depth_miss
        then leb b.last_heartbeat a.last_heartbeat
        else ltb a.load.queue_depth_miss b.load.queue_depth_miss)
    else ltb a.load.inflight b.load.inflight

-- Whether `list_nodes` skips a row
abbrev pub is_stale : Bool → ℕ → ℕ → Row → Bool
is_stale healthy_only max_stale now r = healthy_only && ltb max_stale (now - r.last_heartbeat)

module _ {Caps : Type 0} where
  abbrev pub node_of : Row → Caps → Node Caps
  node_of r caps = record {
    node_id = r.node_id;
    host = r.host;
    load = r.load;
    capabilities = caps;
    last_heartbeat = r.last_heartbeat;
  }

  abbrev pub first_node : String → Option (List (Node Caps)) → Option (Option (Node Caps))
  first_node id none = none
  first_node id (some nodes) = some (first_of_list (λ n. str_eq n.node_id id) nodes)

module _ {Caps : Type 0} (io : Json Caps) where
  abbrev pub row_of : ℕ → String → String → Load → Caps → Row
  row_of now id host load caps = record {
    node_id = id;
    host = host;
    load = load;
    capabilities_json = io.dumps caps;
    last_heartbeat = now;
  }

  unfoldable pub register_or_heartbeat : ℕ → String → String → Load → Caps → List Row → List Row
  register_or_heartbeat now id host load caps rows =
      upsert (is_node id) (λ r. record (row_of now id host load caps) { node_id = r.node_id })
        (row_of now id host load caps) rows

  -- `json.loads(row[7] or "{}")`
  abbrev pub capabilities_of : Row → Option Caps
  capabilities_of r = io.loads (if str_eq r.capabilities_json "" then "{}" else r.capabilities_json)

  -- The nodes after a row: none where a row raises
  abbrev pub add_node :
      Bool → Row → Option Caps → Option (List (Node Caps)) → Option (List (Node Caps))
  add_node stale r none rest = none
  add_node stale r (some caps) none = none
  add_node stale r (some caps) (some nodes) =
      if stale then some nodes else some (node_of r caps ∷ nodes)

  unfoldable pub read_rows : (Row → Bool) → List Row → Option (List (Node Caps))
  read_rows stale [] = some []
  read_rows stale (r ∷ rows) = add_node (stale r) r (capabilities_of r) (read_rows stale rows)

  unfoldable pub list_nodes : Bool → ℕ → ℕ → List Row → Option (List (Node Caps))
  unfolding read_rows
  list_nodes healthy_only max_stale now rows =
      read_rows (is_stale healthy_only max_stale now) (sort_by is_before rows)

  -- `get_node`, with its maximal staleness of 1e9 seconds, which is not looked at
  unfoldable pub get_node : String → ℕ → ℕ → List Row → Option (Option (Node Caps))
  get_node id max_stale now rows = first_node id (list_nodes false max_stale now rows)
