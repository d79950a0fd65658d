-- ===== src/NodeRegistry/Latest.antt =====
-- platform/cluster/node_registry.py: the row of a node after its heartbeats.
use axropus_deploy.Prelude.{
  ℕ, ◌≡◌, refl, ap, ◌∙◌, String, false, List, [], ◌∷◌, Option, none, some, str_eq, if◌then◌else◌,
  inl, inr, Bool-cases, arith, any_of, first_of_list, All, All-append, either_of, All-sort_by,
  sort_by,
}
use axropus_deploy.Sql.{update_where, upsert}
use axropus_deploy.NodeRegistry.{
  Json, Load, Row, Node, is_node, is_before, is_stale, row_of, register_or_heartbeat,
  capabilities_of, node_of, read_rows, list_nodes, first_node, get_node,
}
use axropus_deploy.NodeRegistry.Rows.{Unique, first-sort_by, upsert-first, upsert-Unique}

-- A heartbeat of a node
pub record Beat (Caps : Type 0) : Type 0 where
  pub now : ℕ
  pub node_id : String
  pub host : String
  pub load : Load
  pub capabilities : Caps

module _ {Caps : Type 0} (io : Json Caps) where
  unfoldable pub run_beats : List (Beat Caps) → List Row → List Row
  run_beats [] rows = rows
  run_beats (b ∷ beats) rows =
      run_beats beats (register_or_heartbeat io b.now b.node_id b.host b.load b.capabilities rows)

  abbrev pub reported : Beat Caps → Node Caps
  reported b = record {
    node_id = b.node_id;
    host = b.host;
    load = b.load;
    capabilities = b.capabilities;
    last_heartbeat = b.now;
  }

  -- What the last heartbeat of a node reported
  abbrev pub last_node : String → List (Beat Caps) → Option (Node Caps) → Option (Node Caps)
  last_node id [] before = before
  last_node id (b ∷ beats) before =
      last_node id beats (if str_eq b.node_id id then some (reported b) else before)

  -- The capabilities of a row parse.
  abbrev Parsed : Row → Type 0
  Parsed r = (caps : Caps) × (capabilities_of io r ≡ some caps)

  update-Parsed :
      (j : String) (new : Row) (rows : List Row)
      → Parsed new
      → All Parsed rows
      → All Parsed (update_where (is_node j) (λ r. record new { node_id = r.node_id }) rows)
  update-Parsed j new [] n h = tt
  update-Parsed j new (r ∷ rows) n h = (
    either_of Parsed (str_eq r.node_id j) (record new { node_id = r.node_id }) r n h.0,
    update-Parsed j new rows n h.1,
  )

  upsert-Parsed :
      (j : String) (new : Row) (rows : List Row)
      → Parsed new
      → All Parsed rows
      → All Parsed (upsert (is_node j) (λ r. record new { node_id = r.node_id }) new rows)
  upsert-Parsed j new rows n h =
      either_of (All Parsed) (any_of (is_node j) rows) _ _ (update-Parsed j new rows n h)
        (All-append Parsed rows (new ∷ []) h (n, tt))

  abbrev found_caps : Row → Option Caps → Option (Option (Node Caps))
  found_caps r none = none
  found_caps r (some caps) = some (some (node_of r caps))

  -- What the row that is found stands for
  abbrev found : Option Row → Option (Option (Node Caps))
  found none = some none
  found (some r) = found_caps r (capabilities_of io r)

  read-first :
      (id : String) (most now : ℕ) (rows : List Row)
      → All Parsed rows
      → ((nodes : List (Node Caps)) × (read_rows io (is_stale false most now) rows ≡ some nodes))
        × (first_node id (read_rows io (is_stale false most now) rows)
            ≡ found (first_of_list (is_node id) rows))
  unfolding read_rows
  read-first id most now [] h = (([], refl), refl)
  read-first id most now (r ∷ rows) h =
      let (caps, parsed) = h.0 in
      let ((nodes, read), first) = read-first id most now rows h.1 in
      (
        (node_of r caps ∷ nodes, rw (parsed, read) refl),
        elim (Bool-cases (str_eq r.node_id id)) [
          | inl e ↦ rw (parsed, read, e, parsed) refl
          | inr e ↦ rw (parsed, read, e) (rw read at first)
        ],
      )

  beat-Parsed :
      ((caps : Caps) → io.loads (io.dumps caps) ≡ some caps)
      → ((caps : Caps) → str_eq (io.dumps caps) "" ≡ false)
      → (b : Beat Caps)
      → capabilities_of io (row_of io b.now b.node_id b.host b.load b.capabilities)
        ≡ some b.capabilities
  beat-Parsed parses is_text b =
      ap (λ x. io.loads (if x then "{}" else io.dumps b.capabilities)) (is_text b.capabilities)
      ∙ parses b.capabilities

module _ {Caps : Type 0} (io : Json Caps)
    (parses : (caps : Caps) → io.loads (io.dumps caps) ≡ some caps)
    (is_text : (caps : Caps) → str_eq (io.dumps caps) "" ≡ false) where
  -- The rows after heartbeats, and the node that is found in them
  record Beaten (beats : List (Beat Caps)) (rows : List Row) (before : String → Option (Node Caps))
      : Type 0 where
    unique : Unique (run_beats io beats rows)
    parsed : All (Parsed io) (run_beats io beats rows)
    newest :
        (id : String)
        → found io (first_of_list (is_node id) (run_beats io beats rows))
          ≡ some (last_node io id beats (before id))

  run-Beaten :
      (beats : List (Beat Caps)) (rows : List Row) (before : String → Option (Node Caps))
      → Unique rows
      → All (Parsed io) rows
      → ((id : String) → found io (first_of_list (is_node id) rows) ≡ some (before id))
      → Beaten beats rows before
  unfolding run_beats register_or_heartbeat
  run-Beaten [] rows before u p f = record { unique = u; parsed = p; newest = f }
  run-Beaten (b ∷ beats) rows before u p f =
      let new = row_of io b.now b.node_id b.host b.load b.capabilities in
      let ok = beat-Parsed io parses is_text b in
      let rows' = upsert (is_node b.node_id) (λ r. record new { node_id = r.node_id }) new rows in
      let done =
        run-Beaten beats rows'
          (λ id. if str_eq b.node_id id then some (reported io b) else before id)
          (upsert-Unique b.node_id new rows refl u)
          (upsert-Parsed io b.node_id new rows (b.capabilities, ok) p)
          (λ id.
            ap (found io) (upsert-first b.node_id id new rows refl)
            ∙ after id (first_of_list (is_node id) rows) (f id)) in
      record { unique = done.unique; parsed = done.parsed; newest = done.newest }
    where
      after :
          (id : String) (o : Option Row)
          → found io o ≡ some (before id)
          → found io (
              if str_eq b.node_id id
              then some (row_of io b.now b.node_id b.host b.load b.capabilities)
              else o)
            ≡ some (if str_eq b.node_id id then some (reported io b) else before id)
      after id o h = elim (Bool-cases (str_eq b.node_id id)) [
        | inl e ↦ rw (e, beat-Parsed io parses is_text b) refl
        | inr e ↦ rw e h
      ]

  -- If parsing undoes the dump of capabilities and no dump is empty, after any heartbeats `get_node`
  -- returns what the last heartbeat of the node reported, however old, and None if there was none.
  pub get_node-run_beats :
      (beats : List (Beat Caps)) (id : String) (max_stale now : ℕ)
      → get_node io id max_stale now (run_beats io beats []) ≡ some (last_node io id beats none)
  unfolding get_node list_nodes
  get_node-run_beats beats id most now =
      let rows = run_beats io beats [] in
      let b = run-Beaten beats [] (λ k. none) (λ k. omega arith) tt (λ k. refl) in
      let sorted = All-sort_by is_before (Parsed io) rows b.parsed in
      (read-first io id most now (sort_by is_before rows) sorted).1
      ∙ (ap (found io) (first-sort_by (is_node id) is_before rows (b.unique id)) ∙ b.newest id)
