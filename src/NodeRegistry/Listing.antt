-- ===== src/NodeRegistry/Listing.antt =====
-- platform/cluster/node_registry.py: which nodes are listed, and in which order.
use axropus_deploy.Prelude.{
  ℕ, ◌≡◌, refl, ◌∙◌, String, Bool, true, false, not, ◌&&◌, List, [], ◌∷◌, Option, none, some,
  str_eq, if◌then◌else◌, ltb, leb, ◌==◌, inl, inr, Bool-cases, arith, count_if, All, sort_by,
  IsSortedBy, sort_by-IsSortedBy, count_if-sort_by,
}
use axropus_deploy.NodeRegistry.{
  Json, Row, Node, is_node, is_before, is_stale, capabilities_of, node_of, add_node, read_rows,
  list_nodes,
}

-- The order of the nodes: fewer jobs in flight, then fewer waiting misses, then the later heartbeat
abbrev pub is_ahead : {Caps : Type 0} → Node Caps → Node Caps → Bool
is_ahead a b =
    if a.load.inflight == b.load.inflight
    then (if a.load.queue_depth_miss == b.load.queue_depth_miss
        then leb b.last_heartbeat a.last_heartbeat
        else ltb a.load.queue_depth_miss b.load.queue_depth_miss)
    else ltb a.load.inflight b.load.inflight

is_before_total : (a b : Row) → is_before a b ≡ false → is_before b a ≡ true
is_before_total a b h = ground arith

is_before_trans : (a b c : Row) → is_before a b ≡ true → is_before b c ≡ true → is_before a c ≡ true
is_before_trans a b c h k = ground arith

module _ {Caps : Type 0} (io : Json Caps) where
  -- The parts of a list that is read
  add_node_cases :
      (stale : Bool) (r : Row) (o : Option Caps) (rest : Option (List (Node Caps)))
      (nodes : List (Node Caps))
      → add_node io stale r o rest ≡ some nodes
      → (caps : Caps) × ((ns : List (Node Caps)) × ((rest ≡ some ns)
            × ((if stale then ns else node_of r caps ∷ ns) ≡ nodes)))
  add_node_cases stale r none rest nodes h = absurd cc
  add_node_cases stale r (some caps) none nodes h = absurd cc
  add_node_cases true r (some caps) (some ns) nodes h = (caps, (ns, (refl, some_inj h)))
    where
      some_inj : some ns ≡ some nodes → ns ≡ nodes
      some_inj e = cc
  add_node_cases false r (some caps) (some ns) nodes h = (caps, (ns, (refl, some_inj h)))
    where
      some_inj : some (node_of r caps ∷ ns) ≡ some nodes → node_of r caps ∷ ns ≡ nodes
      some_inj e = cc

  module _ (stale : Row → Bool) where
    read-All :
        (x : Row) (caps : Caps) (rows : List Row) (nodes : List (Node Caps))
        → read_rows io stale rows ≡ some nodes
        → All (λ r. is_before x r ≡ true) rows
        → All (λ n. is_ahead (node_of x caps) n ≡ true) nodes
    unfolding read_rows
    read-All x caps [] [] h a = tt
    read-All x caps [] (n ∷ nodes) h a = absurd cc
    read-All x caps (r ∷ rows) nodes h a =
        let (c, (ns, (e, same))) =
          add_node_cases (stale r) r (capabilities_of io r) (read_rows io stale rows) nodes h in
        let rest = read-All x caps rows ns e a.1 in
        elim (Bool-cases (stale r)) [
          | inl s ↦ rw (← same, s) rest
          | inr s ↦ rw (← same, s) (a.0, rest)
        ]

    read-IsSortedBy :
        (rows : List Row) (nodes : List (Node Caps))
        → read_rows io stale rows ≡ some nodes
        → IsSortedBy is_before rows
        → IsSortedBy is_ahead nodes
    unfolding read_rows
    read-IsSortedBy [] [] h s = tt
    read-IsSortedBy [] (n ∷ nodes) h s = absurd cc
    read-IsSortedBy (r ∷ rows) nodes h s =
        let (c, (ns, (e, same))) =
          add_node_cases (stale r) r (capabilities_of io r) (read_rows io stale rows) nodes h in
        let rest = read-IsSortedBy rows ns e s.1 in
        elim (Bool-cases (stale r)) [
          | inl old ↦ rw (← same, old) rest
          | inr new ↦ rw (← same, new) (read-All r c rows ns e s.0, rest)
        ]

    read-count :
        (id : String) (rows : List Row) (nodes : List (Node Caps))
        → read_rows io stale rows ≡ some nodes
        → count_if (λ n. str_eq n.node_id id) nodes
          ≡ count_if (λ r. is_node id r && not (stale r)) rows
    unfolding read_rows
    read-count id [] [] h = refl
    read-count id [] (n ∷ nodes) h = absurd cc
    read-count id (r ∷ rows) nodes h =
        let (c, (ns, (e, same))) =
          add_node_cases (stale r) r (capabilities_of io r) (read_rows io stale rows) nodes h in
        let rest = read-count id rows ns e in
        elim (Bool-cases (stale r)) [
          | inl old ↦ rw (← same, old) (ground (arith, rest))
          | inr new ↦ rw (← same, new) (ground (arith, rest))
        ]

  -- If `list_nodes` returns, the nodes come with fewer jobs in flight first, of equals those with fewer
  -- waiting misses, and of equals the later heartbeat; and each node is listed as often as the table has
  -- a row of it that is not to be skipped for its staleness.
  pub list_nodes-IsSortedBy :
      (healthy_only : Bool) (max_stale now : ℕ) (rows : List Row) (nodes : List (Node Caps))
      (id : String)
      → list_nodes io healthy_only max_stale now rows ≡ some nodes
      → IsSortedBy is_ahead nodes
        × (count_if (λ n. str_eq n.node_id id) nodes
            ≡ count_if (λ r. is_node id r && not (is_stale healthy_only max_stale now r)) rows)
  unfolding list_nodes
  list_nodes-IsSortedBy healthy_only most now rows nodes id h =
      let stale = is_stale healthy_only most now in
      (
        read-IsSortedBy stale (sort_by is_before rows) nodes h
            (sort_by-IsSortedBy is_before is_before_total is_before_trans rows),
        read-count stale id (sort_by is_before rows) nodes h
            ∙ count_if-sort_by is_before (λ r. is_node id r && not (stale r)) rows,
      )
