-- ===== src/NodeRegistry/Tests.antt =====
-- Heartbeats of two nodes, and the theorems at concrete inputs.
use text.Mathlib.TextLemmas.{cons-ne-nil}
use axropus_deploy.Prelude.{
  ℕ, String, ◌≡◌, refl, true, false, not, ◌&&◌, List, [], ◌∷◌, Option, none, some, str_eq, eq_iff,
  inl, inr, Bool-cases, count_if, IsSortedBy, map,
}
use axropus_deploy.NodeRegistry.{
  Json, Row, Node, is_node, is_stale, register_or_heartbeat, read_rows, list_nodes, get_node,
}
use axropus_deploy.NodeRegistry.Latest.{Beat, run_beats, last_node, get_node-run_beats}
use axropus_deploy.NodeRegistry.Listing.{is_ahead, list_nodes-IsSortedBy}

-- Capabilities that are a text, dumped with a mark in front
abbrev unmark : String → Option String
unmark String.[] = none
unmark (String.◌∷◌ c s) = some s

abbrev marked : Json String
marked = record { dumps = λ s. String.◌∷◌ "#" s; loads = unmark }

mark_is_text : (s : String) → str_eq (marked.dumps s) "" ≡ false
mark_is_text s = elim (Bool-cases (str_eq (String.◌∷◌ "#" s) "")) [
  | inl e ↦ absurd (cons-ne-nil _ _ ((eq_iff (String.◌∷◌ "#" s) "").0 e))
  | inr e ↦ e
]

abbrev beat : ℕ → String → ℕ → Beat String
beat now id inflight = record {
  now = now;
  node_id = id;
  host = "h";
  load = record {
    router_port = 80;
    gpu_count = 1;
    inflight = inflight;
    queue_depth_hit = 0;
    queue_depth_miss = 0;
  };
  capabilities = "c";
}

abbrev beats : List (Beat String)
beats = beat 1 "a" 3 ∷ beat 2 "b" 2 ∷ beat 90 "a" 1 ∷ []

abbrev rows : List Row
rows = run_beats marked beats []

abbrev names : Option (List (Node String)) → List String
names none = []
names (some nodes) = map (λ n. n.node_id) nodes

all_names : names (list_nodes marked false 30 100 rows) ≡ "a" ∷ "b" ∷ []
unfolding run_beats register_or_heartbeat list_nodes read_rows
all_names = refl

healthy_names : names (list_nodes marked true 30 100 rows) ≡ "a" ∷ []
unfolding run_beats register_or_heartbeat list_nodes read_rows
healthy_names = refl

get_node-run_beats_example :
    get_node marked "b" 30 100 rows ≡ some (last_node marked "b" beats none)
get_node-run_beats_example = get_node-run_beats marked (λ s. refl) mark_is_text beats "b" 30 100

abbrev both : List (Node String)
both = nodes_of (list_nodes marked false 30 100 rows)
  where
    nodes_of : Option (List (Node String)) → List (Node String)
    nodes_of none = []
    nodes_of (some nodes) = nodes

list_nodes-IsSortedBy_example :
    IsSortedBy is_ahead both
    × (count_if (λ n. str_eq n.node_id "b") both
        ≡ count_if (λ r. is_node "b" r && not (is_stale false 30 100 r)) rows)
unfolding run_beats register_or_heartbeat list_nodes read_rows
list_nodes-IsSortedBy_example = list_nodes-IsSortedBy marked false 30 100 rows both "b" refl
