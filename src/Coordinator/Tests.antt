-- ===== src/Coordinator/Tests.antt =====
-- Runs of a small index, and the theorems at concrete inputs.
use Prim.Native.Char.{Char, code}
use text.Mathlib.TextLemmas.{cons-ne-nil}
use axropus_deploy.Prelude.{
  has, String, ◌≡◌, refl, inl, inr, true, false, ◌&&◌, Bool-cases, eq_iff, str_eq, List, [], ◌∷◌,
  map, Option, none, some, arith, leb, ◌==◌,
}
use axropus_deploy.Dict.{get, put, pop}
use axropus_deploy.Coordinator.{
  Metadata, Item, Index, or_nothing, cell, open_index, load_rows, register, heartbeat, take_items,
  take_item, drop_stale, finish_heartbeat, forget_nodes, evict, lookup, stats,
}
use axropus_deploy.Coordinator.Keys.{Texts, safe_tenant_id, safe_hash, composite, composite_inj}
use axropus_deploy.Coordinator.Cells.{stored}
use axropus_deploy.Coordinator.Machine.{Call, registers, heartbeats, step, run}
use axropus_deploy.Coordinator.Agreement.{is_some, row_if}
use axropus_deploy.Coordinator.Evictions.{indices_agree}
use axropus_deploy.Coordinator.Restart.{restart_agrees}

-- Metadata that is a letter, dumped with a mark in front
abbrev unmark : String → Option String
unmark String.[] = none
unmark (String.◌∷◌ c s) = some s

abbrev marked : Metadata String
marked = record { dumps = λ s. String.◌∷◌ "#" s; loads = unmark; no_metadata = "" }

abbrev ascii : Texts
ascii = record {
  strip = λ s. s;
  lower = λ s. s;
  is_alnum = λ c. leb b'a' (code c) && leb (code c) b'z';
}

mark_is_text : (s : String) → str_eq (marked.dumps s) "" ≡ false
mark_is_text s = elim (Bool-cases (str_eq (String.◌∷◌ "#" s) "")) [
  | inl e ↦ absurd (cons-ne-nil _ _ ((eq_iff (String.◌∷◌ "#" s) "").0 e))
  | inr e ↦ e
]

colon_not_alnum : (c : Char) → ascii.is_alnum c ≡ true → (code c == b':') ≡ false
colon_not_alnum c h = ground arith

abbrev an_item : String → Option (Item String)
an_item prefix = some (record { tenant_id = "t"; hash = prefix; worker_id = "w"; metadata = "m" })

abbrev two_nodes : List (Call String)
two_nodes =
    registers 1 "t" "ab" "n1" "w1" "x"
    ∷ heartbeats "n2" ((2, an_item "ab") ∷ (3, an_item "cd") ∷ (3, none) ∷ [])
    ∷ heartbeats "n2" ((4, an_item "ab") ∷ [])
    ∷ []

abbrev after_two : Index String
after_two = run marked ascii two_nodes (open_index marked [])

stats_two : stats after_two ≡ record { keys = 1; nodes = 2; rows = 2 }
unfolding composite evict finish_heartbeat forget_nodes get heartbeat load_rows open_index register
    run safe_hash safe_tenant_id stats step take_item take_items drop_stale put pop
stats_two = refl

stats_evicted : stats (evict ascii "t" "ab" after_two).1 ≡ record { keys = 0; nodes = 0; rows = 0 }
unfolding composite evict finish_heartbeat forget_nodes get heartbeat load_rows open_index register
    run safe_hash safe_tenant_id stats step take_item take_items drop_stale put pop
stats_evicted = refl

lookup_two :
    map (λ r. r.node_id) (lookup ascii (λ r s. leb s.updated_at r.updated_at) "t" "a-b" after_two)
    ≡ "n2" ∷ "n1" ∷ []
unfolding composite evict finish_heartbeat forget_nodes get heartbeat load_rows lookup open_index
    register run safe_hash safe_tenant_id stats step take_item take_items drop_stale put pop
lookup_two = refl

composite_inj_example :
    (safe_tenant_id ascii "a:b" ≡ safe_tenant_id ascii "a/b")
    × (safe_hash ascii "cd" ≡ safe_hash ascii "c.d")
unfolding composite safe_tenant_id safe_hash
composite_inj_example = composite_inj ascii "a:b" "a/b" "cd" "c.d" colon_not_alnum refl

indices_agree_example :
    (has "t:ab" (or_nothing (get "n2" after_two.keys_by_node))
      ≡ is_some (cell "t:ab" "n2" after_two.entries_by_key))
    × (stored "t:ab" "n2" after_two.rows
        ≡ row_if marked "t:ab" "n2" (cell "t:ab" "n2" after_two.entries_by_key))
indices_agree_example = indices_agree marked ascii two_nodes "t:ab" "n2"

restart_agrees_example :
    (cell "t:ab" "n2" (open_index marked after_two.rows).entries_by_key
      ≡ cell "t:ab" "n2" after_two.entries_by_key)
    × (has "t:ab" (or_nothing (get "n2" (open_index marked after_two.rows).keys_by_node))
        ≡ has "t:ab" (or_nothing (get "n2" after_two.keys_by_node)))
restart_agrees_example = restart_agrees marked (λ m. refl) mark_is_text ascii two_nodes "t:ab" "n2"
