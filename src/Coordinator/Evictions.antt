-- ===== src/Coordinator/Evictions.antt =====
-- platform/runtime/amf_coordinator.py: the indices and the table under `evict`, and under any calls.
use axropus_deploy.Prelude.{
  has, String, ◌≡◌, refl, ap, inl, inr, ◌∙◌, true, not, ◌&&◌, List, [], ◌∷◌, map, none, arith,
  str_eq, eq_iff, if◌then◌else◌, Bool-cases,
}
use axropus_deploy.Dict.{Dict, get, pop, IsDict}
use axropus_deploy.Dict.Laws.{get-pop_ne, get-pop_self, pop-IsDict}
use axropus_deploy.Coordinator.{
  Metadata, Record, Entries, Index, or_nothing, discard, cell, forget_nodes, evict, load_rows,
  open_index,
}
use axropus_deploy.Coordinator.Keys.{Texts, composite}
use axropus_deploy.Coordinator.Cells.{has-discard, stored, stored-delete}
use axropus_deploy.Coordinator.Machine.{Call, registers, heartbeats, evicts, step, run}
use axropus_deploy.Coordinator.Agreement.{is_some, row_if, Agrees, inner-pop}
use axropus_deploy.Coordinator.Heartbeats.{has-put, same_set, register-Agrees, heartbeat-Agrees}

has_nodes :
    {M : Type 0} (n : String) (m : Dict (Record M)) → has n (map (λ e. e.0) m) ≡ is_some (get n m)
unfolding get
has_nodes n [] = refl
has_nodes n ((j, r) ∷ m) = ground (arith, has_nodes n m)

module _ {M : Type 0} (key : String) where
  forget_nodes-cells :
      (nodes : List String) (ix : Index M)
      → (forget_nodes key nodes ix).entries_by_key ≡ ix.entries_by_key
  unfolding forget_nodes
  forget_nodes-cells [] ix = refl
  forget_nodes-cells (node ∷ nodes) ix = forget_nodes-cells nodes _

  forget_nodes-rows :
      (k n : String) (nodes : List String) (ix : Index M)
      → stored k n (forget_nodes key nodes ix).rows
        ≡ (if str_eq key k && has n nodes then none else stored k n ix.rows)
  unfolding forget_nodes
  forget_nodes-rows k n [] ix = ground arith
  forget_nodes-rows k n (node ∷ nodes) ix =
      forget_nodes-rows k n nodes _ ∙ ground (arith, stored-delete k n key node ix.rows)

  forget_nodes-keys :
      (k n : String) (nodes : List String) (ix : Index M)
      → has k (or_nothing (get n (forget_nodes key nodes ix).keys_by_node))
        ≡ not (str_eq key k && has n nodes) && has k (or_nothing (get n ix.keys_by_node))
  unfolding forget_nodes
  forget_nodes-keys k n [] ix = ground arith
  forget_nodes-keys k n (node ∷ nodes) ix =
      forget_nodes-keys k n nodes _
      ∙ ground (
        arith,
        has-put k n node (discard key (or_nothing (get node ix.keys_by_node))) ix.keys_by_node,
        has-discard k key (or_nothing (get node ix.keys_by_node)),
        same_set k n node ix.keys_by_node,
      )

get-pop_key :
    {M : Type 0} (k key : String) (e : Entries M)
    → IsDict e
    → or_nothing (get k (pop key e)) ≡ (if str_eq key k then [] else or_nothing (get k e))
get-pop_key k key e d = elim (Bool-cases (str_eq key k)) [
  | inl same ↦ rw (same, ← (eq_iff key k).0 same, get-pop_self key e d) refl
  | inr other ↦ rw (other, get-pop_ne k key e other) refl
]

cell-pop_key :
    {M : Type 0} (k n key : String) (e : Entries M)
    → IsDict e
    → cell k n (pop key e) ≡ (if str_eq key k then none else cell k n e)
unfolding get
cell-pop_key k n key e d = rw (get-pop_key k key e d) (ground arith)

same_cell :
    {M : Type 0} (k n key : String) (e : Entries M)
    → str_eq key k ≡ true
    → is_some (cell key n e) ≡ is_some (cell k n e)
same_cell k n key e same = ap (λ x. is_some (cell x n e)) ((eq_iff key k).0 same)

module _ {M : Type 0} (io : Metadata M) where
  popped-Agrees :
      (key : String) (ix q : Index M)
      → Agrees io ix
      → q.entries_by_key ≡ pop key ix.entries_by_key
      → ((k n : String)
          → stored k n q.rows ≡ (
              if str_eq key k && is_some (cell key n ix.entries_by_key)
              then none
              else stored k n ix.rows))
      → ((k n : String)
          → has k (or_nothing (get n q.keys_by_node))
            ≡ not (str_eq key k && is_some (cell key n ix.entries_by_key))
              && has k (or_nothing (get n ix.keys_by_node)))
      → Agrees io q
  popped-Agrees key ix q a cells rows keys =
      let e = ix.entries_by_key in
      let p = a.persisted in
      let now : (k n : String)
          → cell k n q.entries_by_key ≡ (if str_eq key k then none else cell k n e) =
        λ k n. ap (cell k n) cells ∙ cell-pop_key k n key e p.outer in
      record {
        listed = λ k n. ground (arith, keys k n, now k n, same_cell k n key e, a.listed k n);
        persisted = record {
          outer = rw cells (pop-IsDict key e p.outer);
          inner = λ k. rw cells (inner-pop io key k e p.outer (p.inner k));
          rows_agree =
              λ k n. ground (arith, rows k n, now k n, same_cell k n key e, p.rows_agree k n);
          named = λ k n r found. ground (arith, now k n, p.named k n r);
        };
      }

  pub evict-Agrees :
      (texts : Texts) (tenant prefix : String) (ix : Index M)
      → Agrees io ix
      → Agrees io (evict texts tenant prefix ix).1
  unfolding evict
  evict-Agrees texts tenant prefix ix a =
      let key = composite texts tenant prefix in
      let found = or_nothing (get key ix.entries_by_key) in
      let nodes = map (λ x. x.0) found in
      let ix' : Index M = record ix { entries_by_key = pop key ix.entries_by_key } in
      popped-Agrees key ix (forget_nodes key nodes ix') a (forget_nodes-cells key nodes ix')
        (λ k n. forget_nodes-rows key k n nodes ix' ∙ ground (arith, has_nodes n found))
        (λ k n. forget_nodes-keys key k n nodes ix' ∙ ground (arith, has_nodes n found))

  step-Agrees :
      (texts : Texts) (c : Call M) (ix : Index M) → Agrees io ix → Agrees io (step io texts c ix)
  unfolding step
  step-Agrees texts (registers now tenant prefix node worker metadata) ix a =
      register-Agrees io texts now tenant prefix node worker metadata ix a
  step-Agrees texts (heartbeats node items) ix a = heartbeat-Agrees io texts node items ix a
  step-Agrees texts (evicts tenant prefix) ix a = evict-Agrees texts tenant prefix ix a

  pub run-Agrees :
      (texts : Texts) (cs : List (Call M)) (ix : Index M)
      → Agrees io ix
      → Agrees io (run io texts cs ix)
  unfolding run
  run-Agrees texts [] ix a = a
  run-Agrees texts (c ∷ cs) ix a =
      run-Agrees texts cs (step io texts c ix) (step-Agrees texts c ix a)

  pub opened-Agrees : Agrees io (open_index io [])
  unfolding open_index load_rows get
  opened-Agrees = record {
    listed = λ k n. refl;
    persisted = record {
      outer = tt;
      inner = λ k. tt;
      rows_agree = λ k n. refl;
      named = λ k n r found. cc;
    };
  }

  -- After any calls on an index that was opened on an empty table, the set of each node has the keys
  -- under which the node is found and no others, and the table has the row of each cell of the index
  -- and no others.
  pub indices_agree :
      (texts : Texts) (cs : List (Call M)) (k n : String)
      → let ix = run io texts cs (open_index io []) in
        (has k (or_nothing (get n ix.keys_by_node)) ≡ is_some (cell k n ix.entries_by_key))
        × (stored k n ix.rows ≡ row_if io k n (cell k n ix.entries_by_key))
  indices_agree texts cs k n =
      let a = run-Agrees texts cs (open_index io []) opened-Agrees in
      (a.listed k n, a.persisted.rows_agree k n)
