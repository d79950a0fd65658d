-- ===== src/Coordinator/Restart.antt =====
-- platform/runtime/amf_coordinator.py: the index that `_load_from_db` builds from the table.
use axropus_deploy.Prelude.{
  has, ℕ, String, ◌≡◌, refl, sym, ap, inl, inr, ◌∙◌, false, ◌||◌, List, [], ◌∷◌, ◌++◌, map, Option,
  none, some, arith, str_eq, eq_iff, eq_refl, if◌then◌else◌, Bool-cases,
}
use axropus_deploy.Dict.{get, pop}
use axropus_deploy.Coordinator.{
  Metadata, Record, Row, Index, Item, or_nothing, minus, cell, is_row, delete_record, row_of,
  record_of, persist_record, register, take_item, take_items, drop_stale, finish_heartbeat,
  heartbeat, forget_nodes, evict, item_record, load_row, load_rows, open_index,
}
use axropus_deploy.Coordinator.Keys.{Texts, composite, safe_tenant_id, safe_hash}
use axropus_deploy.Coordinator.Cells.{cell-put_cell, stored, stored-delete, stored-append}
use axropus_deploy.Coordinator.Machine.{Call, registers, heartbeats, evicts, step, run}
use axropus_deploy.Coordinator.Agreement.{is_some, row_if, Listed, Agrees}
use axropus_deploy.Coordinator.Heartbeats.{register-Listed}
use axropus_deploy.Coordinator.Evictions.{run-Agrees, opened-Agrees}

-- The primary key: no key and node stand in two rows.
abbrev IsKeyed : List Row → Type 0
IsKeyed [] = Unit
IsKeyed (r ∷ rows) = (stored r.composite_key r.node_id rows ≡ none) × IsKeyed rows

delete-IsKeyed :
    (key node : String) (rows : List Row) → IsKeyed rows → IsKeyed (delete_record key node rows)
delete-IsKeyed key node [] h = tt
delete-IsKeyed key node (r ∷ rows) h = elim (Bool-cases (is_row key node r)) [
  | inl e ↦ rw e (delete-IsKeyed key node rows h.1)
  | inr e ↦ rw e (
    (stored-delete r.composite_key r.node_id key node rows ∙ ground (arith, h.0)),
    delete-IsKeyed key node rows h.1,
  )
]

append-IsKeyed :
    (rows : List Row) (r : Row)
    → stored r.composite_key r.node_id rows ≡ none
    → IsKeyed rows
    → IsKeyed (rows ++ r ∷ [])
append-IsKeyed [] r fresh h = (refl, tt)
append-IsKeyed (x ∷ rows) r fresh h = (
  stored-append x.composite_key x.node_id rows r
      ∙ ground (
        arith,
        h.0,
        eq_iff r.composite_key x.composite_key,
        eq_iff x.composite_key r.composite_key,
        eq_iff r.node_id x.node_id,
        eq_iff x.node_id r.node_id,
      ),
  append-IsKeyed rows r (ground arith) h.1,
)

module _ {M : Type 0} (io : Metadata M) where
  persist-IsKeyed :
      (key node : String) (r : Record M) (rows : List Row)
      → IsKeyed rows
      → IsKeyed (persist_record io key node r rows)
  persist-IsKeyed key node r rows h =
      append-IsKeyed (delete_record key node rows) (row_of io key node r)
        (stored-delete key node key node rows ∙ rw (eq_refl key, eq_refl node) refl)
        (delete-IsKeyed key node rows h)

  take_item-IsKeyed :
      (node : String) (o : Option (String × Record M)) (keys : List String) (ix : Index M)
      → IsKeyed ix.rows
      → IsKeyed (take_item io node o (keys, ix)).1.rows
  unfolding take_item
  take_item-IsKeyed node none keys ix h = h
  take_item-IsKeyed node (some (key, r)) keys ix h = persist-IsKeyed key node r ix.rows h

  take_items-IsKeyed :
      (texts : Texts) (node : String) (items : List (ℕ × Option (Item M)))
      (s : List String × Index M)
      → IsKeyed s.1.rows
      → IsKeyed (take_items io texts node items s).1.rows
  unfolding take_items
  take_items-IsKeyed texts node [] s h = h
  take_items-IsKeyed texts node ((now, item) ∷ items) (keys, ix) h =
      take_items-IsKeyed texts node items _
        (take_item-IsKeyed node (item_record texts now node item) keys ix h)

  drop_stale-IsKeyed :
      (node : String) (keys : List String) (ix : Index M)
      → IsKeyed ix.rows
      → IsKeyed (drop_stale node keys ix).rows
  unfolding drop_stale
  drop_stale-IsKeyed node [] ix h = h
  drop_stale-IsKeyed node (key ∷ keys) ix h =
      drop_stale-IsKeyed node keys _ (delete-IsKeyed key node ix.rows h)

  forget_nodes-IsKeyed :
      (key : String) (nodes : List String) (ix : Index M)
      → IsKeyed ix.rows
      → IsKeyed (forget_nodes key nodes ix).rows
  unfolding forget_nodes
  forget_nodes-IsKeyed key [] ix h = h
  forget_nodes-IsKeyed key (node ∷ nodes) ix h =
      forget_nodes-IsKeyed key nodes _ (delete-IsKeyed key node ix.rows h)

  step-IsKeyed :
      (texts : Texts) (c : Call M) (ix : Index M)
      → IsKeyed ix.rows
      → IsKeyed (step io texts c ix).rows
  unfolding step register heartbeat finish_heartbeat evict
  step-IsKeyed texts (registers now tenant prefix node worker metadata) ix h =
      elim (Bool-cases
        (str_eq (composite texts tenant prefix) "" || str_eq (texts.strip node) "")) [
          | inl e ↦ rw (e, register) h
          | inr e ↦
              let r : Record M = record {
                node_id = texts.strip node;
                worker_id = texts.strip worker;
                tenant_id = safe_tenant_id texts tenant;
                hash = safe_hash texts prefix;
                metadata = metadata;
                updated_at = now;
              } in
              rw (e, register)
                (persist-IsKeyed (composite texts tenant prefix) (texts.strip node) r ix.rows h)
        ]
  step-IsKeyed texts (heartbeats node_id items) ix h =
      let node = texts.strip node_id in
      elim (Bool-cases (str_eq node "")) [
        | inl e ↦ rw (e, heartbeat) h
        | inr e ↦
            rw (e, heartbeat)
              (drop_stale-IsKeyed node
                (minus
                  (or_nothing (get node (take_items io texts node items ([], ix)).1.keys_by_node))
                  (take_items io texts node items ([], ix)).0)
                (take_items io texts node items ([], ix)).1
                (take_items-IsKeyed texts node items ([], ix) h))
      ]
  step-IsKeyed texts (evicts tenant prefix) ix h =
      let key = composite texts tenant prefix in
      forget_nodes-IsKeyed key (map (λ e. e.0) (or_nothing (get key ix.entries_by_key)))
        (record ix { entries_by_key = pop key ix.entries_by_key }) h

  run-IsKeyed :
      (texts : Texts) (cs : List (Call M)) (ix : Index M)
      → IsKeyed ix.rows
      → IsKeyed (run io texts cs ix).rows
  unfolding run
  run-IsKeyed texts [] ix h = h
  run-IsKeyed texts (c ∷ cs) ix h =
      run-IsKeyed texts cs (step io texts c ix) (step-IsKeyed texts c ix h)

  -- What the loading of a row, if any, leaves of a cell.
  abbrev loaded : Option Row → Option (Record M) → Option (Record M)
  loaded none o = o
  loaded (some r) o = some (record_of io r)

  loaded_cons :
      (k n : String) (r : Row) (rows : List Row) (o before : Option (Record M))
      → stored r.composite_key r.node_id rows ≡ none
      → o ≡ (if is_row k n r then some (record_of io r) else before)
      → loaded (stored k n rows) o ≡ loaded (stored k n (r ∷ rows)) before
  loaded_cons k n r rows o before fresh e = elim (Bool-cases (str_eq r.composite_key k)) [
    | inl p ↦ elim (Bool-cases (str_eq r.node_id n)) [
      | inl q ↦
          let same : stored r.composite_key r.node_id rows ≡ stored k n rows =
            ap (λ x. stored x r.node_id rows) ((eq_iff r.composite_key k).0 p)
            ∙ ap (λ x. stored k x rows) ((eq_iff r.node_id n).0 q) in
          ground (arith, same)
      | inr q ↦ ground arith
    ]
    | inr p ↦ ground arith
  ]

  load_rows-cell :
      (k n : String) (rows : List Row) (ix : Index M)
      → IsKeyed rows
      → cell k n (load_rows io rows ix).entries_by_key
        ≡ loaded (stored k n rows) (cell k n ix.entries_by_key)
  unfolding load_rows
  load_rows-cell k n [] ix h = refl
  load_rows-cell k n (r ∷ rows) ix h =
      load_rows-cell k n rows (load_row io r ix) h.1
      ∙ loaded_cons k n r rows (cell k n (load_row io r ix).entries_by_key)
          (cell k n ix.entries_by_key) h.0
          (cell-put_cell k n r.composite_key r.node_id (record_of io r) ix.entries_by_key)

  load_rows-Listed :
      (rows : List Row) (ix : Index M)
      → Listed ix.entries_by_key ix.keys_by_node
      → Listed (load_rows io rows ix).entries_by_key (load_rows io rows ix).keys_by_node
  unfolding load_rows
  load_rows-Listed [] ix h = h
  load_rows-Listed (r ∷ rows) ix h = load_rows-Listed rows (load_row io r ix) (
      register-Listed io r.composite_key r.node_id (record_of io r) ix.entries_by_key
        ix.keys_by_node h)

module _ {M : Type 0} (io : Metadata M) (parses : (m : M) → io.loads (io.dumps m) ≡ some m)
    (is_text : (m : M) → str_eq (io.dumps m) "" ≡ false) where
  record_of-row_of :
      (k n : String) (r : Record M) → r.node_id ≡ n → record_of io (row_of io k n r) ≡ r
  record_of-row_of k n r named =
      rw (is_text r.metadata, parses r.metadata) (ap (λ x. record r { node_id = x }) (sym named))

  loaded-row_if :
      (k n : String) (o : Option (Record M))
      → ((r : Record M) → o ≡ some r → r.node_id ≡ n)
      → loaded io (row_if io k n o) none ≡ o
  loaded-row_if k n none named = refl
  loaded-row_if k n (some r) named = ap some (record_of-row_of k n r (named r refl))

  open_index-cell :
      (ix : Index M) (k n : String)
      → Agrees io ix
      → IsKeyed ix.rows
      → cell k n (open_index io ix.rows).entries_by_key ≡ cell k n ix.entries_by_key
  unfolding open_index get
  open_index-cell ix k n a h =
      load_rows-cell io k n ix.rows _ h
      ∙ (ap (λ o. loaded io o none) (a.persisted.rows_agree k n)
          ∙ loaded-row_if k n (cell k n ix.entries_by_key) (a.persisted.named k n))

  open_index-Listed :
      (rows : List Row)
      → Listed (open_index io rows).entries_by_key (open_index io rows).keys_by_node
  unfolding open_index get
  open_index-Listed rows = load_rows-Listed io rows _ (λ k n. refl)

  -- If parsing undoes the dump of metadata and no dump is empty, an index that is opened again on the
  -- table finds in each cell the record that the index found before, after any calls, and each node's
  -- set has the same keys.
  pub restart_agrees :
      (texts : Texts) (cs : List (Call M)) (k n : String)
      → let ix = run io texts cs (open_index io []) in
        let again = open_index io ix.rows in
        (cell k n again.entries_by_key ≡ cell k n ix.entries_by_key)
        × (has k (or_nothing (get n again.keys_by_node))
            ≡ has k (or_nothing (get n ix.keys_by_node)))
  unfolding open_index load_rows
  restart_agrees texts cs k n =
      let ix = run io texts cs (open_index io []) in
      let a = run-Agrees io texts cs (open_index io []) (opened-Agrees io) in
      let same = open_index-cell ix k n a (run-IsKeyed io texts cs (open_index io []) tt) in
      (same, open_index-Listed ix.rows k n ∙ (ap is_some same ∙ sym (a.listed k n)))
