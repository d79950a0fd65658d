-- ===== src/Coordinator/Heartbeats.antt =====
-- platform/runtime/amf_coordinator.py: the indices and the table under `register` and
-- `heartbeat`.
use axropus_deploy.Prelude.{
  has, add_key, has-add_key, ℕ, String, ◌≡◌, refl, sym, ap, inl, inr, ◌∙◌, true, ◌&&◌, ◌||◌, List,
  [], ◌∷◌, Option, none, some, arith, str_eq, eq_iff, if◌then◌else◌, Bool-cases,
}
use axropus_deploy.Dict.{Dict, get, put}
use axropus_deploy.Dict.Laws.{get-put}
use axropus_deploy.Coordinator.{
  Metadata, Record, Entries, Index, Item, or_nothing, minus, cell, put_cell, drop_cell,
  delete_record, write_cell, register, take_item, take_items, drop_stale, finish_heartbeat,
  heartbeat, item_record,
}
use axropus_deploy.Coordinator.Keys.{Texts, composite, safe_tenant_id, safe_hash}
use axropus_deploy.Coordinator.Cells.{has-minus, cell-put_cell, cell-drop_cell}
use axropus_deploy.Coordinator.Agreement.{
  is_some, Listed, Persisted, Agrees, Persisted-write, Persisted-drop,
}

-- What a node's set holds after it was put.
pub has-put :
    (k n node : String) (keys : List String) (m : Dict (List String))
    → has k (or_nothing (get n (put node keys m)))
      ≡ (if str_eq node n then has k keys else has k (or_nothing (get n m)))
has-put k n node keys m = rw (get-put n node keys m) (ground arith)

pub same_set :
    (k n node : String) (m : Dict (List String))
    → str_eq node n ≡ true
    → has k (or_nothing (get node m)) ≡ has k (or_nothing (get n m))
same_set k n node m same = ap (λ x. has k (or_nothing (get x m))) ((eq_iff node n).0 same)

module _ {M : Type 0} (io : Metadata M) where
  pub register-Listed :
      (key node : String) (r : Record M) (e : Entries M) (m : Dict (List String))
      → Listed e m
      → Listed (put_cell key node r e) (put node (add_key key (or_nothing (get node m))) m)
  register-Listed key node r e m h k n =
      has-put k n node (add_key key (or_nothing (get node m))) m
      ∙ (own ∙ ap is_some (sym (cell-put_cell k n key node r e)))
    where
      own :
          (if str_eq node n
            then has k (add_key key (or_nothing (get node m)))
            else has k (or_nothing (get n m)))
          ≡ is_some (if str_eq key k && str_eq node n then some r else cell k n e)
      own = ground (arith, has-add_key k key (or_nothing (get node m)), h k n, same_set k n node m)

  -- Two loops of `heartbeat`
  Wrote : String → Entries M → List String × Index M → Type 0
  Wrote node e (keys, ix) =
      Persisted io ix.entries_by_key ix.rows
      × ((k n : String)
          → is_some (cell k n ix.entries_by_key)
            ≡ (str_eq node n && has k keys) || is_some (cell k n e))

  write_cells :
      (node key : String) (r : Record M) (e : Entries M) (keys : List String) (ix : Index M)
      → r.node_id ≡ node
      → Wrote node e (keys, ix)
      → Wrote node e (add_key key keys, write_cell io key node r ix)
  unfolding Wrote
  write_cells node key r e keys ix named (p, w) = (
    Persisted-write io key node r ix.entries_by_key ix.rows named p,
    λ k n.
        ap is_some (cell-put_cell k n key node r ix.entries_by_key)
        ∙ ground (arith, has-add_key k key keys, w k n),
  )

  take_item-Wrote :
      (texts : Texts) (now : ℕ) (node : String) (e : Entries M) (item : Option (Item M))
      (keys : List String) (ix : Index M)
      → Wrote node e (keys, ix)
      → Wrote node e (take_item io node (item_record texts now node item) (keys, ix))
  unfolding take_item
  take_item-Wrote texts now node e none keys ix h = h
  take_item-Wrote texts now node e (some item) keys ix h =
      elim (Bool-cases (str_eq (safe_hash texts item.hash) "")) [
        | inl empty ↦ rw (empty, take_item) h
        | inr there ↦
            rw (there, take_item)
              (write_cells node
                (composite texts (safe_tenant_id texts item.tenant_id) (safe_hash texts item.hash))
                _ e keys ix refl h)
      ]

  take_items-Wrote :
      (texts : Texts) (node : String) (e : Entries M) (items : List (ℕ × Option (Item M)))
      (s : List String × Index M)
      → Wrote node e s
      → Wrote node e (take_items io texts node items s)
  unfolding take_items
  take_items-Wrote texts node e [] s h = h
  take_items-Wrote texts node e ((now, item) ∷ items) (keys, ix) h =
      take_items-Wrote texts node e items _ (take_item-Wrote texts now node e item keys ix h)

  take_item-keys :
      (node : String) (o : Option (String × Record M)) (keys : List String) (ix : Index M)
      → (take_item io node o (keys, ix)).1.keys_by_node ≡ ix.keys_by_node
  unfolding take_item
  take_item-keys node none keys ix = refl
  take_item-keys node (some (key, r)) keys ix = refl

  take_items-keys :
      (texts : Texts) (node : String) (items : List (ℕ × Option (Item M)))
      (s : List String × Index M)
      → (take_items io texts node items s).1.keys_by_node ≡ s.1.keys_by_node
  unfolding take_items
  take_items-keys texts node [] s = refl
  take_items-keys texts node ((now, item) ∷ items) (keys, ix) =
      take_items-keys texts node items _
      ∙ take_item-keys node (item_record texts now node item) keys ix

  -- The second loop: the keys' cells of the node go.
  Dropped : String → List String → Entries M → Index M → Type 0
  Dropped node keys e ix =
      Persisted io ix.entries_by_key ix.rows
      × ((k n : String)
          → cell k n ix.entries_by_key ≡ (if str_eq node n && has k keys then none else cell k n e))

  drop_stale-Dropped :
      (node : String) (keys : List String) (ix : Index M)
      → Persisted io ix.entries_by_key ix.rows
      → Dropped node keys ix.entries_by_key (drop_stale node keys ix)
  unfolding drop_stale Dropped
  drop_stale-Dropped node [] ix p = (p, λ k n. ground arith)
  drop_stale-Dropped node (key ∷ keys) ix p =
      let e = ix.entries_by_key in
      let q = Persisted-drop io key node e ix.rows p in
      let (done, cells) =
        drop_stale-Dropped node keys
          (record ix {
            entries_by_key = drop_cell key node e;
            rows = delete_record key node ix.rows;
          })
          q in
      (done, λ k n. cells k n ∙ ground (arith, cell-drop_cell k n key node e p.outer (p.inner key)))

  drop_stale-keys :
      (node : String) (keys : List String) (ix : Index M)
      → (drop_stale node keys ix).keys_by_node ≡ ix.keys_by_node
  unfolding drop_stale
  drop_stale-keys node [] ix = refl
  drop_stale-keys node (key ∷ keys) ix = drop_stale-keys node keys _

  finish-Agrees :
      (node : String) (new : List String) (e : Entries M) (ix : Index M)
      → Listed e ix.keys_by_node
      → Wrote node e (new, ix)
      → Agrees io (finish_heartbeat node (new, ix))
  unfolding finish_heartbeat Wrote Dropped
  finish-Agrees node new e ix listed (p, w) =
      let old = or_nothing (get node ix.keys_by_node) in
      let stale = minus old new in
      let (q, cells) = drop_stale-Dropped node stale ix p in
      record {
        listed = λ k n.
            has-put k n node new (drop_stale node stale ix).keys_by_node
            ∙ (rw (drop_stale-keys node stale ix)
                (final k n (cell k n ix.entries_by_key) (w k n) ∙ ap is_some (sym (cells k n))));
        persisted = q;
      }
    where
      final :
          (k n : String) (o : Option (Record M))
          → is_some o ≡ (str_eq node n && has k new) || is_some (cell k n e)
          → (if str_eq node n then has k new else has k (or_nothing (get n ix.keys_by_node)))
            ≡ is_some (
                if str_eq node n && has k (minus (or_nothing (get node ix.keys_by_node)) new)
                then none
                else o)
      final k n o was = ground (
        arith,
        was,
        listed k n,
        has-minus k (or_nothing (get node ix.keys_by_node)) new,
        same_set k n node ix.keys_by_node,
      )

  pub heartbeat-Agrees :
      (texts : Texts) (node_id : String) (items : List (ℕ × Option (Item M))) (ix : Index M)
      → Agrees io ix
      → Agrees io (heartbeat io texts node_id items ix)
  unfolding heartbeat Wrote
  heartbeat-Agrees texts node_id items ix a =
      let node = texts.strip node_id in
      elim (Bool-cases (str_eq node "")) [
        | inl empty ↦ rw (empty, heartbeat) a
        | inr there ↦
            rw (there, heartbeat)
              (finish-Agrees node (take_items io texts node items ([], ix)).0 ix.entries_by_key
                (take_items io texts node items ([], ix)).1
                (rw (take_items-keys texts node items ([], ix)) a.listed)
                (take_items-Wrote texts node ix.entries_by_key items ([], ix)
                  (a.persisted, λ k n. ground arith)))
      ]

  pub register-Agrees :
      (texts : Texts) (now : ℕ) (tenant prefix node_id worker : String) (metadata : M)
      (ix : Index M)
      → Agrees io ix
      → Agrees io (register io texts now tenant prefix node_id worker metadata ix)
  unfolding register
  register-Agrees texts now tenant prefix node_id worker metadata ix a =
      elim (Bool-cases
        (str_eq (composite texts tenant prefix) "" || str_eq (texts.strip node_id) "")) [
          | inl refused ↦ rw (refused, register) a
          | inr there ↦
              rw (there, register)
                (record {
                  listed =
                      register-Listed (composite texts tenant prefix) (texts.strip node_id) _
                        ix.entries_by_key ix.keys_by_node a.listed;
                  persisted =
                      Persisted-write io (composite texts tenant prefix) (texts.strip node_id) _
                        ix.entries_by_key ix.rows refl a.persisted;
                })
        ]
