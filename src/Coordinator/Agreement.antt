-- ===== src/Coordinator/Agreement.antt =====
-- platform/runtime/amf_coordinator.py: the two indices in memory and the table, after any calls.
use axropus_deploy.Prelude.{
  has, String, ◌≡◌, refl, sym, ap, inl, inr, ◌∙◌, Bool, true, false, ◌&&◌, List, [], ◌∷◌, Option,
  none, some, arith, str_eq, eq_iff, if◌then◌else◌, Bool-cases,
}
use axropus_deploy.Dict.{Dict, get, pop, put, IsDict}
use axropus_deploy.Dict.Laws.{get-put, get-pop_ne, get-pop_self, pop-IsDict, put-IsDict}
use axropus_deploy.Coordinator.{
  Metadata, Record, Row, Entries, Index, or_nothing, cell, put_cell, put_back, drop_cell,
  delete_record, row_of, persist_record,
}
use axropus_deploy.Coordinator.Cells.{
  cell-put_cell, cell-drop_cell, stored, stored-delete, stored-persist,
}

abbrev pub is_some : {A : Type 0} → Option A → Bool
is_some none = false
is_some (some a) = true

abbrev pub row_if : {M : Type 0} → Metadata M → String → String → Option (Record M) → Option Row
row_if io k n none = none
row_if io k n (some r) = some (row_of io k n r)

-- Each node's set has the keys of its cells.
abbrev pub Listed : {M : Type 0} → Entries M → Dict (List String) → Type 0
Listed e keys = (k n : String) → has k (or_nothing (get n keys)) ≡ is_some (cell k n e)

-- The table has the rows of the cells, and no others; records name their node.
pub record Persisted {M : Type 0} (io : Metadata M) (e : Entries M) (rows : List Row) : Type 0 where
  pub outer : IsDict e
  pub inner : (k : String) → IsDict (or_nothing (get k e))
  pub rows_agree : (k n : String) → stored k n rows ≡ row_if io k n (cell k n e)
  pub named : (k n : String) (r : Record M) → cell k n e ≡ some r → r.node_id ≡ n

pub record Agrees {M : Type 0} (io : Metadata M) (ix : Index M) : Type 0 where
  pub listed : Listed ix.entries_by_key ix.keys_by_node
  pub persisted : Persisted io ix.entries_by_key ix.rows

module _ {M : Type 0} (io : Metadata M) where
  inner-put :
      (key k : String) (m : Dict (Record M)) (e : Entries M)
      → IsDict m
      → IsDict (or_nothing (get k e))
      → IsDict (or_nothing (get k (put key m e)))
  inner-put key k m e dm de = elim (Bool-cases (str_eq key k)) [
    | inl same ↦ rw (get-put k key m e, same) dm
    | inr other ↦ rw (get-put k key m e, other) de
  ]

  pub inner-pop :
      (key k : String) (e : Entries M)
      → IsDict e
      → IsDict (or_nothing (get k e))
      → IsDict (or_nothing (get k (pop key e)))
  inner-pop key k e d de = elim (Bool-cases (str_eq key k)) [
    | inl same ↦ rw (← (eq_iff key k).0 same, get-pop_self key e d) tt
    | inr other ↦ rw (get-pop_ne k key e other) de
  ]

  inner-put_back :
      (key k : String) (m : Dict (Record M)) (e : Entries M)
      → IsDict e
      → IsDict m
      → IsDict (or_nothing (get k e))
      → IsDict (or_nothing (get k (put_back key m e)))
  inner-put_back key k [] e d dm de = inner-pop key k e d de
  inner-put_back key k (x ∷ m) e d dm de = inner-put key k (x ∷ m) e dm de

  outer-put_back :
      (key : String) (m : Dict (Record M)) (e : Entries M) → IsDict e → IsDict (put_back key m e)
  outer-put_back key [] e d = pop-IsDict key e d
  outer-put_back key (x ∷ m) e d = put-IsDict key (x ∷ m) e d

  row_if-same :
      (k n key node : String) (r : Record M) (o : Option (Record M))
      → (if str_eq key k && str_eq node n then some (row_of io key node r) else row_if io k n o)
        ≡ row_if io k n (if str_eq key k && str_eq node n then some r else o)
  row_if-same k n key node r o = elim (Bool-cases (str_eq key k)) [
    | inl p ↦ elim (Bool-cases (str_eq node n)) [
      | inl q ↦
          rw (p, q)
            (ap (λ x. some (row_of io x node r)) ((eq_iff key k).0 p)
              ∙ ap (λ x. some (row_of io k x r)) ((eq_iff node n).0 q))
      | inr q ↦ rw (p, q) refl
    ]
    | inr p ↦ rw p refl
  ]

  pub Persisted-write :
      (key node : String) (r : Record M) (e : Entries M) (rows : List Row)
      → r.node_id ≡ node
      → Persisted io e rows
      → Persisted io (put_cell key node r e) (persist_record io key node r rows)
  Persisted-write key node r e rows same p = record {
    outer = put-IsDict key _ e p.outer;
    inner = λ k.
        inner-put key k (put node r (or_nothing (get key e))) e
          (put-IsDict node r (or_nothing (get key e)) (p.inner key)) (p.inner k);
    rows_agree = λ k n.
        stored-persist io k n key node r rows
        ∙ (ap (λ o. if str_eq key k && str_eq node n then some (row_of io key node r) else o)
              (p.rows_agree k n)
            ∙ (row_if-same k n key node r (cell k n e)
                ∙ ap (row_if io k n) (sym (cell-put_cell k n key node r e))));
    named = λ k n x found. named_put k n x (sym (cell-put_cell k n key node r e) ∙ found);
  }
    where
      named_put :
          (k n : String) (x : Record M)
          → (if str_eq key k && str_eq node n then some r else cell k n e) ≡ some x
          → x.node_id ≡ n
      named_put k n x h = ground (arith, p.named k n x, eq_iff node n)

  pub Persisted-drop :
      (key node : String) (e : Entries M) (rows : List Row)
      → Persisted io e rows
      → Persisted io (drop_cell key node e) (delete_record key node rows)
  Persisted-drop key node e rows p = record {
    outer = outer-put_back key _ e p.outer;
    inner = λ k.
        inner-put_back key k (pop node (or_nothing (get key e))) e p.outer
          (pop-IsDict node _ (p.inner key)) (p.inner k);
    rows_agree = λ k n.
        stored-delete k n key node rows
        ∙ (dropped k n
            ∙ ap (row_if io k n) (sym (cell-drop_cell k n key node e p.outer (p.inner key))));
    named = λ k n x found.
        named_drop k n x (sym (cell-drop_cell k n key node e p.outer (p.inner key)) ∙ found);
  }
    where
      dropped :
          (k n : String)
          → (if str_eq key k && str_eq node n then none else stored k n rows)
            ≡ row_if io k n (if str_eq key k && str_eq node n then none else cell k n e)
      dropped k n = ground (arith, p.rows_agree k n)

      named_drop :
          (k n : String) (x : Record M)
          → (if str_eq key k && str_eq node n then none else cell k n e) ≡ some x
          → x.node_id ≡ n
      named_drop k n x h = ground (arith, p.named k n x)
