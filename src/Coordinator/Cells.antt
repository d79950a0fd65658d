-- ===== src/Coordinator/Cells.antt =====
-- platform/runtime/amf_coordinator.py: what the writes do to one cell of the index, one row of the
-- table and one key of a set.
use axropus_deploy.Prelude.{
  has, String, ◌≡◌, refl, ap, inl, inr, ◌∙◌, not, ◌&&◌, List, [], ◌∷◌, ◌++◌, Option, none, some,
  arith, str_eq, eq_iff, if◌then◌else◌, Bool-cases, first_of_list,
}
use axropus_deploy.Dict.{Dict, get, pop, put, IsDict}
use axropus_deploy.Dict.Laws.{get-put, get-pop_ne, get-pop_self}
use axropus_deploy.Coordinator.{
  Metadata, Record, Row, Entries, or_nothing, discard, minus, is_row, cell, put_cell, put_back,
  drop_cell, delete_record, row_of, persist_record,
}

-- Sets
pub has-discard :
    (k j : String) (keys : List String) → has k (discard j keys) ≡ not (str_eq j k) && has k keys
has-discard k j [] = ground arith
has-discard k j (x ∷ keys) =
    ground (arith, has-discard k j keys, eq_iff x j, eq_iff x k, eq_iff j k)

pub has-minus :
    (k : String) (old new : List String) → has k (minus old new) ≡ has k old && not (has k new)
has-minus k [] new = refl
has-minus k (x ∷ old) new = elim (Bool-cases (str_eq x k)) [
  | inl same ↦
      rw same (ground (arith, has-minus k old new, ap (λ j. has j new) ((eq_iff x k).0 same)))
  | inr other ↦ rw other (ground (arith, has-minus k old new))
]

-- Cells
module _ {M : Type 0} where
  pub cell-put_cell :
      (k n key node : String) (r : Record M) (e : Entries M)
      → cell k n (put_cell key node r e)
        ≡ (if str_eq key k && str_eq node n then some r else cell k n e)
  cell-put_cell k n key node r e = elim (Bool-cases (str_eq key k)) [
    | inl same ↦
        rw (get-put k key (put node r (or_nothing (get key e))) e, same)
          (get-put n node r (or_nothing (get key e))
            ∙ ap (λ m. if str_eq node n then some r else get n (or_nothing (get m e)))
                ((eq_iff key k).0 same))
    | inr other ↦ rw (get-put k key (put node r (or_nothing (get key e))) e, other) refl
  ]

  put_back_lem :
      (k key : String) (m : Dict (Record M)) (e : Entries M)
      → IsDict e
      → or_nothing (get k (put_back key m e)) ≡ (if str_eq key k then m else or_nothing (get k e))
  put_back_lem k key [] e d = elim (Bool-cases (str_eq key k)) [
    | inl same ↦ rw (same, ← (eq_iff key k).0 same, get-pop_self key e d) refl
    | inr other ↦ rw (other, get-pop_ne k key e other) refl
  ]
  put_back_lem k key (x ∷ m) e d = rw (get-put k key (x ∷ m) e) (ground arith)

  get-pop :
      (k key : String) (m : Dict (Record M))
      → IsDict m
      → get k (pop key m) ≡ (if str_eq key k then none else get k m)
  get-pop k key m d = elim (Bool-cases (str_eq key k)) [
    | inl same ↦ rw (same, ← (eq_iff key k).0 same) (get-pop_self key m d)
    | inr other ↦ rw other (get-pop_ne k key m other)
  ]

  pub cell-drop_cell :
      (k n key node : String) (e : Entries M)
      → IsDict e
      → IsDict (or_nothing (get key e))
      → cell k n (drop_cell key node e)
        ≡ (if str_eq key k && str_eq node n then none else cell k n e)
  cell-drop_cell k n key node e d di = elim (Bool-cases (str_eq key k)) [
    | inl same ↦
        rw (put_back_lem k key (pop node (or_nothing (get key e))) e d, same)
          (get-pop n node (or_nothing (get key e)) di
            ∙ ap (λ m. if str_eq node n then none else get n (or_nothing (get m e)))
                ((eq_iff key k).0 same))
    | inr other ↦ rw (put_back_lem k key (pop node (or_nothing (get key e))) e d, other) refl
  ]

-- Rows
abbrev pub stored : String → String → List Row → Option Row
stored k n rows = first_of_list (is_row k n) rows

pub stored-delete :
    (k n key node : String) (rows : List Row)
    → stored k n (delete_record key node rows)
      ≡ (if str_eq key k && str_eq node n then none else stored k n rows)
stored-delete k n key node [] = ground arith
stored-delete k n key node (r ∷ rows) = ground (
  arith,
  stored-delete k n key node rows,
  eq_iff r.composite_key key,
  eq_iff r.composite_key k,
  eq_iff key k,
  eq_iff r.node_id node,
  eq_iff r.node_id n,
  eq_iff node n,
)

pub stored-append :
    (k n : String) (rows : List Row) (r : Row)
    → stored k n (rows ++ r ∷ [])
      ≡ elim (stored k n rows) [ none ↦ (if is_row k n r then some r else none) | some x ↦ some x ]
stored-append k n [] r = refl
stored-append k n (x ∷ rows) r = ground (arith, stored-append k n rows r)

pub stored-persist :
    {M : Type 0} (io : Metadata M) (k n key node : String) (r : Record M) (rows : List Row)
    → stored k n (persist_record io key node r rows)
      ≡ (if str_eq key k && str_eq node n then some (row_of io key node r) else stored k n rows)
stored-persist io k n key node r rows =
    stored-append k n (delete_record key node rows) (row_of io key node r)
    ∙ rw (stored-delete k n key node rows) (ground arith)
