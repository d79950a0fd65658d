-- ===== src/NodeRegistry/Rows.antt =====
-- platform/cluster/node_registry.py: one row of the table under an upsert, and under a sort.
use axropus_deploy.Prelude.{
  ◌+◌, ◌≤◌, ◌≡◌, refl, sym, ap, ◌∙◌, String, Bool, true, false, List, [], ◌∷◌, ◌++◌, some, str_eq,
  eq_iff, eq_refl, if◌then◌else◌, inl, inr, Bool-cases, arith, any_of, first_of_list, count_if,
  sort_by, insert_by, count_if-sort_by,
}
use axropus_deploy.Sql.{update_where, upsert}
use axropus_deploy.NodeRegistry.{Row, is_node}

module _ {A : Type 0} (p : A → Bool) (le : A → A → Bool) where
  -- If one element at most passes, sorting does not change which one is found.
  first-insert_by :
      (x : A) (ys : List A)
      → count_if p (x ∷ ys) ≤ 1
      → first_of_list p (insert_by le x ys) ≡ first_of_list p (x ∷ ys)
  first-insert_by x [] h = refl
  first-insert_by x (y ∷ ys) h = elim (Bool-cases (le x y)) [
    | inl e ↦ rw e refl
    | inr e ↦ elim (Bool-cases (p y)) [
      | inl g ↦ rw (e, g) (ground arith)
      | inr g ↦ let rest = first-insert_by x ys (ground arith) in rw (e, g) rest
    ]
  ]

  pub first-sort_by :
      (xs : List A) → count_if p xs ≤ 1 → first_of_list p (sort_by le xs) ≡ first_of_list p xs
  first-sort_by [] h = refl
  first-sort_by (x ∷ xs) h =
      let same = count_if-sort_by le p xs in
      let found = first-sort_by xs (ground arith) in
      first-insert_by x (sort_by le xs) (ground arith) ∙ ground arith

  count_if-append : (xs ys : List A) → count_if p (xs ++ ys) ≡ count_if p xs + count_if p ys
  count_if-append [] ys = omega arith
  count_if-append (x ∷ xs) ys = ground (arith, count_if-append xs ys)

  count_if-any_of : (xs : List A) → any_of p xs ≡ false → count_if p xs ≡ 0
  count_if-any_of [] h = refl
  count_if-any_of (x ∷ xs) h = ground (arith, count_if-any_of xs)

  first-append_none :
      (xs ys : List A) → any_of p xs ≡ false → first_of_list p (xs ++ ys) ≡ first_of_list p ys
  first-append_none [] ys h = refl
  first-append_none (x ∷ xs) ys h = ground (arith, first-append_none xs ys)

update-other :
    (j id : String) (new : Row) (rows : List Row)
    → str_eq j id ≡ false
    → first_of_list
        (is_node id)
        (update_where (is_node j) (λ r. record new { node_id = r.node_id }) rows)
      ≡ first_of_list (is_node id) rows
update-other j id new [] h = refl
update-other j id new (r ∷ rows) h =
    ground
      (arith, update-other j id new rows h, eq_iff r.node_id j, eq_iff r.node_id id, eq_iff j id)

update-own :
    (j : String) (new : Row) (rows : List Row)
    → new.node_id ≡ j
    → any_of (is_node j) rows ≡ true
    → first_of_list
        (is_node j)
        (update_where (is_node j) (λ r. record new { node_id = r.node_id }) rows)
      ≡ some new
update-own j new [] e h = absurd (ground arith)
update-own j new (r ∷ rows) e h = elim (Bool-cases (str_eq r.node_id j)) [
  | inl g ↦
      let same : r.node_id ≡ new.node_id = (eq_iff r.node_id j).0 g ∙ sym e in
      rw (g, g) (ap (λ x. some (record new { node_id = x })) same)
  | inr g ↦ rw (g, g) (update-own j new rows e (rw g at h))
]

count-update :
    (j id : String) (new : Row) (rows : List Row)
    → count_if
        (is_node id)
        (update_where (is_node j) (λ r. record new { node_id = r.node_id }) rows)
      ≡ count_if (is_node id) rows
count-update j id new [] = refl
count-update j id new (r ∷ rows) = ground (arith, count-update j id new rows)

append-other :
    (id : String) (new : Row) (rows : List Row)
    → str_eq new.node_id id ≡ false
    → first_of_list (is_node id) (rows ++ new ∷ []) ≡ first_of_list (is_node id) rows
append-other id new [] h = rw h refl
append-other id new (r ∷ rows) h = ground (arith, append-other id new rows h)

abbrev pub Unique : List Row → Type 0
Unique rows = (id : String) → count_if (is_node id) rows ≤ 1

pub upsert-first :
    (j id : String) (new : Row) (rows : List Row)
    → new.node_id ≡ j
    → first_of_list
        (is_node id)
        (upsert (is_node j) (λ r. record new { node_id = r.node_id }) new rows)
      ≡ (if str_eq j id then some new else first_of_list (is_node id) rows)
upsert-first j id new rows e = elim (Bool-cases (any_of (is_node j) rows)) [
  | inl a ↦ elim (Bool-cases (str_eq j id)) [
    | inl g ↦ let same = (eq_iff j id).0 g in rw (a, g, ← same) (update-own j new rows e a)
    | inr g ↦ rw (a, g) (update-other j id new rows g)
  ]
  | inr a ↦ elim (Bool-cases (str_eq j id)) [
    | inl g ↦
        let same = (eq_iff j id).0 g in
        rw (a, g, ← same)
          (first-append_none (is_node j) (λ x y. true) rows (new ∷ []) a ∙ rw (e, eq_refl j) refl)
    | inr g ↦ rw (a, g) (append-other id new rows (rw e g))
  ]
]

pub upsert-Unique :
    (j : String) (new : Row) (rows : List Row)
    → new.node_id ≡ j
    → Unique rows
    → Unique (upsert (is_node j) (λ r. record new { node_id = r.node_id }) new rows)
upsert-Unique j new rows e u id = elim (Bool-cases (any_of (is_node j) rows)) [
  | inl a ↦ rw (a, count-update j id new rows) (u id)
  | inr a ↦ elim (Bool-cases (str_eq j id)) [
    | inl g ↦
        let same = (eq_iff j id).0 g in
        let none_yet = count_if-any_of (is_node j) (λ x y. true) rows a in
        rw (a, count_if-append (is_node id) (λ x y. true) rows (new ∷ []), ← same, none_yet)
          (ground arith)
    | inr g ↦
        let other : str_eq new.node_id id ≡ false = ap (λ x. str_eq x id) e ∙ g in
        rw (a, count_if-append (is_node id) (λ x y. true) rows (new ∷ []), other)
          (omega (arith, u id))
  ]
]
