-- ===== src/Sql/Newest.antt =====
-- The row that `SELECT … WHERE … ORDER BY column DESC LIMIT 1` finds.
use axropus_deploy.Prelude.{
  String, ◌≡◌, refl, inl, inr, ◌⊎◌, Bool, true, false, List, [], ◌∷◌, Option, none, some, arith,
  keep_if, All, Bool-cases, sort_by, insert_by, text_le, IsSortedBy, sort_by-IsSortedBy,
  All-sort_by, codes_le_total, codes_le_trans, codes,
}
use axropus_deploy.Sql.{latest_first, first_row}

module _ {R : Type 0} where
  -- `r` is a row of the table.
  abbrev pub Occurs : R → List R → Type 0
  Occurs r [] = ⊥
  Occurs r (x ∷ t) = (x ≡ r) ⊎ Occurs r t

  -- What is found for the filter `p`: a row that passes and that comes before all that pass in the
  -- order `le`, or nothing, if no row passes.
  abbrev pub First : (R → R → Bool) → (R → Bool) → List R → Option R → Type 0
  First le p t none = All (λ k. p k ≡ false) t
  First le p t (some r) = Occurs r t × (p r ≡ true) × All (λ k. p k ≡ true → le r k ≡ true) t

  -- The same for a descending order of a column.
  abbrev pub Found : (R → Bool) → (R → String) → List R → Option R → Type 0
  Found p column = First (λ a b. text_le (column b) (column a)) p

  pub All-map : {P Q : R → Type 0} (t : List R) → ((r : R) → P r → Q r) → All P t → All Q t
  All-map [] f h = tt
  All-map (x ∷ t) f h = (f x h.0, All-map t f h.1)

  All-Occurs : (t : List R) → All (λ r. Occurs r t) t
  All-Occurs [] = tt
  All-Occurs (x ∷ t) = (inl refl, All-map t (λ r h. inr h) (All-Occurs t))

  All-keep_if :
      (P : R → Type 0) (p : R → Bool) (t : List R)
      → All P t
      → All (λ r. P r × (p r ≡ true)) (keep_if p t)
  All-keep_if P p [] h = tt
  All-keep_if P p (x ∷ t) h = elim (Bool-cases (p x)) [
    | inl e ↦ rw e ((h.0, e), All-keep_if P p t h.1)
    | inr e ↦ rw e (All-keep_if P p t h.1)
  ]

  keep_if-All :
      (Q : R → Type 0) (p : R → Bool) (t : List R)
      → All Q (keep_if p t)
      → All (λ r. p r ≡ true → Q r) t
  keep_if-All Q p [] h = tt
  keep_if-All Q p (x ∷ t) h = elim (Bool-cases (p x)) [
    | inl e ↦ ((λ _. (rw e at h).0), keep_if-All Q p t (rw e at h).1)
    | inr e ↦ ((λ k. absurd (ground arith)), keep_if-All Q p t (rw e at h))
  ]

  insert_by-All :
      (le : R → R → Bool) (Q : R → Type 0) (x : R) (t : List R)
      → All Q (insert_by le x t)
      → Q x × All Q t
  insert_by-All le Q x [] h = h
  insert_by-All le Q x (y ∷ t) h = elim (Bool-cases (le x y)) [
    | inl e ↦ rw e at h
    | inr e ↦
        let k = rw e at h in ((insert_by-All le Q x t k.1).0, (k.0, (insert_by-All le Q x t k.1).1))
  ]

  sort_by-All : (le : R → R → Bool) (Q : R → Type 0) (t : List R) → All Q (sort_by le t) → All Q t
  sort_by-All le Q [] h = tt
  sort_by-All le Q (x ∷ t) h =
      let k = insert_by-All le Q x (sort_by le t) h in (k.0, sort_by-All le Q t k.1)

  module _ (le : R → R → Bool) (total : (x y : R) → le x y ≡ false → le y x ≡ true)
      (trans : (x y z : R) → le x y ≡ true → le y z ≡ true → le x z ≡ true) where
    first_row-sorted :
        (p : R → Bool) (t s : List R)
        → All (λ r. Occurs r t × (p r ≡ true)) s
        → IsSortedBy le s
        → ((Q : R → Type 0) → All Q s → All (λ r. p r ≡ true → Q r) t)
        → First le p t (first_row s)
    first_row-sorted p t [] h sorted back =
        All-map t (λ r k. elim (Bool-cases (p r)) [ inl e ↦ absurd (k e) | inr e ↦ e ])
          (back (λ _. ⊥) tt)
    first_row-sorted p t (r ∷ s) h sorted back =
        (h.0.0, h.0.1, back (λ k. le r k ≡ true) (le_self, sorted.0))
      where
        le_self : le r r ≡ true
        le_self = elim (Bool-cases (le r r)) [ inl e ↦ e | inr e ↦ total r r e ]

    -- `SELECT … WHERE … ORDER BY … LIMIT 1` finds a first row of those that pass, and nothing only
    -- if none passes.
    pub first_row-sort_by :
        (p : R → Bool) (t : List R) → First le p t (first_row (sort_by le (keep_if p t)))
    first_row-sort_by p t =
        first_row-sorted p t (sort_by le (keep_if p t))
          (All-sort_by le (λ r. Occurs r t × (p r ≡ true)) (keep_if p t)
            (All-keep_if (λ r. Occurs r t) p t (All-Occurs t)))
          (sort_by-IsSortedBy le total trans (keep_if p t))
          (λ Q h. keep_if-All Q p t (sort_by-All le Q (keep_if p t) h))

  pub first_row-latest_first :
      (p : R → Bool) (column : R → String) (t : List R)
      → Found p column t (first_row (latest_first column (keep_if p t)))
  first_row-latest_first p column t =
      first_row-sort_by (λ a b. text_le (column b) (column a))
        (λ x y e. codes_le_total (codes (column y)) (codes (column x)) e)
        (λ x y z d e. codes_le_trans (codes (column z)) (codes (column y)) (codes (column x)) e d) p
        t
