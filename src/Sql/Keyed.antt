-- ===== src/Sql/Keyed.antt =====
-- A table that is written by INSERT OR REPLACE and read by its whole primary key. A row is the key and
-- the other columns.
use axropus_deploy.Prelude.{
  ◌≡◌, refl, sym, ap, ◌∙◌, Bool, true, false, List, [], ◌∷◌, Option, none, some, if◌then◌else◌,
  arith, inl, inr, Bool-cases, first_of_list,
}
use axropus_deploy.Sql.{replace}

-- A test of keys for equality
pub record KeyTest (K : Type 0) : Type 0 where
  pub same : K → K → Bool
  pub sound : (a b : K) → same a b ≡ true → a ≡ b
  pub reflexive : (a : K) → same a a ≡ true

abbrev pub value_of : {K V : Type 0} → Option (K × V) → Option V
value_of none = none
value_of (some (k, v)) = some v

other_key :
    {K : Type 0} (t : KeyTest K) (a j k : K)
    → t.same a j ≡ true
    → t.same j k ≡ false
    → t.same a k ≡ false
other_key t a j k h n = elim (Bool-cases (t.same a k)) [
  | inr e ↦ e
  | inl e ↦
      let aj = t.sound a j h in
      let ak = t.sound a k e in
      let jk : t.same j k ≡ true = ap (λ x. t.same x k) (sym aj) ∙ e in absurd (ground arith)
]

module _ {K V : Type 0} (t : KeyTest K) where
  unfoldable pub find : K → List (K × V) → Option V
  find k rows = value_of (first_of_list (λ r. t.same r.0 k) rows)

  unfoldable pub set_row : K → V → List (K × V) → List (K × V)
  set_row k v rows = replace (λ r. t.same r.0 k) (k, v) rows

  find-replaced :
      (k j : K) (v : V) (rows : List (K × V))
      → t.same j k ≡ true
      → value_of (first_of_list (λ r. t.same r.0 k) (replace (λ r. t.same r.0 j) (j, v) rows))
        ≡ some v
  find-replaced k j v [] h = rw h refl
  find-replaced k j v (r ∷ rows) h = elim (Bool-cases (t.same r.0 j)) [
    | inl e ↦ rw e (find-replaced k j v rows h)
    | inr e ↦ let same : j ≡ k = t.sound j k h in rw (e, ← same, e) (find-replaced k j v rows h)
  ]

  find-kept :
      (k j : K) (v : V) (rows : List (K × V))
      → t.same j k ≡ false
      → value_of (first_of_list (λ r. t.same r.0 k) (replace (λ r. t.same r.0 j) (j, v) rows))
        ≡ value_of (first_of_list (λ r. t.same r.0 k) rows)
  find-kept k j v [] h = rw h refl
  find-kept k j v (r ∷ rows) h = elim (Bool-cases (t.same r.0 j)) [
    | inl e ↦ let n = other_key t r.0 j k e h in rw (e, n) (find-kept k j v rows h)
    | inr e ↦ elim (Bool-cases (t.same r.0 k)) [
      | inl g ↦ rw (e, g) refl
      | inr g ↦ rw (e, g) (find-kept k j v rows h)
    ]
  ]

  -- A write changes the value of its own key only.
  pub find-set_row :
      (k j : K) (v : V) (rows : List (K × V))
      → find k (set_row j v rows) ≡ (if t.same j k then some v else find k rows)
  unfolding find set_row
  find-set_row k j v rows = elim (Bool-cases (t.same j k)) [
    | inl e ↦ rw e (find-replaced k j v rows e)
    | inr e ↦ rw e (find-kept k j v rows e)
  ]
