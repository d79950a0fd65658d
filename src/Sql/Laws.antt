-- ===== src/Sql/Laws.antt =====
-- What the statements do to a row that is looked up.
use axropus_deploy.Prelude.{
  ◌≡◌, refl, inl, inr, Bool, true, false, List, [], ◌∷◌, ◌++◌, none, some, arith, if◌then◌else◌,
  any_of, first_of_list, Bool-cases,
}
use axropus_deploy.Sql.{update_where}

module _ {R : Type 0} where
  -- A new row does not change what was found before it.
  pub first_of_list-append :
      (p : R → Bool) (t u : List R) (r : R)
      → first_of_list p t ≡ some r
      → first_of_list p (t ++ u) ≡ some r
  first_of_list-append p [] u r h = absurd (ground arith)
  first_of_list-append p (x ∷ t) u r h = ground (arith, first_of_list-append p t u r)

  pub first_of_list-append_none :
      (p : R → Bool) (t u : List R)
      → first_of_list p t ≡ none
      → first_of_list p (t ++ u) ≡ first_of_list p u
  first_of_list-append_none p [] u h = refl
  first_of_list-append_none p (x ∷ t) u h = ground (arith, first_of_list-append_none p t u)

  pub first_of_list-any_of :
      (p : R → Bool) (t : List R) → any_of p t ≡ false → first_of_list p t ≡ none
  first_of_list-any_of p [] h = refl
  first_of_list-any_of p (x ∷ t) h = ground (arith, first_of_list-any_of p t)

  -- An update that keeps the key maps the row that is found.
  pub first_of_list-update_where :
      (p q : R → Bool) (f : R → R) (t : List R) (r : R)
      → ((x : R) → q (f x) ≡ q x)
      → first_of_list q t ≡ some r
      → first_of_list q (update_where p f t) ≡ some (if p r then f r else r)
  first_of_list-update_where p q f [] r keeps h = absurd (ground arith)
  first_of_list-update_where p q f (x ∷ t) r keeps h =
      ground (arith, keeps x, first_of_list-update_where p q f t r keeps)

  pub first_of_list-holds :
      (p : R → Bool) (t : List R) (r : R) → first_of_list p t ≡ some r → p r ≡ true
  first_of_list-holds p [] r h = absurd (ground arith)
  first_of_list-holds p (x ∷ t) r h = elim (Bool-cases (p x)) [
    | inl e ↦ ground arith
    | inr e ↦ first_of_list-holds p t r (rw e at h)
  ]
