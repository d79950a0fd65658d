-- ===== src/Dict/Laws.antt =====
-- What a client of a dict relies on.
use axropus_deploy.Prelude.{
  ◌+◌, String, ◌≡◌, refl, inl, inr, none, some, [], ◌∷◌, ◌++◌, arith, str_eq, eq_iff, if◌then◌else◌,
  length, Bool-cases, false,
}
use axropus_deploy.Dict.{Dict, get, pop, put, IsDict}

module _ {ℓ} {V : Type ℓ} where
  pub get-put :
      (j k : String) (v : V) (m : Dict V)
      → get j (put k v m) ≡ (if str_eq k j then some v else get j m)
  unfolding get put
  get-put j k v [] = refl
  get-put j k v ((i, w) ∷ m) = ground (arith, eq_iff k j, eq_iff i k, eq_iff i j, get-put j k v m)

  pub get-pop_ne : (j k : String) (m : Dict V) → str_eq k j ≡ false → get j (pop k m) ≡ get j m
  unfolding get pop
  get-pop_ne j k [] h = refl
  get-pop_ne j k ((i, w) ∷ m) h =
      ground (arith, eq_iff k j, eq_iff i k, eq_iff i j, get-pop_ne j k m h)

  pub get-pop_self : (k : String) (m : Dict V) → IsDict m → get k (pop k m) ≡ none
  unfolding get pop
  get-pop_self k [] h = refl
  get-pop_self k ((i, w) ∷ m) (first, rest) = elim (Bool-cases (str_eq i k)) [
    | inl e ↦ let same : i ≡ k = (eq_iff i k).0 e in rw e (rw same at first)
    | inr e ↦ rw e (rw e (get-pop_self k m rest))
  ]

  -- What is absent stays absent when another key is taken out.
  pub get-pop_absent : (j k : String) (m : Dict V) → get j m ≡ none → get j (pop k m) ≡ none
  unfolding get pop
  get-pop_absent j k [] h = refl
  get-pop_absent j k ((i, w) ∷ m) h = ground (arith, eq_iff i k, eq_iff i j, get-pop_absent j k m)

  pub pop-IsDict : (k : String) (m : Dict V) → IsDict m → IsDict (pop k m)
  unfolding pop
  pop-IsDict k [] h = tt
  pop-IsDict k ((i, w) ∷ m) (first, rest) = elim (Bool-cases (str_eq i k)) [
    | inl e ↦ rw e rest
    | inr e ↦ rw e (get-pop_absent i k m first, pop-IsDict k m rest)
  ]

  pub put-IsDict : (k : String) (v : V) (m : Dict V) → IsDict m → IsDict (put k v m)
  unfolding put get
  put-IsDict k v [] h = (refl, tt)
  put-IsDict k v ((i, w) ∷ m) (first, rest) = elim (Bool-cases (str_eq i k)) [
    | inl e ↦ rw e (first, rest)
    | inr e ↦ rw e (ground (arith, get-put i k v m, eq_iff i k, eq_iff k i), put-IsDict k v m rest)
  ]

  pub put_fresh : (k : String) (v : V) (m : Dict V) → get k m ≡ none → put k v m ≡ m ++ (k, v) ∷ []
  unfolding put get
  put_fresh k v [] h = refl
  put_fresh k v ((i, w) ∷ m) h = ground (arith, put_fresh k v m)

  pub length-pop :
      (k : String) (v : V) (m : Dict V) → get k m ≡ some v → length (pop k m) + 1 ≡ length m
  unfolding get pop
  length-pop k v [] h = absurd (ground arith)
  length-pop k v ((i, w) ∷ m) h = ground (arith, length-pop k v m)
