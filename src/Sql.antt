-- ===== src/Sql.antt =====
-- The SQL statements that the Python code sends to SQLite, on tables as lists of rows in rowid
-- order. Rows that ORDER BY leaves tied come in rowid order.
pub mod Laws
pub mod Newest
pub mod Keyed
use axropus_deploy.Prelude.{
  ℕ, String, Bool, true, false, not, List, [], ◌∷◌, ◌++◌, map, Option, none, some, if◌then◌else◌,
  keep_if, any_of, first_of_list, take, sort_by, text_le,
}

pub data Error : Type 0 where
  integrity_error : Error
  value_error : String → Error

pub data Result {ℓ} (A : Type ℓ) : Type ℓ where
  ok : A → Result A
  raise : Error → Result A

abbrev pub map_ok : {A B : Type 0} → (A → B) → Result A → Result B
map_ok f (ok a) = ok (f a)
map_ok f (raise e) = raise e

module _ {R : Type 0} where
  -- INSERT, refused if a row conflicts with the new one on a unique key
  abbrev pub insert_row : (R → Bool) → R → List R → Result (List R)
  insert_row conflicts row t =
      if any_of conflicts t then raise integrity_error else ok (t ++ row ∷ [])

  -- UPDATE … SET … WHERE
  abbrev pub update_where : (R → Bool) → (R → R) → List R → List R
  update_where p f [] = []
  update_where p f (r ∷ t) = (if p r then f r else r) ∷ update_where p f t

  -- DELETE … WHERE
  abbrev pub delete_where : (R → Bool) → List R → List R
  delete_where p = keep_if (λ r. not (p r))

  -- INSERT … ON CONFLICT DO UPDATE
  abbrev pub upsert : (R → Bool) → (R → R) → R → List R → List R
  upsert conflicts f row t =
      if any_of conflicts t then update_where conflicts f t else t ++ row ∷ []

  -- INSERT OR REPLACE: conflicting rows go, the new row comes last
  abbrev pub replace : (R → Bool) → R → List R → List R
  replace conflicts row t = delete_where conflicts t ++ row ∷ []

  -- SELECT … WHERE … ORDER BY column DESC, for a TEXT column
  abbrev pub latest_first : (R → String) → List R → List R
  latest_first column = sort_by (λ a b. text_le (column b) (column a))

  -- the row of LIMIT 1
  abbrev pub first_row : List R → Option R
  first_row [] = none
  first_row (r ∷ t) = some r
