-- ===== src/Prelude/Sets.antt =====
-- Sets of texts as lists.
use Prim.Native.String.{String}
use mathlib.Core.Path.{◌≡◌, refl, ◌∙◌}
use mathlib.Core.Logic.{inl, inr}
use mathlib.Core.Bool.{Bool, ◌||◌}
use mathlib.Core.List.{List, [], ◌∷◌, ◌++◌}
use native.Mathlib.Omega.{arith}
use text.Mathlib.TextEquality.{eq_iff}
use axropus_deploy.Prelude.Tests.{if◌then◌else◌, Bool-cases}
use axropus_deploy.Prelude.Lists.{any_of}
use axropus_deploy.Prelude.Texts.{str_eq}

abbrev pub has : String → List String → Bool
has k keys = any_of (λ j. str_eq j k) keys

-- `keys.add(k)`
abbrev pub add_key : String → List String → List String
add_key k keys = if has k keys then keys else keys ++ k ∷ []

has-append : (k : String) (t u : List String) → has k (t ++ u) ≡ has k t || has k u
has-append k [] u = refl
has-append k (x ∷ t) u = ground (arith, has-append k t u)

pub has-add_key :
    (k j : String) (keys : List String) → has k (add_key j keys) ≡ str_eq j k || has k keys
has-add_key k j keys = elim (Bool-cases (has j keys)) [
  | inl old ↦ elim (Bool-cases (str_eq j k)) [
    | inl same ↦ rw (old, same) (rw ((eq_iff j k).0 same) at old)
    | inr other ↦ rw (old, other) refl
  ]
  | inr new ↦ rw new (has-append k keys (j ∷ []) ∙ ground arith)
]
