-- ===== src/Prelude/Separators.antt =====
-- Texts joined by a separator.
use Prim.Native.Char.{Char, code}
use Prim.Native.String.{String, ◌++◌}
use mathlib.Core.Path.{◌≡◌, refl, ap}
use mathlib.Core.Bool.{false}
use native.Mathlib.Omega.{arith}
use text.Mathlib.TextLemmas.{
  nil-append, cons-append, head-eq_of_cons-eq, tail-eq_of_cons-eq, cons-eq-cons,
}
use axropus_deploy.Prelude.Tests.{◌==◌}

-- The separator does not stand in the text.
abbrev pub Without : Char → String → Type 0
Without sep String.[] = Unit
Without sep (String.◌∷◌ c s) = ((code c == code sep) ≡ false) × Without sep s

-- The first separator splits a text in one way.
pub split_first :
    (sep : Char) (s t x y : String)
    → Without sep s
    → Without sep t
    → s ++ String.◌∷◌ sep x ≡ t ++ String.◌∷◌ sep y
    → (s ≡ t) × (x ≡ y)
split_first sep String.[] String.[] x y h k e = (
  refl,
  tail-eq_of_cons-eq (rw (nil-append (String.◌∷◌ sep x), nil-append (String.◌∷◌ sep y)) at e),
)
split_first sep String.[] (String.◌∷◌ d t) x y h k e =
    let same : code sep ≡ code d = ap code (
      head-eq_of_cons-eq
        (rw (nil-append (String.◌∷◌ sep x), cons-append d t (String.◌∷◌ sep y)) at e)) in
    absurd (ground (arith, k.0))
split_first sep (String.◌∷◌ c s) String.[] x y h k e =
    let same : code c ≡ code sep = ap code (
      head-eq_of_cons-eq
        (rw (cons-append c s (String.◌∷◌ sep x), nil-append (String.◌∷◌ sep y)) at e)) in
    absurd (ground (arith, h.0))
split_first sep (String.◌∷◌ c s) (String.◌∷◌ d t) x y h k e =
    let f = rw (cons-append c s (String.◌∷◌ sep x), cons-append d t (String.◌∷◌ sep y)) at e in
    let (p, q) = split_first sep s t x y h.1 k.1 (tail-eq_of_cons-eq f) in
    (cons-eq-cons.1 (head-eq_of_cons-eq f, p), q)
