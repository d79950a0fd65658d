-- ===== src/KvManager/Names.antt =====
-- korith_vllm_ext/amf_kv_manager.py: the names of the files tell the keys apart.
use Prim.Native.Char.{Char, code}
use text.Mathlib.TextLemmas.{append_cancel_right}
use axropus_deploy.Prelude.{
  ℕ, zero, suc, ◌+◌, ◌-◌, ◌*◌, ◌/◌, ◌%◌, ◌≤◌, ◌<◌, ◌≡◌, refl, sym, ap, ◌∙◌, String, Bool, true,
  false, ◌&&◌, not, if◌then◌else◌, ltb, leb, ◌==◌, arith, inl, inr, Bool-cases,
}
use axropus_deploy.Prelude.Separators.{Without, split_first}
use axropus_deploy.KvManager.Keys.{
  digit, digits, pad, decimal, hex16, count_chars, AmfKey, joined_by_underscore, amf_key_filename,
  kv_filename,
}

abbrev digit_value : Char → ℕ
digit_value c = if leb (code c) 57 then code c - 48 else code c - 87

-- Whether all numbers below n pass
abbrev all_below : ℕ → (ℕ → Bool) → Bool
all_below zero p = true
all_below (suc n) p = if p n then all_below n p else false

all_below-lt : (n : ℕ) (p : ℕ → Bool) (i : ℕ) → all_below n p ≡ true → i < n → p i ≡ true
all_below-lt zero p i h k = absurd (omega arith)
all_below-lt (suc n) p i h k = elim (Bool-cases (i == n)) [
  | inl e ↦ let same : i ≡ n = ground arith in ap p same ∙ ground arith
  | inr e ↦ all_below-lt n p i (ground arith) (ground arith)
]

digit_lem : (n : ℕ) → n < 16 → (digit_value (digit n) ≡ n) × ((code (digit n) == code "_") ≡ false)
digit_lem n h =
    let e =
      all_below-lt 16 (λ i. (digit_value (digit i) == i) && not (code (digit i) == code "_")) n refl
        h in
    (ground arith, ground arith)

le_times : (q m n : ℕ) → m ≤ n → q * m ≤ q * n
le_times q m n h = grind arith

-- The number that the digits of a text continue
abbrev value : ℕ → ℕ → String → ℕ
value base a String.[] = a
value base a (String.◌∷◌ c s) = value base (a * base + digit_value c) s

module _ (base : ℕ) (two : 2 ≤ base) (few : base ≤ 16) where
  value-digits :
      (fuel n : ℕ) (s : String) → n < fuel → value base 0 (digits base fuel n s) ≡ value base n s
  value-digits zero n s h = absurd (omega arith)
  value-digits (suc fuel) n s h = elim (Bool-cases (ltb n base)) [
    | inl e ↦
        let d : digit_value (digit n) ≡ n = (digit_lem n (ground arith)).0 in
        let same : 0 * base + digit_value (digit n) ≡ n = ground arith in
        rw e (ap (λ x. value base x s) same)
    | inr e ↦
        let d : digit_value (digit (n % base)) ≡ n % base =
          (digit_lem (n % base) (grind arith)).0 in
        let parts : n / base * base + n % base ≡ n = grind arith in
        let twice : n / base * 2 ≤ n / base * base = le_times (n / base) 2 base two in
        let less : n / base < n = ground arith in
        let same : n / base * base + digit_value (digit (n % base)) ≡ n = rw d parts in
        rw e (
          value-digits fuel (n / base) (String.◌∷◌ (digit (n % base)) s) (omega arith)
          ∙ ap (λ x. value base x s) same)
  ]

  digits-Without : (fuel n : ℕ) (s : String) → Without "_" s → Without "_" (digits base fuel n s)
  digits-Without zero n s h = h
  digits-Without (suc fuel) n s h = elim (Bool-cases (ltb n base)) [
    | inl e ↦ rw e ((digit_lem n (ground arith)).1, h)
    | inr e ↦
        let least : n % base < 16 = grind arith in
        rw e (digits-Without fuel (n / base) _ ((digit_lem (n % base) least).1, h))
  ]

value-pad : (n : ℕ) (s : String) → value 16 0 (pad n s) ≡ value 16 0 s
value-pad zero s = refl
value-pad (suc n) s = value-pad n s

pad-Without : (n : ℕ) (s : String) → Without "_" s → Without "_" (pad n s)
pad-Without zero s h = h
pad-Without (suc n) s h = (refl, pad-Without n s h)

value-decimal : (n : ℕ) → value 10 0 (decimal n) ≡ n
unfolding decimal
value-decimal n = value-digits 10 (omega arith) (omega arith) (suc n) n "" (omega arith)

value-hex16 : (n : ℕ) → value 16 0 (hex16 n) ≡ n
unfolding hex16
value-hex16 n =
    value-pad (16 - count_chars (digits 16 (suc n) n "")) (digits 16 (suc n) n "")
    ∙ value-digits 16 (omega arith) (omega arith) (suc n) n "" (omega arith)

decimal-Without : (n : ℕ) → Without "_" (decimal n)
unfolding decimal
decimal-Without n = digits-Without 10 (omega arith) (omega arith) (suc n) n "" tt

hex16-Without : (n : ℕ) → Without "_" (hex16 n)
unfolding hex16
hex16-Without n =
    pad-Without (16 - count_chars (digits 16 (suc n) n "")) (digits 16 (suc n) n "")
      (digits-Without 16 (omega arith) (omega arith) (suc n) n "" tt)

-- A number in front of an underscore, and what follows it
split_decimal :
    (m n : ℕ) (s t : String)
    → joined_by_underscore (decimal m) s ≡ joined_by_underscore (decimal n) t
    → (m ≡ n) × (s ≡ t)
split_decimal m n s t e =
    let (p, q) =
      split_first "_" (decimal m) (decimal n) s t (decimal-Without m) (decimal-Without n) e in
    (sym (value-decimal m) ∙ (ap (value 10 0) p ∙ value-decimal n), q)

split_hex16 :
    (m n : ℕ) (s t : String)
    → joined_by_underscore (hex16 m) s ≡ joined_by_underscore (hex16 n) t
    → (m ≡ n) × (s ≡ t)
split_hex16 m n s t e =
    let (p, q) = split_first "_" (hex16 m) (hex16 n) s t (hex16-Without m) (hex16-Without n) e in
    (sym (value-hex16 m) ∙ (ap (value 16 0) p ∙ value-hex16 n), q)

-- Two keys have the same `.kv` file only if they are the same in all nine fields.
pub kv_filename_inj : (k l : AmfKey) → kv_filename k ≡ kv_filename l → k ≡ l
unfolding amf_key_filename
kv_filename_inj k l e =
    let named : amf_key_filename k ≡ amf_key_filename l = append_cancel_right _ _ ".kv" e in
    let (_, e1) =
      split_first "_" "amf" "amf" _ _ (refl, (refl, (refl, tt))) (refl, (refl, (refl, tt))) named in
    let (model, e2) = split_hex16 _ _ _ _ e1 in
    let (tenant, e3) = split_hex16 _ _ _ _ e2 in
    let (prefix, e4) = split_hex16 _ _ _ _ e3 in
    let (ctx, e5) = split_decimal _ _ _ _ e4 in
    let (version, e6) = split_decimal _ _ _ _ e5 in
    let (base, e7) = split_decimal _ _ _ _ e6 in
    let (scale, e8) = split_decimal _ _ _ _ e7 in
    let (sampling, e9) = split_hex16 _ _ _ _ e8 in
    let rng : k.rng_hash ≡ l.rng_hash =
      sym (value-hex16 k.rng_hash) ∙ (ap (value 16 0) e9 ∙ value-hex16 l.rng_hash) in
    cc
