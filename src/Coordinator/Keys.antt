-- ===== src/Coordinator/Keys.antt =====
-- platform/runtime/amf_coordinator.py: the composite key of a tenant and a prefix.
use Prim.Native.Nat.{ℕ, zero, suc}
use Prim.Native.Char.{Char, code}
use Prim.Native.String.{◌++◌}
use axropus_deploy.Prelude.{
  String, ◌≡◌, refl, inl, inr, arith, ◌==◌, Bool-cases, Bool, true, false, ◌||◌, str_eq,
  if◌then◌else◌,
}
use axropus_deploy.Prelude.Separators.{Without, split_first}

-- `str.strip`, `str.lower` and `str.isalnum` of one character
pub record Texts : Type 0 where
  pub strip : String → String
  pub lower : String → String
  pub is_alnum : Char → Bool

-- A character that a tenant's identifier keeps: `isalnum` or one of `-`, `_`, `.`
abbrev pub is_safe : Texts → Char → Bool
is_safe texts c = texts.is_alnum c || (code c == b'-' || (code c == b'_' || code c == b'.'))

abbrev pub map_safe : Texts → String → String
map_safe texts String.[] = ""
map_safe texts (String.◌∷◌ c s) = String.◌∷◌ (if is_safe texts c then c else "_") (map_safe texts s)

abbrev pub keep_alnum : Texts → String → String
keep_alnum texts String.[] = ""
keep_alnum texts (String.◌∷◌ c s) =
    if texts.is_alnum c then String.◌∷◌ c (keep_alnum texts s) else keep_alnum texts s

-- `s[:n]`
abbrev pub take_text : ℕ → String → String
take_text zero s = ""
take_text (suc n) String.[] = ""
take_text (suc n) (String.◌∷◌ c s) = String.◌∷◌ c (take_text n s)

-- `s or "default"`
abbrev pub or_default : String → String
or_default s = if str_eq s "" then "default" else s

unfoldable pub safe_tenant_id : Texts → String → String
safe_tenant_id texts raw =
    or_default (take_text 128 (map_safe texts (or_default (texts.strip (or_default raw)))))

unfoldable pub safe_hash : Texts → String → String
safe_hash texts raw = take_text 128 (keep_alnum texts (texts.lower (texts.strip raw)))

unfoldable pub composite : Texts → String → String → String
composite texts tenant prefix =
    safe_tenant_id texts tenant ++ String.◌∷◌ ":" (safe_hash texts prefix)

-- No colon stands in the text.
abbrev pub NoColon : String → Type 0
NoColon s = Without ":" s

module _ (texts : Texts)
    (no_alnum_colon : (c : Char) → texts.is_alnum c ≡ true → (code c == b':') ≡ false) where
  safe_char : (c : Char) → is_safe texts c ≡ true → (code c == b':') ≡ false
  safe_char c e = elim (Bool-cases (texts.is_alnum c)) [
    | inl alnum ↦ no_alnum_colon c alnum
    | inr other ↦ ground arith
  ]

  kept_char : (c : Char) → (code (if is_safe texts c then c else "_") == b':') ≡ false
  kept_char c = elim (Bool-cases (is_safe texts c)) [
    | inl e ↦ rw e (safe_char c e)
    | inr e ↦ rw e refl
  ]

  map_safe-NoColon : (s : String) → NoColon (map_safe texts s)
  map_safe-NoColon String.[] = tt
  map_safe-NoColon (String.◌∷◌ c s) = (kept_char c, map_safe-NoColon s)

  take_text-NoColon : (n : ℕ) (s : String) → NoColon s → NoColon (take_text n s)
  take_text-NoColon zero s h = tt
  take_text-NoColon (suc n) String.[] h = tt
  take_text-NoColon (suc n) (String.◌∷◌ c s) h = (h.0, take_text-NoColon n s h.1)

  or_default-NoColon : (s : String) → NoColon s → NoColon (or_default s)
  or_default-NoColon s h = elim (Bool-cases (str_eq s "")) [
    | inl e ↦ rw e (refl, (refl, (refl, (refl, (refl, (refl, (refl, tt)))))))
    | inr e ↦ rw e h
  ]

  safe_tenant_id-NoColon : (raw : String) → NoColon (safe_tenant_id texts raw)
  unfolding safe_tenant_id
  safe_tenant_id-NoColon raw =
      let s = map_safe texts (or_default (texts.strip (or_default raw))) in
      or_default-NoColon (take_text 128 s)
        (take_text-NoColon 128 s (map_safe-NoColon (or_default (texts.strip (or_default raw)))))

-- If a colon is not alphanumeric, two pairs of a tenant and a prefix have the same key only if both
-- parts are the same after the normalisation of each, under which different tenants may be the same.
pub composite_inj :
    (texts : Texts) (tenant other prefix other_prefix : String)
    → ((c : Char) → texts.is_alnum c ≡ true → (code c == b':') ≡ false)
    → composite texts tenant prefix ≡ composite texts other other_prefix
    → (safe_tenant_id texts tenant ≡ safe_tenant_id texts other)
      × (safe_hash texts prefix ≡ safe_hash texts other_prefix)
unfolding composite
composite_inj texts tenant other prefix other_prefix no_alnum_colon same =
    split_first ":" _ _ _ _ (safe_tenant_id-NoColon texts no_alnum_colon tenant)
      (safe_tenant_id-NoColon texts no_alnum_colon other) same
