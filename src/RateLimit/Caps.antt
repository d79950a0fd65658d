-- ===== src/RateLimit/Caps.antt =====
-- platform/gateway/rate_limit.py: what is admitted in a window, against the caps.
use axropus_deploy.Prelude.{
  ℕ, ◌+◌, ◌≤◌, max, String, ◌≡◌, refl, ap, inl, inr, ◌∙◌, Bool, true, false, ◌&&◌, List, [], ◌∷◌,
  ◌++◌, arith, str_eq, ltb, ◌==◌, eq_iff, eq_refl, if◌then◌else◌, Bool-cases, first_of_list, any_of,
  All,
}
use axropus_deploy.Sql.{delete_where, update_where}
use axropus_deploy.Sql.Laws.{first_of_list-append_none, first_of_list-any_of}
use axropus_deploy.RateLimit.{
  Window, RateLimitDecision, Consume, window_of, counts, expired, requests_of, tokens_of, decide,
  store_counts, check_and_consume,
}

-- What the table counts for an organisation and a window: requests and tokens.
abbrev pub counted : String → ℕ → List Window → ℕ × ℕ
counted org w t = let row = first_of_list (counts org w) t in (requests_of row, tokens_of row)

-- A purge at a window that is not more than two minutes later keeps the row.
purge_keeps :
    (org : String) (w v : ℕ) (t : List Window)
    → v ≤ w + 120
    → first_of_list (counts org w) (delete_where (expired v) t) ≡ first_of_list (counts org w) t
purge_keeps org w v [] near = refl
purge_keeps org w v (r ∷ t) near = ground (arith, purge_keeps org w v t near)

-- What is counted for (org, w) after the counts of (o, v) were stored.
counts_stored :
    (org : String) (w req tok : ℕ) (t : List Window)
    → any_of (counts org w) t ≡ true
    → counted org w
        (update_where (counts org w) (λ r. record r { request_count = req; token_count = tok }) t)
      ≡ (req, tok)
counts_stored org w req tok [] there = absurd (ground arith)
counts_stored org w req tok (r ∷ t) there = elim (Bool-cases (counts org w r)) [
  | inl e ↦ rw (e, e) refl
  | inr e ↦ rw (e, e) (counts_stored org w req tok t (rw e at there))
]

stored_own :
    (org : String) (w req tok : ℕ) (t : List Window)
    → counted org w (store_counts org w req tok t) ≡ (req, tok)
stored_own org w req tok t = elim (Bool-cases (any_of (counts org w) t)) [
  | inl e ↦ rw e (counts_stored org w req tok t e)
  | inr e ↦ rw e (
      ap (λ o. (requests_of o, tokens_of o))
        (first_of_list-append_none (counts org w) t _ (first_of_list-any_of (counts org w) t e))
      ∙ rw (eq_refl org, ==_self w) refl)
]
  where
    ==_self : (n : ℕ) → (n == n) ≡ true
    ==_self n = ground arith

update_other :
    (org o : String) (w v req tok : ℕ) (t : List Window)
    → (str_eq o org && (v == w)) ≡ false
    → first_of_list
        (counts org w)
        (update_where (counts o v) (λ r. record r { request_count = req; token_count = tok }) t)
      ≡ first_of_list (counts org w) t
update_other org o w v req tok [] d = refl
update_other org o w v req tok (r ∷ t) d = ground (
  arith,
  eq_iff r.org_id o,
  eq_iff r.org_id org,
  eq_iff o org,
  update_other org o w v req tok t d,
)

append_other :
    (p : Window → Bool) (t : List Window) (r : Window)
    → p r ≡ false
    → first_of_list p (t ++ r ∷ []) ≡ first_of_list p t
append_other p [] r d = rw d refl
append_other p (x ∷ t) r d = ground (arith, append_other p t r d)

stored_other :
    (org o : String) (w v req tok : ℕ) (t : List Window)
    → (str_eq o org && (v == w)) ≡ false
    → first_of_list (counts org w) (store_counts o v req tok t) ≡ first_of_list (counts org w) t
stored_other org o w v req tok t d = elim (Bool-cases (any_of (counts o v) t)) [
  | inl e ↦ rw e (update_other org o w v req tok t d)
  | inr e ↦ rw e (append_other (counts org w) t _ d)
]

-- The requests and tokens that a decision admits for an organisation in a window.
abbrev pub admits : String → ℕ → Consume → RateLimitDecision → ℕ × ℕ
admits org w c d =
    if d.allowed && (str_eq c.org_id org && (d.window_epoch == w))
    then (c.request_inc, c.token_inc)
    else (0, 0)

abbrev Counted : String → ℕ → ℕ → ℕ → Consume → ℕ × ℕ → RateLimitDecision × List Window → Type 0
Counted org w cr ct c before (d, t) =
    (counted org w t ≡ (before.0 + (admits org w c d).0, before.1 + (admits org w c d).1))
    × (before.0 ≤ cr → (counted org w t).0 ≤ cr)
    × (before.1 ≤ ct → (counted org w t).1 ≤ ct)

pair_eq : (a b c d : ℕ) → a ≡ c → b ≡ d → ◌≡◌ {A = ℕ × ℕ} (a, b) (c, d)
pair_eq a b c d p q = ap (λ x. (x, b)) p ∙ ap (λ y. (c, y)) q

zeros : (a b : ℕ) → ◌≡◌ {A = ℕ × ℕ} (a, b) (a + 0, b + 0)
zeros a b = pair_eq a b (a + 0) (b + 0) (omega arith) (omega arith)

both_true : (a b : Bool) → a && b ≡ true → (a ≡ true) × (b ≡ true)
both_true true b e = (refl, e)
both_true false b e = absurd (ground arith)

Counted_own :
    (org : String) (w cr ct rpm tpm : ℕ) (c : Consume) (t : List Window)
    → rpm ≤ cr
    → tpm ≤ ct
    → ltb rpm ((counted org w t).0 + c.request_inc) ≡ false
    → ltb tpm ((counted org w t).1 + c.token_inc) ≡ false
    → (after : List Window)
    → counted org w after ≡ ((counted org w t).0 + c.request_inc, (counted org w t).1 + c.token_inc)
    → ((counted org w after).0 ≤ cr) × ((counted org w after).1 ≤ ct)
Counted_own org w cr ct rpm tpm c t lr lt e f after k =
    let k0 : (counted org w after).0 ≡ (counted org w t).0 + c.request_inc = ap (λ x. x.0) k in
    let k1 : (counted org w after).1 ≡ (counted org w t).1 + c.token_inc = ap (λ x. x.1) k in
    (ground arith, ground arith)

decide-Counted :
    (org : String) (w cr ct : ℕ) (c : Consume) (v rpm tpm : ℕ) (t : List Window)
    → (str_eq c.org_id org ≡ true → (rpm ≤ cr) × (tpm ≤ ct))
    → Counted org w cr ct c
        (counted org w t)
        (decide c v rpm tpm (counted c.org_id v t).0 (counted c.org_id v t).1 t)
unfolding decide
decide-Counted org w cr ct c v rpm tpm t caps =
    let req = (counted c.org_id v t).0 in
    let tok = (counted c.org_id v t).1 in
    elim (Bool-cases (ltb rpm (req + c.request_inc))) [
      | inl e ↦ rw (e, decide) (zeros (counted org w t).0 (counted org w t).1, (λ h. h), (λ h. h))
      | inr e ↦ elim (Bool-cases (ltb tpm (tok + c.token_inc))) [
        | inl f ↦
            rw (e, f, decide) (zeros (counted org w t).0 (counted org w t).1, (λ h. h), (λ h. h))
        | inr f ↦ elim (Bool-cases (str_eq c.org_id org && (v == w))) [
          | inl own ↦
              let (same, at_w) = both_true (str_eq c.org_id org) (v == w) own in
              let p : c.org_id ≡ org = (eq_iff c.org_id org).0 same in
              let q : v ≡ w = ground arith in
              let (lr, lt) = caps same in
              let k =
                stored_own org w ((counted org w t).0 + c.request_inc)
                  ((counted org w t).1 + c.token_inc) t in
              let (br, bt) =
                Counted_own org w cr ct rpm tpm c t lr lt (rw (p, q) at e) (rw (p, q) at f) _ k in
              rw (e, f, own, decide) (rw (p, q) (k, (λ _. br), (λ _. bt)))
          | inr other ↦
              let k =
                stored_other org c.org_id w v (req + c.request_inc) (tok + c.token_inc) t other in
              rw (e, f, other, decide)
                (rw k (zeros (counted org w t).0 (counted org w t).1, (λ h. h), (λ h. h)))
        ]
      ]
    ]

-- The call comes in time, and an organisation of that name has no higher caps.
abbrev pub Applies : (ℕ → ℕ) → String → ℕ → ℕ → ℕ → ℕ × Consume → Type 0
Applies scale org w cr ct (now, c) =
    (window_of now ≤ w + 120)
    × (str_eq c.org_id org ≡ true
        → (max 1 (scale c.rpm_limit) ≤ cr) × (max 1 (scale c.tpm_limit) ≤ ct))

check-Counted :
    (scale : ℕ → ℕ) (org : String) (w cr ct now : ℕ) (c : Consume) (t : List Window)
    → Applies scale org w cr ct (now, c)
    → Counted org w cr ct c (counted org w t) (check_and_consume scale now c t)
unfolding check_and_consume
check-Counted scale org w cr ct now c t (near, caps) =
    let v = window_of now in
    let purged = purge_keeps org w v t near in
    rw (← purged) (
      decide-Counted org w cr ct c v (max 1 (scale c.rpm_limit)) (max 1 (scale c.tpm_limit))
        (delete_where (expired v) t) caps)

-- What a list of calls admits for an organisation in a window: requests and tokens.
unfoldable pub admitted : (ℕ → ℕ) → String → ℕ → List (ℕ × Consume) → List Window → ℕ × ℕ
admitted scale org w [] t = (0, 0)
admitted scale org w ((now, c) ∷ calls) t =
    let r = check_and_consume scale now c t in
    let rest = admitted scale org w calls r.1 in
    ((admits org w c r.0).0 + rest.0, (admits org w c r.0).1 + rest.1)

admitted_from :
    (scale : ℕ → ℕ) (org : String) (w cr ct : ℕ) (calls : List (ℕ × Consume)) (t : List Window)
    → All (Applies scale org w cr ct) calls
    → (counted org w t).0 ≤ cr
    → (counted org w t).1 ≤ ct
    → ((counted org w t).0 + (admitted scale org w calls t).0 ≤ cr)
      × ((counted org w t).1 + (admitted scale org w calls t).1 ≤ ct)
unfolding admitted
admitted_from scale org w cr ct [] t within hr ht = (omega arith, omega arith)
admitted_from scale org w cr ct ((now, c) ∷ calls) t (here, within) hr ht =
    let r = check_and_consume scale now c t in
    let (k, fr, ft) = check-Counted scale org w cr ct now c t here in
    let (ir, it) = admitted_from scale org w cr ct calls r.1 within (fr hr) (ft ht) in
    let k0 : (counted org w r.1).0 ≡ (counted org w t).0 + (admits org w c r.0).0 =
      ap (λ x. x.0) k in
    let k1 : (counted org w r.1).1 ≡ (counted org w t).1 + (admits org w c r.0).1 =
      ap (λ x. x.1) k in
    (omega (arith, k0, ir), omega (arith, k1, it))

-- Of any calls by any organisations, from an empty table, those that are admitted to an organisation
-- in one window ask for no more requests and tokens together than its caps, if no call comes in a
-- window more than two minutes after it.
pub admitted_within_caps :
    (scale : ℕ → ℕ) (org : String) (w cr ct : ℕ) (calls : List (ℕ × Consume))
    → All (Applies scale org w cr ct) calls
    → ((admitted scale org w calls []).0 ≤ cr) × ((admitted scale org w calls []).1 ≤ ct)
admitted_within_caps scale org w cr ct calls within =
    let (a, b) = admitted_from scale org w cr ct calls [] within (omega arith) (omega arith) in
    (omega (arith, a), omega (arith, b))
