-- ===== src/Pool/Victim.antt =====
-- korith_vllm_ext/compressed_vram_pool.py: which entry `_evict_one` takes out.
use axropus_deploy.Prelude.{
  ℕ, String, ◌≡◌, refl, inl, inr, true, false, [], ◌∷◌, Option, none, some, arith, str_eq, eq_iff,
  ◌⊎◌, All, Bool-cases, Option-cases,
}
use axropus_deploy.Dict.{Dict, get, pop, IsDict}
use axropus_deploy.Pool.{
  PoolEntry, Pool, Floats, Weights, release_entry, reuse_score, worst_of, evict_key, evict_one,
}

-- The order of floats without NaN.
pub record FloatOrder {F : Type 0} (fl : Floats F) : Type 0 where
  pub irreflexive : (a : F) → fl.greater a a ≡ false
  pub raises : (a b d : F) → fl.greater a b ≡ false → fl.greater d b ≡ true → fl.greater a d ≡ false

module _ {C F : Type 0} (fl : Floats F) (order : FloatOrder fl) (w : Weights F)
    (scan : String → ℕ) where
  -- The score of the entry `e` of the key `k`, at its own reading of the clock
  abbrev score : String → PoolEntry C F → F
  score k e = reuse_score fl w (scan k) e

  -- No entry of the list scores above `s`.
  abbrev NoneAbove : F → Dict (PoolEntry C F) → Type 0
  NoneAbove s = All (λ x. fl.greater (score x.0 x.1) s ≡ false)

  NoneAbove-get :
      (s : F) (m : Dict (PoolEntry C F)) (j : String) (e : PoolEntry C F)
      → NoneAbove s m
      → get j m ≡ some e
      → fl.greater (score j e) s ≡ false
  unfolding get
  NoneAbove-get s [] j e h g = absurd (ground arith)
  NoneAbove-get s ((i, d) ∷ m) j e h g = elim (Bool-cases (str_eq i j)) [
    | inl same ↦
        let is_e : d ≡ e = ground arith in
        let is_j : i ≡ j = (eq_iff i j).0 same in rw (← is_e, ← is_j) h.0
    | inr other ↦ NoneAbove-get s m j e h.1 (rw other at g)
  ]

  NoneAbove-same : (s t : F) (m : Dict (PoolEntry C F)) → s ≡ t → NoneAbove s m → NoneAbove t m
  NoneAbove-same s t m e h = rw (← e) h

  -- The loop's result: the key it began with, or the key of an entry that beats all.
  abbrev Chosen : Option String → F → Dict (PoolEntry C F) → String → Type 0
  Chosen o best m k =
      ((o ≡ some k) × NoneAbove best m)
      ⊎ ((v : PoolEntry C F) × (get k m ≡ some v)
          × (fl.greater (score k v) best ≡ true)
          × NoneAbove (score k v) m)

  worst_of-Chosen :
      (o : Option String) (best : F) (m : Dict (PoolEntry C F)) (k : String)
      → IsDict m
      → worst_of fl w scan o best m ≡ some k
      → Chosen o best m k
  unfolding worst_of get
  worst_of-Chosen o best [] k d h = inl (h, tt)
  worst_of-Chosen o best ((j, e) ∷ m) k (fresh, d) h =
      elim (Bool-cases (fl.greater (score j e) best)) [
        | inl above ↦ elim (worst_of-Chosen (some j) (score j e) m k d (rw above at h)) [
          | inl (mine, rest) ↦
              let same : k ≡ j = ground arith in
              inr (
                e,
                ground (arith, eq_iff j k),
                rw same above,
                (
                  rw same (order.irreflexive (score j e)),
                  NoneAbove-same (score j e) (score k e) m (rw same) rest,
                ),
              )
          | inr (v, g, beats, rest) ↦ inr (
            v,
            ground (arith, eq_iff j k),
            ground (arith, order.raises (score k v) best (score j e)),
            (
              order.raises (score j e) (score j e) (score k v) (order.irreflexive (score j e))
                  beats,
              rest,
            ),
          )
        ]
        | inr below ↦ elim (worst_of-Chosen o best m k d (rw below at h)) [
          | inl (mine, rest) ↦ inl (mine, (below, rest))
          | inr (v, g, beats, rest) ↦ inr (
            v,
            ground (arith, eq_iff j k),
            beats,
            (order.raises (score j e) best (score k v) below beats, rest),
          )
        ]
      ]

-- What an eviction took out: an entry that no entry of the index outscores.
pub record Victim {C F : Type 0} (fl : Floats F) (scan : String → ℕ) (p q : Pool C F) : Type 0 where
  pub key : String
  pub entry : PoolEntry C F
  pub was_there : get key p.index ≡ some entry
  pub taken_out : q.index ≡ pop key p.index
  pub highest :
      (j : String) (e : PoolEntry C F)
      → get j p.index ≡ some e
      → fl.greater (reuse_score fl p.weights (scan j) e) (reuse_score fl p.weights (scan key) entry)
        ≡ false

module _ {C F : Type 0} (fl : Floats F) (order : FloatOrder fl) where
  -- If scores are ordered as floats without NaN are and no key stands twice in the index, an eviction
  -- that returns True took one entry out of the index, and no entry had a higher score, each at the reading
  -- of the clock that the scan made for it.
  pub evict_one-Victim :
      (scan : String → ℕ) (p : Pool C F)
      → IsDict p.index
      → (evict_one fl scan p).0 ≡ true
      → Victim fl scan p (evict_one fl scan p).1
  unfolding evict_one evict_key release_entry
  evict_one-Victim scan p d h =
      elim (Option-cases (worst_of fl p.weights scan none fl.minus_inf p.index)) [
        | inl nothing ↦ absurd (cc (rw (nothing, evict_key) at h))
        | inr (k, chosen) ↦
            elim (worst_of-Chosen fl order p.weights scan none fl.minus_inf p.index k d chosen) [
              | inl (impossible, rest) ↦ absurd (ground arith)
              | inr (v, g, beats, rest) ↦
                  rw (chosen, g, evict_key)
                    (record {
                      key = k;
                      entry = v;
                      was_there = g;
                      taken_out = refl;
                      highest = λ j e.
                          NoneAbove-get fl order p.weights scan
                            (reuse_score fl p.weights (scan k) v) p.index j e rest;
                    })
            ]
      ]
