-- ===== src/Router/Tallies.antt =====
-- korith_vllm_ext/tiered_router.py: the counters under a single hit and a single miss.
use axropus_deploy.Prelude.{ℕ, suc, ◌+◌, ◌≡◌, refl, String, Bool, true, false, arith, has}
use axropus_deploy.Pool.{Floats}
use axropus_deploy.Router.{
  g1_amf, g3_lmcache, cold, MissReason, first_request, evicted_from_amf, lmcache_disabled,
  lmcache_miss, lmcache_error, format_mismatch, prefix_too_short, Tiers, MissCounts, Router,
  Payload, LookupResult, at_tier, count_miss, upgrade, miss, note_hit,
}

abbrev pub total : Tiers ℕ → ℕ
total t = t.amf + t.lmcache + t.cold

-- The reasons that `_miss` keeps
abbrev pub reported : MissCounts → ℕ
reported c = c.first_request + c.evicted_from_amf + c.lmcache_error + c.prefix_too_short

-- The counters after n lookups
pub record Counted (n : ℕ) (hits : Tiers ℕ) (misses : MissCounts) : Type 0 where
  pub hits_total : total hits ≡ n
  pub misses_total : reported misses ≡ hits.cold
  pub unused :
      (misses.lmcache_disabled ≡ 0) × ((misses.lmcache_miss ≡ 0) × (misses.format_mismatch ≡ 0))

abbrev pub is_kept : MissReason → Bool
is_kept first_request = true
is_kept evicted_from_amf = true
is_kept lmcache_disabled = false
is_kept lmcache_miss = false
is_kept lmcache_error = true
is_kept format_mismatch = false
is_kept prefix_too_short = true

pub kept_miss :
    (reason : MissReason) (n : ℕ) (hits : Tiers ℕ) (misses : MissCounts)
    → is_kept reason ≡ true
    → Counted n hits misses
    → Counted (suc n) (at_tier suc cold hits) (count_miss reason misses)
kept_miss lmcache_disabled n hits misses h c = absurd (ground arith)
kept_miss lmcache_miss n hits misses h c = absurd (ground arith)
kept_miss format_mismatch n hits misses h c = absurd (ground arith)
kept_miss first_request n hits misses h c = record {
  hits_total = omega (arith, c.hits_total);
  misses_total = omega (arith, c.misses_total);
  unused = c.unused;
}
kept_miss evicted_from_amf n hits misses h c = record {
  hits_total = omega (arith, c.hits_total);
  misses_total = omega (arith, c.misses_total);
  unused = c.unused;
}
kept_miss lmcache_error n hits misses h c = record {
  hits_total = omega (arith, c.hits_total);
  misses_total = omega (arith, c.misses_total);
  unused = c.unused;
}
kept_miss prefix_too_short n hits misses h c = record {
  hits_total = omega (arith, c.hits_total);
  misses_total = omega (arith, c.misses_total);
  unused = c.unused;
}

-- The reasons that `lookup` passes on
abbrev pub is_passed : MissReason → Bool
is_passed first_request = false
is_passed evicted_from_amf = false
is_passed lmcache_disabled = true
is_passed lmcache_miss = true
is_passed lmcache_error = true
is_passed format_mismatch = false
is_passed prefix_too_short = true

upgrade_kept :
    (known : Bool) (reason : MissReason)
    → is_passed reason ≡ true
    → is_kept (upgrade known reason) ≡ true
upgrade_kept known first_request h = absurd (ground arith)
upgrade_kept known evicted_from_amf h = absurd (ground arith)
upgrade_kept known format_mismatch h = absurd (ground arith)
upgrade_kept true lmcache_disabled h = refl
upgrade_kept false lmcache_disabled h = refl
upgrade_kept true lmcache_miss h = refl
upgrade_kept false lmcache_miss h = refl
upgrade_kept true lmcache_error h = refl
upgrade_kept false lmcache_error h = refl
upgrade_kept true prefix_too_short h = refl
upgrade_kept false prefix_too_short h = refl

abbrev pub CountedRouter : {C F E T : Type 0} → ℕ → Router C F E T → Type 0
CountedRouter n r = Counted n r.hit_counts r.miss_counts

abbrev pub CountedAfter : {C F E T : Type 0} → ℕ → LookupResult C F T × Router C F E T → Type 0
CountedAfter n o = CountedRouter n o.1

pub recount :
    {C F E T : Type 0} (m n : ℕ) (r : Router C F E T)
    → m ≡ n
    → CountedRouter m r
    → CountedRouter n r
recount m n r e c = rw e at c

module _ {C F E T : Type 0} (fl : Floats F) where
  pub miss-Counted :
      (k : String) (reason : MissReason) (latency : F) (n : ℕ) (r : Router C F E T)
      → is_passed reason ≡ true
      → CountedRouter n r
      → CountedRouter (suc n) (miss fl k reason latency r).1
  unfolding miss
  miss-Counted k reason latency n r h c =
      kept_miss (upgrade (has k r.seen) reason) n r.hit_counts r.miss_counts
        (upgrade_kept (has k r.seen) reason h) c

  pub note_hit-Counted :
      (k : String) (payload : Payload C F T) (latency : F) (n : ℕ) (r : Router C F E T)
      → CountedRouter n r
      → CountedRouter (suc n) (note_hit fl k g1_amf payload latency r).1
        × CountedRouter (suc n) (note_hit fl k g3_lmcache payload latency r).1
  unfolding note_hit
  note_hit-Counted k payload latency n r c = (
    record {
      hits_total = omega (arith, c.hits_total);
      misses_total = c.misses_total;
      unused = c.unused;
    },
    record {
      hits_total = omega (arith, c.hits_total);
      misses_total = c.misses_total;
      unused = c.unused;
    },
  )
