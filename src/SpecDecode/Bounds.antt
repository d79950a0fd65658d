-- ===== src/SpecDecode/Bounds.antt =====
-- platform/runtime/spec_decode.py: the depth and the counted tokens after any calls.
use axropus_deploy.Prelude.{
  ℕ, ◌+◌, ◌≤◌, ◌≡◌, refl, true, not, ◌&&◌, List, [], ◌∷◌, if◌then◌else◌, ltb, arith, either_of, All,
}
use axropus_deploy.SpecDecode.{
  Floats, Controller, Decision, Gate, min_k, max_k, new_controller, maybe_run, next_ema, next_k,
  adjust, add_saving, update, reset,
}

pub data Call (F : Type 0) : Type 0 where
  runs : Gate → Call F
  updates : ℕ → ℕ → ℕ → F → Call F
  resets : Call F

-- No step accepts more tokens than it proposes.
abbrev pub Sensible : {F : Type 0} → Call F → Type 0
Sensible (runs g) = Unit
Sensible (updates proposed accepted ns tps) = accepted ≤ proposed
Sensible resets = Unit

module _ {F : Type 0} (fl : Floats F) where
  unfoldable pub step : Call F → Controller F → Controller F
  step (runs g) c = (maybe_run fl g c).1
  step (updates proposed accepted ns tps) c = update fl proposed accepted ns tps c
  step resets c = reset fl c

  unfoldable pub run : List (Call F) → Controller F → Controller F
  run [] c = c
  run (call ∷ calls) c = run calls (step call c)

  record Bounded (c : Controller F) : Type 0 where
    least : min_k ≤ c.current_k
    most : c.current_k ≤ max_k
    counted : c.tokens_accepted ≤ c.tokens_proposed

  next_k-bounds :
      (ema : F) (k : ℕ)
      → min_k ≤ k
      → k ≤ max_k
      → (min_k ≤ next_k fl ema k) × (next_k fl ema k ≤ max_k)
  unfolding next_k
  next_k-bounds ema k l m = (ground arith, ground arith)

  adjust-Bounded :
      (proposed accepted : ℕ) (c : Controller F)
      → Bounded c
      → Bounded (adjust fl proposed accepted c)
  adjust-Bounded proposed accepted c b =
      let ema = next_ema fl (fl.div (fl.of_nat accepted) (fl.of_nat proposed)) c in
      let (l, m) = next_k-bounds ema c.current_k b.least b.most in
      record { least = l; most = m; counted = b.counted }

  update-Bounded :
      (proposed accepted ns : ℕ) (tps : F) (c : Controller F)
      → accepted ≤ proposed
      → Bounded c
      → Bounded (update fl proposed accepted ns tps c)
  unfolding update
  update-Bounded proposed accepted ns tps c h b =
      let c' : Controller F = record c {
        tokens_proposed = c.tokens_proposed + proposed;
        tokens_accepted = c.tokens_accepted + accepted;
      } in
      let b' : Bounded c' = record {
        least = b.least;
        most = b.most;
        counted = omega (arith, b.counted);
      } in
      let adjusted =
        either_of Bounded (ltb 0 proposed) _ _ (adjust-Bounded proposed accepted c' b') b' in
      let overhead = fl.mul (fl.of_nat ns) fl.millionth in saved overhead _ adjusted
    where
      same :
          (x y : F) (q : Controller F)
          → Bounded q
          → Bounded (record q { spec_overhead_ms = x; decode_ms_saved = y })
      same x y q g = record { least = g.least; most = g.most; counted = g.counted }

      saved :
          (overhead : F) (q : Controller F)
          → Bounded q
          → Bounded (
              add_saving fl accepted tps overhead
                (record q { spec_overhead_ms = fl.add q.spec_overhead_ms overhead }))
      saved overhead q g =
          either_of Bounded (ltb 1 accepted && fl.greater tps fl.millionth) _ _ (same _ _ q g)
            (same _ _ q g)

  maybe_run-Bounded : (g : Gate) (c : Controller F) → Bounded c → Bounded (maybe_run fl g c).1
  unfolding maybe_run
  maybe_run-Bounded g c b =
      either_of After (not g.allow_spec) _ _ b
        (either_of After (not g.verify_tokens && not g.logits_access) _ _ b on)
    where
      After : Decision × Controller F → Type 0
      After o = Bounded o.1

      on : Bounded (record c { enabled = true })
      on = record { least = b.least; most = b.most; counted = b.counted }

  decided :
      (g : Gate) (c : Controller F)
      → (maybe_run fl g c).0.k ≡ (if (maybe_run fl g c).0.enabled then c.current_k else 0)
  unfolding maybe_run
  decided g c =
      either_of Right (not g.allow_spec) _ _ refl
        (either_of Right (not g.verify_tokens && not g.logits_access) _ _ refl refl)
    where
      Right : Decision × Controller F → Type 0
      Right o = o.0.k ≡ (if o.0.enabled then c.current_k else 0)

  run-Bounded :
      (cs : List (Call F)) (c : Controller F) → All Sensible cs → Bounded c → Bounded (run cs c)
  unfolding run step reset
  run-Bounded [] c h b = b
  run-Bounded (runs g ∷ cs) c h b = run-Bounded cs _ h.1 (maybe_run-Bounded g c b)
  run-Bounded (updates proposed accepted ns tps ∷ cs) c h b =
      run-Bounded cs _ h.1 (update-Bounded proposed accepted ns tps c h.0 b)
  run-Bounded (resets ∷ cs) c h b =
      run-Bounded cs _ h.1
        (record { least = omega arith; most = omega arith; counted = omega arith })

  -- After any calls on a new controller, none of which accepts more tokens than it proposes, the depth
  -- is between 2 and 12, no more tokens are counted as accepted than as proposed, and `maybe_run` gives
  -- the depth if it enables speculation and 0 if it does not.
  pub depth_bounded :
      (cs : List (Call F)) (g : Gate)
      → All Sensible cs
      → let c = run cs (new_controller fl) in
        (2 ≤ c.current_k)
        × ((c.current_k ≤ 12)
            × ((c.tokens_accepted ≤ c.tokens_proposed)
                × ((maybe_run fl g c).0.k
                    ≡ (if (maybe_run fl g c).0.enabled then c.current_k else 0))))
  unfolding new_controller
  depth_bounded cs g h =
      let fresh : Bounded (new_controller fl) = record {
        least = omega arith;
        most = omega arith;
        counted = omega arith;
      } in
      let b = run-Bounded cs (new_controller fl) h fresh in
      (b.least, (b.most, (b.counted, decided g (run cs (new_controller fl)))))
