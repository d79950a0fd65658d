-- ===== src/InProcQueue/Lanes.antt =====
-- platform/queue/inproc_queue.py: the counts of the lanes against the items that wait.
use axropus_deploy.Prelude.{
  ℕ, ◌+◌, ◌-◌, String, ◌≡◌, refl, sym, ap, inl, inr, ◌∙◌, Bool, true, List, [], ◌∷◌, ◌++◌, Option,
  none, some, arith, str_eq, eq_iff, eq_refl, ltb, if◌then◌else◌, Bool-cases, count_if,
}
use axropus_deploy.Dict.{Dict, get, put}
use axropus_deploy.Dict.Laws.{get-put}
use axropus_deploy.Queue.{Payload, QueueItem}
use axropus_deploy.InProcQueue.{
  InProcQueue, empty_queue, or_zero, or_empty, targeted, count_down, put_item, enqueue, taken,
  take_any, take_own, dequeue, ack, retry, stats,
}

count_up-get :
    (l lane : String) (m : Dict ℕ)
    → or_zero (get lane (put l (or_zero (get l m) + 1) m))
      ≡ or_zero (get lane m) + (if str_eq l lane then 1 else 0)
count_up-get l lane m = elim (Bool-cases (str_eq l lane)) [
  | inl e ↦
      rw (get-put lane l (or_zero (get l m) + 1) m, e)
        (ap (λ k. or_zero (get k m) + 1) ((eq_iff l lane).0 e))
  | inr e ↦ rw (get-put lane l (or_zero (get l m) + 1) m, e) (omega arith)
]

count_down-get :
    (l lane : String) (o : Option ℕ) (m : Dict ℕ)
    → get l m ≡ o
    → ltb 0 (or_zero o) ≡ true
    → or_zero (get lane (count_down l o m)) + (if str_eq l lane then 1 else 0)
      ≡ or_zero (get lane m)
count_down-get l lane none m e pos = absurd (ground arith)
count_down-get l lane (some n) m e pos = elim (Bool-cases (str_eq l lane)) [
  | inl own ↦
      let here : or_zero (get lane m) ≡ n =
        ap (λ k. or_zero (get k m)) (sym ((eq_iff l lane).0 own)) ∙ ap or_zero e in
      rw (pos, get-put lane l (n - 1) m, own) (ground arith)
  | inr other ↦ rw (pos, get-put lane l (n - 1) m, other) (omega arith)
]

module _ {J : Type 0} (io : Payload J) where
  abbrev pub in_lane : String → QueueItem J → Bool
  in_lane lane item = str_eq (io.lane item.payload) lane

  -- How many items of the lane wait for one of the workers.
  abbrev pub waiting_for_workers : String → Dict (List (QueueItem J)) → ℕ
  waiting_for_workers lane [] = 0
  waiting_for_workers lane ((w, items) ∷ m) =
      count_if (in_lane lane) items + waiting_for_workers lane m

  -- How many items of the lane wait.
  abbrev pub waiting : String → InProcQueue J → ℕ
  waiting lane q = count_if (in_lane lane) q.any_worker + waiting_for_workers lane q.by_worker

  count_if-append :
      (p : QueueItem J → Bool) (t u : List (QueueItem J))
      → count_if p (t ++ u) ≡ count_if p t + count_if p u
  count_if-append p [] u = omega arith
  count_if-append p (x ∷ t) u = ground (arith, count_if-append p t u)

  waiting-put :
      (lane w : String) (items : List (QueueItem J)) (m : Dict (List (QueueItem J)))
      → waiting_for_workers lane (put w items m) + count_if (in_lane lane) (or_empty (get w m))
        ≡ waiting_for_workers lane m + count_if (in_lane lane) items
  unfolding get put
  waiting-put lane w items [] = omega arith
  waiting-put lane w items ((v, old) ∷ m) = ground (arith, waiting-put lane w items m)

  -- The count of each lane is how many of its items wait.
  abbrev Counted : InProcQueue J → Type 0
  Counted q = (lane : String) → or_zero (get lane q.lane_counts) ≡ waiting lane q

  waiting-put_item :
      (lane : String) (item : QueueItem J) (o : Option String) (q : InProcQueue J)
      → waiting lane (put_item io item o q) ≡ waiting lane q + (if in_lane lane item then 1 else 0)
  waiting-put_item lane item none q =
      ground (arith, count_if-append (in_lane lane) q.any_worker (item ∷ []))
  waiting-put_item lane item (some w) q =
      let old = or_empty (get w q.by_worker) in
      ground (
        arith,
        waiting-put lane w (old ++ item ∷ []) q.by_worker,
        count_if-append (in_lane lane) old (item ∷ []),
      )

  put_item-counts :
      (item : QueueItem J) (o : Option String) (q : InProcQueue J)
      → (put_item io item o q).lane_counts ≡ q.lane_counts
  put_item-counts item none q = refl
  put_item-counts item (some w) q = refl

  enqueue-Counted :
      (now : ℕ) (id : String) (payload : J) (q : InProcQueue J)
      → Counted q
      → Counted (enqueue io now id payload q)
  unfolding enqueue
  enqueue-Counted now id payload q h lane =
      let item : QueueItem J = record {
        job_id = id;
        payload = payload;
        enqueued_at = now;
        attempts = 0;
      } in
      let l = io.lane payload in
      let q' : InProcQueue J = record q {
        lane_counts = put l (or_zero (get l q.lane_counts) + 1) q.lane_counts;
      } in
      let o = targeted (io.target payload) in
      ap (λ m. or_zero (get lane m)) (put_item-counts item o q')
      ∙ (count_up-get l lane q.lane_counts
          ∙ (ap (λ n. n + (if str_eq l lane then 1 else 0)) (h lane)
              ∙ sym (waiting-put_item lane item o q')))

  taken-Counted :
      (item : QueueItem J) (q : InProcQueue J)
      → ((lane : String)
          → or_zero (get lane q.lane_counts)
            ≡ waiting lane q + (if in_lane lane item then 1 else 0))
      → Counted (taken io item q).1
  unfolding taken
  taken-Counted item q h lane =
      let l = io.lane item.payload in
      let there : or_zero (get l q.lane_counts) ≡ waiting l q + 1 = h l ∙ rw (eq_refl l) refl in
      omega (
        arith,
        h lane,
        count_down-get l lane (get l q.lane_counts) q.lane_counts refl (ground arith),
      )

  take_any-Counted :
      (items : List (QueueItem J)) (q : InProcQueue J)
      → q.any_worker ≡ items
      → Counted q
      → Counted (take_any io items q).1
  unfolding take_any
  take_any-Counted [] q e h = h
  take_any-Counted (item ∷ items) q e h =
      taken-Counted item (record q { any_worker = items })
        (λ lane. h lane ∙ ground (arith, ap (count_if (in_lane lane)) e))

  take_own-Counted :
      (worker : String) (items : List (QueueItem J)) (q : InProcQueue J)
      → or_empty (get worker q.by_worker) ≡ items
      → Counted q
      → Counted (take_own io worker items q).1
  unfolding take_own take_any
  take_own-Counted worker [] q own h = take_any-Counted q.any_worker q refl h
  take_own-Counted worker (item ∷ items) q own h =
      taken-Counted item (record q { by_worker = put worker items q.by_worker })
        (λ lane.
          h lane
          ∙ ground
              (arith, waiting-put lane worker items q.by_worker, ap (count_if (in_lane lane)) own))

  dequeue-Counted :
      (worker : String) (q : InProcQueue J) → Counted q → Counted (dequeue io worker q).1
  unfolding dequeue
  dequeue-Counted worker q h = take_own-Counted worker (or_empty (get worker q.by_worker)) q refl h

pub data Call (J : Type 0) : Type 0 where
  enqueues : ℕ → String → J → Call J
  dequeues : String → Call J
  acks : String → Call J
  retries : String → ℕ → Call J

module _ {J : Type 0} (io : Payload J) where
  unfoldable pub step : Call J → InProcQueue J → InProcQueue J
  step (enqueues now id payload) q = enqueue io now id payload q
  step (dequeues worker) q = (dequeue io worker q).1
  step (acks id) q = ack id q
  step (retries id delay) q = retry id delay q

  unfoldable pub run : List (Call J) → InProcQueue J → InProcQueue J
  run [] q = q
  run (c ∷ cs) q = run cs (step c q)

  step-Counted : (c : Call J) (q : InProcQueue J) → Counted io q → Counted io (step c q)
  unfolding step ack retry
  step-Counted (enqueues now id payload) q h = enqueue-Counted io now id payload q h
  step-Counted (dequeues worker) q h = dequeue-Counted io worker q h
  step-Counted (acks id) q h = h
  step-Counted (retries id delay) q h = h

  run-Counted : (cs : List (Call J)) (q : InProcQueue J) → Counted io q → Counted io (run cs q)
  unfolding run
  run-Counted [] q h = h
  run-Counted (c ∷ cs) q h = run-Counted cs (step c q) (step-Counted c q h)

  -- After any calls on a new queue the two depths of `stats` count the items that wait, for any
  -- worker or for one: those of the lanes HIT and SPEC_HIT, and those of MISS and SPEC_MISS.
  pub stats_count_waiting :
      (cs : List (Call J))
      → ((stats (run cs empty_queue)).queue_depth_hit
          ≡ waiting io "HIT" (run cs empty_queue) + waiting io "SPEC_HIT" (run cs empty_queue))
        × ((stats (run cs empty_queue)).queue_depth_miss
            ≡ waiting io "MISS" (run cs empty_queue) + waiting io "SPEC_MISS" (run cs empty_queue))
  unfolding stats get
  stats_count_waiting cs =
      let counted = run-Counted cs empty_queue (λ lane. refl) in
      (
        omega (arith, counted "HIT", counted "SPEC_HIT"),
        omega (arith, counted "MISS", counted "SPEC_MISS"),
      )
