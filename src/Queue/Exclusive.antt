-- ===== src/Queue/Exclusive.antt =====
-- platform/queue/sqlite_queue.py: what later rounds of `dequeue` do with a job in flight.
use axropus_deploy.Prelude.{
  ℕ, ◌+◌, ◌<◌, ◌≤◌, max, String, ◌≡◌, refl, sym, ap, inl, inr, ◌∙◌, Bool, true, false, List, [],
  ◌∷◌, Option, none, some, arith, str_eq, eq_iff, Bool-cases, All,
}
use axropus_deploy.Sql.{update_where}
use axropus_deploy.Queue.{
  Payload, Row, QueueItem, Settings, Readings, is_job, stale_inflight, reclaim_stale_inflight,
  in_flight, enqueued_first, ready, next_row, take_row, hand_out, poll,
}
use axropus_deploy.Sql.Newest.{Occurs, First, first_row-sort_by}

-- The rows of the job are in flight, and not stale at `limit`.
abbrev Held : String → Settings → ℕ → List Row → Type 0
Held id s limit = All (λ r.
    is_job id r ≡ true → (in_flight r ≡ true) × (limit < r.available_at + max s.second s.stale))

-- Rows that a reclaiming at `limit` does not make available again.
abbrev pub NotStale : String → Settings → ℕ → List Row → Type 0
NotStale id s limit = All (λ r. is_job id r ≡ true → limit < r.available_at + max s.second s.stale)

update_where-All :
    (P Q : Row → Type 0) (p : Row → Bool) (f : Row → Row) (t : List Row)
    → ((r : Row) → P r → p r ≡ true → Q (f r))
    → ((r : Row) → P r → p r ≡ false → Q r)
    → All P t
    → All Q (update_where p f t)
update_where-All P Q p f [] met unmet h = tt
update_where-All P Q p f (r ∷ t) met unmet h = (
  (elim (Bool-cases (p r)) [ inl e ↦ rw e (met r h.0 e) | inr e ↦ rw e (unmet r h.0 e) ]),
  update_where-All P Q p f t met unmet h.1,
)

reclaim-Held :
    (id : String) (s : Settings) (limit now again : ℕ) (t : List Row)
    → now ≤ limit
    → Held id s limit t
    → Held id s limit (reclaim_stale_inflight s now again t)
unfolding reclaim_stale_inflight
reclaim-Held id s limit now again t early h = elim (Bool-cases s.reclaim) [
  | inl e ↦ rw e (
      update_where-All _ _ (stale_inflight s now) _ t
        (λ r k stale mine. let (_, fresh) = k mine in absurd (ground arith)) (λ r k _. k) h)
  | inr e ↦ rw e h
]

take_row-Held :
    (id worker other : String) (s : Settings) (limit : ℕ) (t : List Row)
    → Held id s limit t
    → Held id s limit (take_row worker other t)
take_row-Held id worker other s limit t h =
    update_where-All _ _ (is_job other) _ t (λ r k _ mine. (refl, (k mine).1)) (λ r k _. k) h

take_row-NotStale :
    (id worker : String) (s : Settings) (limit : ℕ) (t : List Row)
    → NotStale id s limit t
    → Held id s limit (take_row worker id t)
take_row-NotStale id worker s limit t h =
    update_where-All _ _ (is_job id) _ t (λ r k _ mine. (refl, k mine))
      (λ r k other mine. absurd (ground arith)) h

reclaim-NotStale :
    (id : String) (s : Settings) (limit now again : ℕ) (t : List Row)
    → limit < again + max s.second s.stale
    → NotStale id s limit t
    → NotStale id s limit (reclaim_stale_inflight s now again t)
unfolding reclaim_stale_inflight
reclaim-NotStale id s limit now again t later h = elim (Bool-cases s.reclaim) [
  | inl e ↦
      rw e (update_where-All _ _ (stale_inflight s now) _ t (λ r k _ mine. later) (λ r k _. k) h)
  | inr e ↦ rw e h
]

-- The job of an item
abbrev Other : {J : Type 0} → String → Option (QueueItem J) → Type 0
Other id none = Unit
Other id (some item) = str_eq item.job_id id ≡ false

not_both : (status : String) → str_eq status "QUEUED" ≡ true → str_eq status "INFLIGHT" ≡ false
not_both status queued = rw ((eq_iff status "QUEUED").0 queued) refl

ready_other :
    (id worker : String) (s : Settings) (limit now : ℕ) (x : Row)
    → (is_job id x ≡ true → (in_flight x ≡ true) × (limit < x.available_at + max s.second s.stale))
    → ready worker now x ≡ true
    → is_job id x ≡ false
ready_other id worker s limit now x held queued = elim (Bool-cases (is_job id x)) [
  | inl e ↦ let (flying, _) = held e in absurd (ground (arith, not_both x.status))
  | inr e ↦ e
]

-- A row that is queued is none of a job in flight.
Occurs-Held :
    (id worker : String) (s : Settings) (limit now : ℕ) (r : Row) (t : List Row)
    → Held id s limit t
    → Occurs r t
    → ready worker now r ≡ true
    → is_job id r ≡ false
Occurs-Held id worker s limit now r [] h at is_ready = absurd at
Occurs-Held id worker s limit now r (x ∷ t) h (inr at) is_ready =
    Occurs-Held id worker s limit now r t h.1 at is_ready
Occurs-Held id worker s limit now r (x ∷ t) h (inl same) is_ready =
    let queued : ready worker now x ≡ true = ap (ready worker now) same ∙ is_ready in
    ap (is_job id) (sym same) ∙ ready_other id worker s limit now x h.0 queued

hand_out-Held :
    {J : Type 0} (io : Payload J) (id worker : String) (s : Settings) (limit now : ℕ) (t : List Row)
    (o : Option Row)
    → Held id s limit t
    → First enqueued_first (ready worker now) t o
    → Other id (hand_out io worker t o).0 × Held id s limit (hand_out io worker t o).1
unfolding hand_out
hand_out-Held io id worker s limit now t none h first = (tt, h)
hand_out-Held io id worker s limit now t (some r) h first = (
  Occurs-Held id worker s limit now r t h first.0 first.1,
  take_row-Held id worker r.job_id s limit t h,
)

select-First :
    (worker : String) (now : ℕ) (t : List Row)
    → First enqueued_first (ready worker now) t (next_row worker now t)
select-First worker now t =
    first_row-sort_by enqueued_first (λ x y e. ground arith) (λ x y z d e. ground arith)
      (ready worker now) t

poll-Held :
    {J : Type 0} (io : Payload J) (id worker : String) (s : Settings) (limit : ℕ) (c : Readings)
    (t : List Row)
    → c.cutoff ≤ limit
    → Held id s limit t
    → Other id (poll io s worker c t).0 × Held id s limit (poll io s worker c t).1
unfolding poll
poll-Held io id worker s limit c t early h =
    let t' = reclaim_stale_inflight s c.cutoff c.again t in
    hand_out-Held io id worker s limit c.now t' (next_row worker c.now t')
      (reclaim-Held id s limit c.cutoff c.again t early h) (select-First worker c.now t')

abbrev pub and_item : {J : Type 0} → Option (QueueItem J) → List (QueueItem J) → List (QueueItem J)
and_item none items = items
and_item (some item) items = item ∷ items

-- The items that rounds of any workers return.
unfoldable pub handed_out :
    {J : Type 0} → Payload J → Settings → List (String × Readings) → List Row → List (QueueItem J)
handed_out io s [] t = []
handed_out io s ((worker, c) ∷ rounds) t =
    and_item (poll io s worker c t).0 (handed_out io s rounds (poll io s worker c t).1)

abbrev pub Others : {J : Type 0} → String → List (QueueItem J) → Type 0
Others id = All (λ item. str_eq item.job_id id ≡ false)

Others-and_item :
    {J : Type 0} (id : String) (o : Option (QueueItem J)) (items : List (QueueItem J))
    → Other id o
    → Others id items
    → Others id (and_item o items)
Others-and_item id none items h k = k
Others-and_item id (some item) items h k = (h, k)

handed_out-Others :
    {J : Type 0} (io : Payload J) (id : String) (s : Settings) (limit : ℕ)
    (rounds : List (String × Readings)) (t : List Row)
    → All (λ x. x.1.cutoff ≤ limit) rounds
    → Held id s limit t
    → Others id (handed_out io s rounds t)
unfolding handed_out
handed_out-Others io id s limit [] t early h = tt
handed_out-Others io id s limit ((worker, c) ∷ rounds) t early h =
    let (other, held) = poll-Held io id worker s limit c t early.0 h in
    Others-and_item id (poll io s worker c t).0 _ other
      (handed_out-Others io id s limit rounds (poll io s worker c t).1 early.1 held)

abbrev id_or : {J : Type 0} → String → Option (QueueItem J) → String
id_or d none = d
id_or d (some item) = item.job_id

taken-Held :
    {J : Type 0} (io : Payload J) (item : QueueItem J) (worker : String) (s : Settings) (limit : ℕ)
    (t : List Row) (o : Option Row)
    → (hand_out io worker t o).0 ≡ some item
    → NotStale item.job_id s limit t
    → Held item.job_id s limit (hand_out io worker t o).1
unfolding hand_out
taken-Held io item worker s limit t none h fresh = absurd (ground arith)
taken-Held io item worker s limit t (some r) h fresh =
    let same : r.job_id ≡ item.job_id = ap (id_or r.job_id) h in
    rw (← same) (take_row-NotStale r.job_id worker s limit t (rw same fresh))

-- A job that a round returned is not returned by later rounds of any workers, up to a time at which
-- the staleness that is allowed has not passed since the job was available, nor since the first
-- round's reclaiming.
pub no_second_hand_out :
    {J : Type 0} (io : Payload J) (s : Settings) (limit : ℕ) (worker : String) (c : Readings)
    (rounds : List (String × Readings)) (t : List Row) (item : QueueItem J)
    → (poll io s worker c t).0 ≡ some item
    → NotStale item.job_id s limit t
    → limit < c.again + max s.second s.stale
    → All (λ x. x.1.cutoff ≤ limit) rounds
    → Others item.job_id (handed_out io s rounds (poll io s worker c t).1)
unfolding poll
no_second_hand_out io s limit worker c rounds t item taken fresh later early =
    handed_out-Others io item.job_id s limit rounds (poll io s worker c t).1 early (
      taken-Held io item worker s limit (reclaim_stale_inflight s c.cutoff c.again t) _ taken
        (reclaim-NotStale item.job_id s limit c.cutoff c.again t later fresh))
