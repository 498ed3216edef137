-- ===== src/Webhooks/Queue.antt =====
-- The jobs that a status change puts on the queue.
use trust_up_api.Base.{
  ℕ, ◌==◌, ◌≡◌, refl, ap, sym, ◌∙◌, ◌&&◌, inl, inr, Bool-cases, Bool, true, false, not, Option,
  none, some, List, [], ◌∷◌, ◌++◌, any, keep, All, Result, ok, err, DbError, select-ok, arith,
  ==_refl, any-append_last, any-append_left, All-append, after_step, any-of_keep, keep-one_passes,
}
use trust_up_api.Loans.Defs.{same_status, LoanStatusChangeEvent}
use trust_up_api.Webhooks.Defs.{
  WebhookEndpoint, EventId, WebhookDelivery, is_success, WebhookJob, WebhookStore, WebhookSources,
  is_delivery_of, same_delivery, put_deliveries, same_event_refl,
}
use trust_up_api.Webhooks.Dispatch.{
  max_occurrences, Handle, event_id_at, pending_delivery, is_endpoint_of, is_subscribed,
  ensure_delivery, add_if, enqueue_targets, enqueue_found, enqueue_for, enqueue_loan_status_change,
}
use mathlib.Core.List.{append-nil, append_assoc}
use trust_up_api.Webhooks.Occurrences.{HandsOut, ensure_delivery-HandsOut}

abbrev pub is_target : Option ℕ → WebhookEndpoint → Bool
is_target none e = false
is_target (some merchant_id) e = is_endpoint_of merchant_id e && is_subscribed e

-- The open delivery that a job names.
abbrev pub is_open_delivery : ℕ → ℕ → EventId → WebhookDelivery → Bool
is_open_delivery id endpoint event_id d =
    (d.id == id) && (is_delivery_of endpoint event_id d && not (is_success d.status))

-- A job for an active endpoint of the merchant that asked for status changes, and for a delivery of
-- this endpoint that is in the table and not accepted yet.
abbrev pub IsJobOf : Option ℕ → List WebhookEndpoint → WebhookStore → WebhookJob → Type 0
IsJobOf merchant endpoints t j =
    (any (λ e. (e.id == j.endpoint_id) && is_target merchant e) endpoints ≡ true)
    × (any (is_open_delivery j.delivery_id j.endpoint_id j.event_id) t.deliveries ≡ true)

-- Deliveries are only added, and jobs for the merchant too.
abbrev pub Enqueues : Option ℕ → WebhookStore → WebhookStore → Type 0
Enqueues merchant s t =
    (jobs : List WebhookJob) × (more : List WebhookDelivery) × (t.queue ≡ s.queue ++ jobs)
    × (t.deliveries ≡ s.deliveries ++ more)
    × All (IsJobOf merchant s.endpoints t) jobs
    × (t.endpoints ≡ s.endpoints)

-- Targets that are in the table.
abbrev IsListed : Option ℕ → List WebhookEndpoint → WebhookEndpoint → Type 0
IsListed merchant endpoints e = any (λ x. (x.id == e.id) && is_target merchant x) endpoints ≡ true

IsListed-weaken :
    (merchant : Option ℕ) (e : WebhookEndpoint) (es found : List WebhookEndpoint)
    → All (IsListed merchant es) found
    → All (IsListed merchant (e ∷ es)) found
IsListed-weaken merchant e es [] h = tt
IsListed-weaken merchant e es (x ∷ found) h =
    (ground (arith, h.0), IsListed-weaken merchant e es found h.1)

keep-IsListed :
    (id : ℕ) (es : List WebhookEndpoint)
    → All (IsListed (some id) es) (keep is_subscribed (keep (is_endpoint_of id) es))
keep-IsListed id [] = tt
keep-IsListed id (e ∷ es) =
    let rest = IsListed-weaken (some id) e es _ (keep-IsListed id es) in
    elim (Bool-cases (is_endpoint_of id e)) [
      | inr other ↦ rw other rest
      | inl mine ↦ rw mine (elim (Bool-cases (is_subscribed e)) [
        | inr silent ↦ rw silent rest
        | inl asked ↦ rw asked (rw (==_refl e.id, mine, asked) refl, rest)
      ])
    ]

module _ (src : WebhookSources) (occurred_at : ℕ) (event : LoanStatusChangeEvent)
    (unique : (r : WebhookDelivery) (rows : List WebhookDelivery)
      → any (same_delivery r) rows ≡ true
      → src.deliveries_table.insert r rows ≡ err DbError.unique_violation) where
  -- What the queue needs of a delivery that was handed out.
  abbrev Handed : ℕ → WebhookStore → Option Handle × WebhookStore → Type 0
  Handed endpoint s (none, s') = s' ≡ s
  Handed endpoint s (some (id, event_id), s') =
      (more : List WebhookDelivery) × (s' ≡ put_deliveries s (s.deliveries ++ more))
      × (any (is_open_delivery id endpoint event_id) (s.deliveries ++ more) ≡ true)

  HandsOut-Handed :
      (endpoint bound : ℕ) (s : WebhookStore) (r : Option Handle × WebhookStore)
      → HandsOut occurred_at event endpoint 0 bound s r
      → Handed endpoint s r
  HandsOut-Handed endpoint bound s (none, s') h = h
  HandsOut-Handed endpoint bound s (some (id, event_id), s') (n, e, lt, all, inl (new, added)) =
      let row = pending_delivery id endpoint occurred_at event n in
      (
        row ∷ [],
        added,
        any-append_last (is_open_delivery id endpoint event_id) s.deliveries row (
            rw (e, ==_refl id, ==_refl endpoint) (rw (same_event_refl (event_id_at event n)) refl)),
      )
  HandsOut-Handed endpoint bound s (some (id, event_id), s')
        (n, e, lt, all, inr (same, (d, only, named, waits))) =
      let p = is_delivery_of endpoint (event_id_at event n) in
      let hit : p d ≡ true = keep-one_passes p s.deliveries only in
      (
        [],
        rw (append-nil s.deliveries) same,
        rw (append-nil s.deliveries, e)
            (any-of_keep p (is_open_delivery id endpoint (event_id_at event n)) s.deliveries only
              (rw (named, ==_refl id, hit, waits) refl)),
      )

  module _ (merchant : Option ℕ) where
    Enqueues-refl : (s : WebhookStore) → Enqueues merchant s s
    Enqueues-refl s = ([], [], sym (append-nil s.queue), sym (append-nil s.deliveries), tt, refl)

    IsJobOf-grows :
        (endpoints : List WebhookEndpoint) (s t : WebhookStore) (more : List WebhookDelivery)
        (j : WebhookJob)
        → t.deliveries ≡ s.deliveries ++ more
        → IsJobOf merchant endpoints s j
        → IsJobOf merchant endpoints t j
    IsJobOf-grows endpoints s t more j e h = (h.0, rw e (any-append_left _ s.deliveries more h.1))

    All-grows :
        (endpoints : List WebhookEndpoint) (s t : WebhookStore) (more : List WebhookDelivery)
        (jobs : List WebhookJob)
        → t.deliveries ≡ s.deliveries ++ more
        → All (IsJobOf merchant endpoints s) jobs
        → All (IsJobOf merchant endpoints t) jobs
    All-grows endpoints s t more [] e h = tt
    All-grows endpoints s t more (j ∷ jobs) e h =
        (IsJobOf-grows endpoints s t more j e h.0, All-grows endpoints s t more jobs e h.1)

    Enqueues-trans :
        (s t u : WebhookStore)
        → Enqueues merchant s t
        → Enqueues merchant t u
        → Enqueues merchant s u
    Enqueues-trans s t u (jobs, more, q, d, all, e) (jobs', more', q', d', all', e') = (
      jobs ++ jobs',
      more ++ more',
      q' ∙ ap (λ xs. xs ++ jobs') q ∙ append_assoc s.queue jobs jobs',
      d' ∙ ap (λ xs. xs ++ more') d ∙ append_assoc s.deliveries more more',
      All-append (IsJobOf merchant s.endpoints u) jobs jobs'
          (All-grows s.endpoints t u more' jobs d' all) (rw (sym e) all'),
      e' ∙ e,
    )

    -- A delivery that was handed out, and its job.
    add_if-Enqueues :
        (endpoint : ℕ) (s : WebhookStore) (r : Option Handle × WebhookStore)
        → any (λ e. (e.id == endpoint) && is_target merchant e) s.endpoints ≡ true
        → Handed endpoint s r
        → Enqueues merchant s (add_if src occurred_at event endpoint r.0 r.1).1
    add_if-Enqueues endpoint s (none, s') listed h = rw h (Enqueues-refl s)
    add_if-Enqueues endpoint s (some (id, event_id), s') listed (more, e, there) =
        let job : WebhookJob = record {
          delivery_id = id;
          endpoint_id = endpoint;
          event_id = event_id;
        } in
        rw e (elim (Bool-cases (src.queue_refuses job)) [
          | inl refused ↦ rw refused ([], more, sym (append-nil s.queue), refl, tt, refl)
          | inr taken ↦ rw taken (job ∷ [], more, refl, refl, ((listed, there), tt), refl)
        ])

    enqueue_targets-Enqueues :
        (targets : List WebhookEndpoint) (s : WebhookStore)
        → All (IsListed merchant s.endpoints) targets
        → Enqueues merchant s (enqueue_targets src occurred_at event targets s).1
    unfolding enqueue_targets
    enqueue_targets-Enqueues [] s h = Enqueues-refl s
    enqueue_targets-Enqueues (e ∷ targets) s h =
        let r = ensure_delivery src occurred_at event e.id s in
        let here : Enqueues merchant s (add_if src occurred_at event e.id r.0 r.1).1 =
          add_if-Enqueues e.id s r h.0 (
            HandsOut-Handed e.id max_occurrences s r
              (ensure_delivery-HandsOut occurred_at event e.id src unique s)) in
        let t = (add_if src occurred_at event e.id r.0 r.1).1 in
        after_step (Enqueues merchant s) (add_if src occurred_at event e.id r.0)
          (λ _. enqueue_targets src occurred_at event targets) r.1
          (λ u ok_there.
            Enqueues-trans s t (enqueue_targets src occurred_at event targets t).1 here
              (enqueue_targets-Enqueues targets t (rw (here.5) h.1)))
          here

  enqueue_found-Enqueues :
      (id : ℕ) (s : WebhookStore) (found : Result DbError (List WebhookEndpoint))
      → src.endpoints_table.select (is_endpoint_of id) s.endpoints ≡ found
      → Enqueues (some id) s (enqueue_found src occurred_at event s found).1
  enqueue_found-Enqueues id s (err x) e = Enqueues-refl (some id) s
  enqueue_found-Enqueues id s (ok found) e =
      enqueue_targets-Enqueues (some id) (keep is_subscribed found) s (
        rw (select-ok src.endpoints_table (is_endpoint_of id) s.endpoints found e)
          (keep-IsListed id s.endpoints))

  enqueue_for-Enqueues :
      (merchant : Option ℕ) (same : Bool) (s : WebhookStore)
      → Enqueues merchant s (enqueue_for src occurred_at event merchant same s).1
  enqueue_for-Enqueues none same s = Enqueues-refl none s
  enqueue_for-Enqueues (some id) true s = Enqueues-refl (some id) s
  enqueue_for-Enqueues (some id) false s = enqueue_found-Enqueues id s _ refl

  -- With endpoint and event identifier as a unique key: a status change, whatever comes of it, keeps
  -- the endpoints and the deliveries that were there, and puts jobs on the queue only for active
  -- endpoints of the merchant of the loan that asked for status changes, each with a delivery of
  -- this endpoint that is in the table and not accepted yet.
  pub enqueue_loan_status_change-Enqueues :
      (s : WebhookStore)
      → Enqueues event.merchant_id s (enqueue_loan_status_change src occurred_at event s).1
  unfolding enqueue_loan_status_change
  enqueue_loan_status_change-Enqueues s =
      enqueue_for-Enqueues event.merchant_id (same_status event.previous_status event.status) s
