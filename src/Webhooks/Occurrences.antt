-- ===== src/Webhooks/Occurrences.antt =====
-- Which delivery of a repeated transition the dispatch service hands out.
use trust_up_api.Base.{
  ℕ, zero, suc, ◌+◌, ◌≤◌, ◌<◌, ◌==◌, ◌≡◌, refl, ap, subst, inl, inr, ◌⊎◌, Bool-cases, true, false,
  Option, none, some, List, [], ◌∷◌, ◌++◌, any, keep, ok, err, DbError, insert-cases, single-cases,
  insert-ok, maybe_single-some, arith,
}
use trust_up_api.Loans.Defs.{LoanStatusChangeEvent}
use trust_up_api.Webhooks.Defs.{
  is_success, EventId, WebhookDelivery, WebhookStore, WebhookSources, put_deliveries,
  is_delivery_of, same_delivery,
}
use trust_up_api.Webhooks.Dispatch.{
  max_occurrences, event_id_at, pending_delivery, Handle, ensure_from, ensure_delivery,
}

-- The one delivery of an occurrence has been accepted by the endpoint.
abbrev pub IsDelivered : ℕ → EventId → WebhookStore → Type 0
IsDelivered endpoint event_id s =
    (d : WebhookDelivery) × (keep (is_delivery_of endpoint event_id) s.deliveries ≡ d ∷ [])
    × (is_success d.status ≡ true)

-- A delivery that was there and not accepted yet.
abbrev pub IsOpen : ℕ → EventId → ℕ → WebhookStore → Type 0
IsOpen endpoint event_id id s =
    (d : WebhookDelivery) × (keep (is_delivery_of endpoint event_id) s.deliveries ≡ d ∷ [])
    × (d.id ≡ id)
    × (is_success d.status ≡ false)

later_bound : (sequence left : ℕ) → sequence + 1 + left ≡ sequence + suc left
later_bound sequence left = omega arith

module _ (occurred_at : ℕ) (event : LoanStatusChangeEvent) (endpoint : ℕ) where
  -- A new delivery, of an occurrence that had none.
  abbrev pub IsAdded : ℕ → ℕ → WebhookStore → WebhookStore → Type 0
  IsAdded n id s s' =
      (any (is_delivery_of endpoint (event_id_at event n)) s.deliveries ≡ false)
      × (s'
          ≡ put_deliveries s
              (s.deliveries ++ pending_delivery id endpoint occurred_at event n ∷ []))

  -- What is handed out by the rounds between two sequences.
  abbrev pub HandsOut : ℕ → ℕ → WebhookStore → Option Handle × WebhookStore → Type 0
  HandsOut from bound s (none, s') = s' ≡ s
  HandsOut from bound s (some (id, event_id), s') =
      (n : ℕ) × (event_id ≡ event_id_at event n)
      × (n < bound)
      × ((m : ℕ) → from ≤ m → m < n → IsDelivered endpoint (event_id_at event m) s)
      × (IsAdded n id s s' ⊎ ((s' ≡ s) × IsOpen endpoint (event_id_at event n) id s))

  module _ (src : WebhookSources)
      (unique : (r : WebhookDelivery) (rows : List WebhookDelivery)
        → any (same_delivery r) rows ≡ true
        → src.deliveries_table.insert r rows ≡ err DbError.unique_violation) where
    added-IsNew :
        (r : WebhookDelivery) (rows after : List WebhookDelivery)
        → src.deliveries_table.insert r rows ≡ ok after
        → any (same_delivery r) rows ≡ false
    added-IsNew r rows after e = elim (Bool-cases (any (same_delivery r) rows)) [
      | inl known ↦ absurd (cc (unique r rows known))
      | inr new ↦ new
    ]

    earlier :
        (sequence n : ℕ) (s : WebhookStore)
        → IsDelivered endpoint (event_id_at event sequence) s
        → ((m : ℕ) → sequence + 1 ≤ m → m < n → IsDelivered endpoint (event_id_at event m) s)
        → (m : ℕ) → sequence ≤ m
        → m < n
        → IsDelivered endpoint (event_id_at event m) s
    earlier sequence n s here later m h k = elim (Bool-cases (m == sequence)) [
      | inl same ↦ let e : m ≡ sequence = ground arith in rw e here
      | inr other ↦ later m (ground arith) k
    ]

    next_round :
        (sequence bound : ℕ) (s : WebhookStore) (r : Option Handle × WebhookStore)
        → IsDelivered endpoint (event_id_at event sequence) s
        → HandsOut (sequence + 1) bound s r
        → HandsOut sequence bound s r
    next_round sequence bound s (none, s') here h = h
    next_round sequence bound s (some (id, event_id), s') here (n, e, lt, all, found) =
        (n, e, lt, earlier sequence n s here all, found)

    ensure_from-HandsOut :
        (left sequence : ℕ) (s : WebhookStore)
        → HandsOut sequence
            (sequence + left)
            s
            (ensure_from src occurred_at event endpoint left sequence s)
    unfolding ensure_from
    ensure_from-HandsOut zero sequence s = refl
    ensure_from-HandsOut (suc left) sequence s =
        let row = pending_delivery (src.new_id s) endpoint occurred_at event sequence in
        let event_id = event_id_at event sequence in
        let p = is_delivery_of endpoint event_id in
        elim (insert-cases (src.deliveries_table.insert row s.deliveries)) [
          | inl (rows, e) ↦
              rw (e, ensure_from)
                (
                  sequence,
                  refl,
                  omega arith,
                  λ m h k. absurd (omega arith),
                  inl (
                    added-IsNew row s.deliveries rows e,
                    ap (put_deliveries s) (insert-ok src.deliveries_table row s.deliveries rows e),
                  ),
                )
          | inr (inr e) ↦ rw (e, ensure_from) refl
          | inr (inl e) ↦
              rw (e, ensure_from)
                (elim (single-cases (src.deliveries_table.maybe_single p s.deliveries)) [
                  | inr (inl f) ↦ rw f refl
                  | inr (inr (x, f)) ↦ rw f refl
                  | inl (d, f) ↦
                      let only = maybe_single-some src.deliveries_table p s.deliveries d f in
                      rw f (elim (Bool-cases (is_success d.status)) [
                        | inl done ↦ rw done (
                            next_round sequence _ s _ (d, only, done)
                              (subst
                                (λ b. HandsOut (sequence + 1) b s (
                                  ensure_from src occurred_at event endpoint left (sequence + 1) s))
                                (later_bound sequence left)
                                (ensure_from-HandsOut left (sequence + 1) s)))
                        | inr waits ↦ rw waits (
                          sequence,
                          refl,
                          omega arith,
                          λ m h k. absurd (omega arith),
                          inr (refl, (d, only, refl, waits)),
                        )
                      ])
                ])
        ]

    -- With endpoint and event identifier as a unique key: the delivery that is handed out belongs
    -- to an occurrence of the transition, below the thousandth, all earlier ones of which have been
    -- accepted by the endpoint; either it is new and this occurrence had none, or it is the one of
    -- this occurrence, not accepted yet, and nothing is written. Where none is handed out, nothing
    -- is written.
    pub ensure_delivery-HandsOut :
        (s : WebhookStore)
        → HandsOut 0 max_occurrences s (ensure_delivery src occurred_at event endpoint s)
    unfolding ensure_delivery
    ensure_delivery-HandsOut s = ensure_from-HandsOut max_occurrences 0 s
