-- ===== src/Webhooks/Attempts.antt =====
-- What a run of the delivery job writes, and that an accepted delivery is not sent again.
use trust_up_api.Base.{
  ℕ, ◌+◌, ◌==◌, ◌≡◌, refl, inl, inr, ◌⊎◌, Bool-cases, Bool, true, false, Option, none, some, [],
  ◌∷◌, keep, keep-one_passes, ==_iff, Each, Each-refl, Each-change_one, Result, ok, err, DbError,
  Result-cases, update-ok, maybe_single-some,
}
use trust_up_api.Webhooks.Defs.{
  WebhookEndpoint, DeliveryStatus, is_success, LastError, WebhookDelivery, WebhookJob, WebhookStore,
  WebhookSources,
}
use trust_up_api.Webhooks.Delivery.{
  marked, request_of, is_ok, mark, answered, send, send_to, deliver_found, deliver,
}

module _ (src : WebhookSources) (now : ℕ) (job : WebhookJob) (attempts_made : ℕ) where
  -- The endpoint of the job is active and answered the request with a status from 200 to 299.
  abbrev pub IsAccepted : WebhookStore → WebhookDelivery → Option ℕ → Type 0
  IsAccepted s d code =
      (e : WebhookEndpoint) × (c : ℕ) × (keep (λ x. x.id == job.endpoint_id) s.endpoints ≡ e ∷ [])
      × (e.is_active ≡ true)
      × (src.post (request_of src now d e) ≡ ok c)
      × (is_ok c ≡ true)
      × (code ≡ some c)

  -- As it was, or the delivery of the job, not accepted before, whose attempts are now those that
  -- the queue made of the job, and this one; it is accepted now only if the endpoint accepted it.
  abbrev pub Tries : WebhookStore → WebhookDelivery → WebhookDelivery → Type 0
  Tries s d d' =
      (d' ≡ d)
      ⊎ ((d.id ≡ job.delivery_id)
          × (is_success d.status ≡ false)
          × (d'.attempts ≡ attempts_made + 1)
          × ((d'.id ≡ d.id) × (d'.event_id ≡ d.event_id) × (d'.payload ≡ d.payload))
          × (is_success d'.status ≡ true → IsAccepted s d d'.response_code))

  -- The one delivery of the job, that is not accepted yet.
  abbrev IsOwn : WebhookDelivery → WebhookStore → Type 0
  IsOwn d s =
      (keep (λ x. x.id == job.delivery_id) s.deliveries ≡ d ∷ []) × (is_success d.status ≡ false)

  module _ (s : WebhookStore) where
    Tried : WebhookStore → Type 0
    Tried t = Each (Tries s) s.deliveries t.deliveries

    untouched-Tried : (t : WebhookStore) → t.deliveries ≡ s.deliveries → Tried t
    unfolding Tried
    untouched-Tried t same = rw same (Each-refl (Tries s) (λ x. inl refl) s.deliveries)

    mark-Tried :
        (status : DeliveryStatus) (code : Option ℕ) (error : Option LastError) (d : WebhookDelivery)
        (t : WebhookStore)
        → t.deliveries ≡ s.deliveries
        → IsOwn d s
        → (is_success status ≡ true → IsAccepted s d code)
        → Tried (mark src now job attempts_made status code error t).1
    unfolding Tried mark
    mark-Tried status code error d t same own accepted =
        let p : WebhookDelivery → Bool = λ x. x.id == job.delivery_id in
        let f = marked now (attempts_made + 1) status code error in
        elim (Result-cases (src.deliveries_table.update p f t.deliveries)) [
          | inl (x, e) ↦ rw e (untouched-Tried t same)
          | inr (rows, e) ↦ rw e (
              rw (update-ok src.deliveries_table p f t.deliveries rows e, same)
                (Each-change_one (Tries s) p f (λ x. inl refl) s.deliveries own.0
                  (inr (
                    (==_iff d.id job.delivery_id).0 (keep-one_passes p s.deliveries own.0),
                    own.1,
                    refl,
                    (refl, refl, refl),
                    accepted,
                  ))))
        ]

    answered-Tried :
        (d : WebhookDelivery) (e : WebhookEndpoint) (t : WebhookStore) (answer : Result ℕ ℕ)
        → t.deliveries ≡ s.deliveries
        → IsOwn d s
        → keep (λ x. x.id == job.endpoint_id) s.endpoints ≡ e ∷ []
        → e.is_active ≡ true
        → src.post (request_of src now d e) ≡ answer
        → Tried (answered src now job attempts_made answer t).1
    unfolding answered
    answered-Tried d e t (ok code) same own only active posted = elim (Bool-cases (is_ok code)) [
      | inl good ↦ rw good (
          mark-Tried DeliveryStatus.success (some code) none d t same own
            (λ _. (e, code, only, active, posted, good, refl)))
      | inr bad ↦ rw bad (
          mark-Tried DeliveryStatus.failed (some code) (some (LastError.http_status code)) d t same
            own (λ h. cc))
    ]
    answered-Tried d e t (err message) same own only active posted =
        elim (Bool-cases (src.is_http_message message)) [
          | inl passes ↦ rw passes (untouched-Tried t same)
          | inr other ↦ rw other (
              mark-Tried DeliveryStatus.failed none (some (LastError.exception message)) d t same
                own (λ h. cc))
        ]

    send_to-Tried :
        (d : WebhookDelivery) (found : Result DbError (Option WebhookEndpoint))
        → src.endpoints_table.maybe_single (λ e. e.id == job.endpoint_id) s.endpoints ≡ found
        → IsOwn d s
        → Tried (send_to src now job attempts_made d found s).1
    unfolding send_to send
    send_to-Tried d (ok none) e own =
        mark-Tried DeliveryStatus.failed none (some LastError.endpoint_inactive_or_missing) d s refl
          own (λ h. cc)
    send_to-Tried d (err x) e own =
        mark-Tried DeliveryStatus.failed none (some LastError.endpoint_inactive_or_missing) d s refl
          own (λ h. cc)
    send_to-Tried d (ok (some endpoint)) e own = elim (Bool-cases endpoint.is_active) [
      | inl active ↦ rw active (
          answered-Tried d endpoint _ (src.post (request_of src now d endpoint)) refl own
            (maybe_single-some src.endpoints_table _ s.endpoints endpoint e) active refl)
      | inr inactive ↦ rw inactive (
          mark-Tried DeliveryStatus.failed none (some LastError.endpoint_inactive_or_missing) d s
            refl own (λ h. cc))
    ]

    deliver_found-Tried :
        (found : Result DbError (Option WebhookDelivery))
        → src.deliveries_table.maybe_single (λ d. d.id == job.delivery_id) s.deliveries ≡ found
        → Tried (deliver_found src now job attempts_made found s).1
    unfolding deliver_found
    deliver_found-Tried (ok none) e = untouched-Tried s refl
    deliver_found-Tried (err x) e = untouched-Tried s refl
    deliver_found-Tried (ok (some d)) e = elim (Bool-cases (is_success d.status)) [
      | inl done ↦ rw done (untouched-Tried s refl)
      | inr waits ↦ rw waits (
          send_to-Tried d _ refl (maybe_single-some src.deliveries_table _ s.deliveries d e, waits))
    ]

  -- A run of the delivery job, whatever fails on the way, leaves every delivery as it was, or writes
  -- to the delivery of the job, which was not accepted before and keeps its event: its attempts
  -- become the attempts that the queue had made of this job, and one, whatever they were before. It
  -- becomes accepted only if the active endpoint of the job answered with a status from 200 to 299,
  -- which is the recorded one.
  pub deliver-Tries :
      (s : WebhookStore)
      → Each (Tries s) s.deliveries (deliver src now job attempts_made s).1.deliveries
  unfolding deliver Tried
  deliver-Tries s =
      deliver_found-Tried s
        (src.deliveries_table.maybe_single (λ d. d.id == job.delivery_id) s.deliveries) refl
