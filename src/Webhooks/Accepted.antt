-- ===== src/Webhooks/Accepted.antt =====
-- An accepted delivery is not sent again.
use trust_up_api.Base.{
  ℕ, ◌+◌, ◌==◌, ◌≡◌, ◌≢◌, refl, ap, ◌∙◌, inl, inr, Bool-cases, Bool, true, Option, none, some, List,
  [], ◌∷◌, map, keep, keep-change_map, change, Result, ok, err, DbError, maybe_single-some, arith,
}
use trust_up_api.Webhooks.Defs.{
  WebhookEndpoint, DeliveryStatus, is_success, LastError, WebhookDelivery, WebhookJob, WebhookStore,
  WebhookSources,
}
use trust_up_api.Webhooks.Delivery.{
  marked, request_of, is_ok, mark, answered, send, send_to, deliver_found, deliver,
}

module _ (src : WebhookSources) where
  module _ (now : ℕ) (job : WebhookJob) (attempts_made : ℕ) where
    abbrev is_own : WebhookDelivery → Bool
    is_own d = d.id == job.delivery_id

    -- A run for the accepted delivery leaves the store alone.
    deliver_found-accepted :
        (s : WebhookStore) (d : WebhookDelivery) (found : Result DbError (Option WebhookDelivery))
        → src.deliveries_table.maybe_single is_own s.deliveries ≡ found
        → keep is_own s.deliveries ≡ d ∷ []
        → is_success d.status ≡ true
        → (deliver_found src now job attempts_made found s).1 ≡ s
    unfolding deliver_found
    deliver_found-accepted s d (ok none) e only done = refl
    deliver_found-accepted s d (err x) e only done = refl
    deliver_found-accepted s d (ok (some d')) e only done =
        let law = maybe_single-some src.deliveries_table is_own s.deliveries d' e in
        let same : d' ≡ d = cc in rw (same, done) refl

    mark-keeps_sent :
        (status : DeliveryStatus) (code : Option ℕ) (error : Option LastError) (s : WebhookStore)
        → (mark src now job attempts_made status code error s).1.sent ≡ s.sent
    unfolding mark
    mark-keeps_sent status code error s = ground arith

    module _
        (answers : (p : WebhookDelivery → Bool) (f : WebhookDelivery → WebhookDelivery)
            (rows : List WebhookDelivery)
          → src.deliveries_table.update p f rows ≡ ok (change p f rows)) where
      abbrev Accepts : WebhookStore → WebhookStore → Type 0
      Accepts s t =
          (c : ℕ) × (t.deliveries
            ≡ change is_own (marked now (attempts_made + 1) DeliveryStatus.success (some c) none)
                s.deliveries)

      answered-Accepts :
          (t : WebhookStore) (answer : Result ℕ ℕ)
          → (answered src now job attempts_made answer t).0 ≡ ok tt
          → Accepts t (answered src now job attempts_made answer t).1
      unfolding answered mark
      answered-Accepts t (ok code) h = elim (Bool-cases (is_ok code)) [
        | inl good ↦ rw (good, answers _ _ t.deliveries) (code, refl)
        | inr bad ↦ absurd (ground arith)
      ]
      answered-Accepts t (err message) h = absurd (ground arith)

      send_to-Accepts :
          (s : WebhookStore) (d : WebhookDelivery) (found : Result DbError (Option WebhookEndpoint))
          → (send_to src now job attempts_made d found s).0 ≡ ok tt
          → (send_to src now job attempts_made d found s).1.sent ≢ s.sent
          → Accepts s (send_to src now job attempts_made d found s).1
      unfolding send_to send
      send_to-Accepts s d (ok none) h k = absurd (k (mark-keeps_sent _ _ _ s))
      send_to-Accepts s d (err x) h k = absurd (k (mark-keeps_sent _ _ _ s))
      send_to-Accepts s d (ok (some e)) h k = elim (Bool-cases e.is_active) [
        | inl active ↦
            rw active (answered-Accepts _ (src.post (request_of src now d e)) (rw active at h))
        | inr inactive ↦ let k' = rw inactive at k in absurd (k' (mark-keeps_sent _ _ _ s))
      ]

      deliver_found-Accepts :
          (s : WebhookStore) (found : Result DbError (Option WebhookDelivery))
          → src.deliveries_table.maybe_single is_own s.deliveries ≡ found
          → (deliver_found src now job attempts_made found s).0 ≡ ok tt
          → (deliver_found src now job attempts_made found s).1.sent ≢ s.sent
          → (d : WebhookDelivery) × (keep is_own s.deliveries ≡ d ∷ [])
            × Accepts s (deliver_found src now job attempts_made found s).1
      unfolding deliver_found
      deliver_found-Accepts s (ok none) e h k = absurd (k refl)
      deliver_found-Accepts s (err x) e h k = absurd (k refl)
      deliver_found-Accepts s (ok (some d)) e h k = elim (Bool-cases (is_success d.status)) [
        | inl done ↦ absurd ((rw done at k) refl)
        | inr waits ↦ rw waits (
          d,
          maybe_single-some src.deliveries_table is_own s.deliveries d e,
          send_to-Accepts s d _ (rw waits at h) (rw waits at k),
        )
      ]

      pub deliver-Accepts :
          (s : WebhookStore)
          → (deliver src now job attempts_made s).0 ≡ ok tt
          → (deliver src now job attempts_made s).1.sent ≢ s.sent
          → (d : WebhookDelivery) × (keep is_own (deliver src now job attempts_made s).1.deliveries
              ≡ d ∷ [])
            × (is_success d.status ≡ true)
      unfolding deliver
      deliver-Accepts s h k =
          let (d, only, (c, after)) = deliver_found-Accepts s _ refl h k in
          let f = marked now (attempts_made + 1) DeliveryStatus.success (some c) none in
          (
            f d,
            rw after (keep-change_map is_own f (λ x. refl) s.deliveries ∙ ap (map f) only),
            refl,
          )

  -- Where updates of the deliveries are answered: after a run that sent its request and returned,
  -- no run for the same delivery, at any time and for any endpoint, changes anything or sends a
  -- request.
  pub deliver-once :
      (answers : (p : WebhookDelivery → Bool) (f : WebhookDelivery → WebhookDelivery)
          (rows : List WebhookDelivery)
        → src.deliveries_table.update p f rows ≡ ok (change p f rows))
      (now later : ℕ) (job job' : WebhookJob) (made made' : ℕ) (s : WebhookStore)
      → job'.delivery_id ≡ job.delivery_id
      → (deliver src now job made s).0 ≡ ok tt
      → (deliver src now job made s).1.sent ≢ s.sent
      → let t = (deliver src now job made s).1 in (deliver src later job' made' t).1 ≡ t
  unfolding deliver
  deliver-once answers now later job job' made made' s same h k =
      let (d, only, done) = deliver-Accepts now job made answers s h k in
      deliver_found-accepted later job' made' _ d _ refl (rw same only) done
