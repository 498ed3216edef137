-- ===== src/Webhooks/Owners.antt =====
-- Only the merchant of an endpoint changes or removes it.
use trust_up_api.Base.{
  ℕ, ◌==◌, ◌≡◌, refl, sym, inl, inr, ◌⊎◌, ==_iff, Bool, false, not, [], ◌∷◌, keep, keep-one_passes,
  change, Each, Each-refl, Each-change_one, ok, single-cases, updated-cases, maybe_single-some,
  update_one-some, update_one-none, delete-ok, after_step, after_reading, after_writing, arith,
  ◌>>=◌, ◌>>◌, pure,
}
use trust_up_api.Admin.Defs.{MerchantRow}
use trust_up_api.Webhooks.Defs.{
  WebhookEndpoint, WebhookStore, WebhookSources, WebhookError, Webhooks, put_endpoints,
}
use trust_up_api.Webhooks.Endpoints.{
  UpdateWebhook, PublicEndpoint, public_endpoint, patch, owned_endpoint, write_endpoint,
  erase_endpoint, update_mine, delete_mine,
}

module _ (src : WebhookSources) where
  -- The wallet is the one of the merchant of the endpoint.
  abbrev pub IsOwner : WebhookStore → ℕ → WebhookEndpoint → Type 0
  IsOwner s wallet e =
      (m : MerchantRow) × (keep (λ r. r.wallet == wallet) s.merchants ≡ m ∷ [])
      × (e.merchant_id ≡ m.id)

  owned_endpoint-reads : (wallet id : ℕ) (s : WebhookStore) → (owned_endpoint src wallet id s).1 ≡ s
  unfolding owned_endpoint
  owned_endpoint-reads wallet id s = ground arith

  checked_owner :
      (owner_id merchant_id : ℕ) → not (owner_id == merchant_id) ≡ false → owner_id ≡ merchant_id
  checked_owner owner_id merchant_id h = ground (arith, ==_iff owner_id merchant_id)

  owned_endpoint-ok :
      (wallet id : ℕ) (s : WebhookStore) (e : WebhookEndpoint)
      → (owned_endpoint src wallet id s).0 ≡ ok e
      → (keep (λ x. x.id == id) s.endpoints ≡ e ∷ []) × IsOwner s wallet e
  unfolding owned_endpoint
  owned_endpoint-ok wallet id s e h =
      elim (single-cases (src.merchants_table.maybe_single (λ r. r.wallet == wallet) s.merchants)) [
        | inr (inl f) ↦ absurd (ground arith)
        | inr (inr (x, f)) ↦ absurd (ground arith)
        | inl (m, f) ↦
            elim (single-cases (src.endpoints_table.maybe_single (λ x. x.id == id) s.endpoints)) [
              | inr (inl g) ↦ absurd (ground arith)
              | inr (inr (x, g)) ↦ absurd (ground arith)
              | inl (e', g) ↦
                  let same : e' ≡ e = ground arith in
                  let passed : not (e'.merchant_id == m.id) ≡ false = ground arith in
                  (
                    maybe_single-some src.endpoints_table _ s.endpoints e (rw (sym same) g),
                    (
                      m,
                      maybe_single-some src.merchants_table _ s.merchants m f,
                      rw (sym same) (checked_owner e'.merchant_id m.id passed),
                    ),
                  )
            ]
      ]

  -- As it was, or the endpoint of this identifier, which the wallet owns; its identifier, merchant
  -- and secret stay.
  abbrev pub Patches : WebhookStore → ℕ → ℕ → WebhookEndpoint → WebhookEndpoint → Type 0
  Patches s wallet id e e' =
      (e' ≡ e)
      ⊎ (IsOwner s wallet e
          × (e.id ≡ id)
          × (e'.id ≡ id)
          × (e'.merchant_id ≡ e.merchant_id)
          × (e'.secret ≡ e.secret))

  -- All are left, or all but the one of this identifier, which the wallet owns.
  abbrev pub Erases : WebhookStore → ℕ → ℕ → WebhookStore → Type 0
  Erases s wallet id t =
      (t.endpoints ≡ s.endpoints)
      ⊎ ((e : WebhookEndpoint) × (keep (λ x. x.id == id) s.endpoints ≡ e ∷ [])
          × IsOwner s wallet e
          × (t.endpoints ≡ keep (λ x. not (x.id == id)) s.endpoints))

  module _ (s : WebhookStore) (wallet id : ℕ) where
    Patched : WebhookStore → Type 0
    Patched t = Each (Patches s wallet id) s.endpoints t.endpoints

    unpatched : Patched s
    unfolding Patched
    unpatched = Each-refl (Patches s wallet id) (λ e. inl refl) s.endpoints

    write_endpoint-Patched :
        (now : ℕ) (dto : UpdateWebhook) (e : WebhookEndpoint)
        → keep (λ x. x.id == id) s.endpoints ≡ e ∷ []
        → IsOwner s wallet e
        → Patched (write_endpoint src now id dto s).1
    unfolding write_endpoint Patched
    write_endpoint-Patched now dto e only owner =
        let p : WebhookEndpoint → Bool = λ x. x.id == id in
        let f = patch now dto in
        let t = (write_endpoint src now id dto s).1 in
        let named : e.id ≡ id = (==_iff e.id id).0 (keep-one_passes p s.endpoints only) in
        elim (updated-cases (src.endpoints_table.update_one p f s.endpoints)) [
          | inl (x, failed) ↦
              let kept : t.endpoints ≡ s.endpoints = ground arith in rw kept unpatched
          | inr (inl (rows, none_met)) ↦
              let none_is = update_one-none src.endpoints_table p f s.endpoints rows none_met in
              let kept : t.endpoints ≡ s.endpoints = ground arith in rw kept unpatched
          | inr (inr (r, rows, met)) ↦
              let (old, only', e', after) =
                update_one-some src.endpoints_table p f s.endpoints rows r met in
              let left : t.endpoints ≡ change p f s.endpoints = ground arith in
              rw left (
                Each-change_one (Patches s wallet id) p f (λ x. inl refl) s.endpoints only
                  (inr (owner, named, named, refl, refl)))
        ]

    update_mine-Patched :
        (now : ℕ) (dto : UpdateWebhook) → Patched (update_mine src now wallet id dto s).1
    unfolding update_mine
    update_mine-Patched now dto =
        let write : Webhooks PublicEndpoint =
          write_endpoint src now id dto >>= λ updated. pure (public_endpoint updated) in
        after_reading Patched (owned_endpoint src wallet id) (λ _. write) s
          (owned_endpoint-reads wallet id s)
          (λ e found.
            let (only, owner) = owned_endpoint-ok wallet id s e found in
            let wrote = write_endpoint-Patched now dto e only owner in
            after_step Patched (write_endpoint src now id dto)
              (λ updated. pure (public_endpoint updated)) s (λ updated _. wrote) wrote)
          unpatched

    delete_mine-Erases : Erases s wallet id (delete_mine src wallet id s).1
    unfolding delete_mine erase_endpoint
    delete_mine-Erases =
        let p : WebhookEndpoint → Bool = λ x. x.id == id in
        let rest : Webhooks ℕ = erase_endpoint src id >> pure id in
        after_reading (Erases s wallet id) (owned_endpoint src wallet id) (λ _. rest) s
          (owned_endpoint-reads wallet id s)
          (λ e found.
            let (only, owner) = owned_endpoint-ok wallet id s e found in
            after_writing (Erases s wallet id) (pure id) put_endpoints
              (λ t. src.endpoints_table.delete p t.endpoints) WebhookError.database_error s
              (λ rows done.
                inr (e, only, owner, delete-ok src.endpoints_table p s.endpoints rows done))
              (inl refl))
          (inl refl)

  -- An update or a removal that a wallet asks for, whatever comes of it, changes no endpoint but the
  -- named one, and that only where the wallet is the one of its merchant; an update keeps
  -- identifier, merchant and secret.
  pub update_mine-owned :
      (s : WebhookStore) (now wallet id : ℕ) (dto : UpdateWebhook)
      → Each (Patches s wallet id) s.endpoints (update_mine src now wallet id dto s).1.endpoints
        × Erases s wallet id (delete_mine src wallet id s).1
  unfolding Patched
  update_mine-owned s now wallet id dto =
      (update_mine-Patched s wallet id now dto, delete_mine-Erases s wallet id)
