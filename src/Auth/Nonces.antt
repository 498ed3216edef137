-- ===== src/Auth/Nonces.antt =====
-- What a signature login (AuthService.verifySignature) relies on and leaves behind.
use trust_up_api.Base.{
  ℕ, ◌≤◌, ◌≡◌, ◌≢◌, sym, subst, ◌⊎◌, inl, inr, none, some, Bool, true, false, [], ◌∷◌, ok, err,
  arith, keep, change, ◌==◌, ==_refl, keep-change_one, maybe_single-some, maybe_single-nil,
  update-ok, Result-cases, DbError,
}
use trust_up_api.Auth.Defs.{Nonce, AuthStore, AuthError, Libraries, AuthTables}
use trust_up_api.Auth.Service.{VerifyRequest, is_open_nonce, verify_signature}

module _ (lib : Libraries) (tables : AuthTables) where
  abbrev mark_used : ℕ → Nonce → Nonce
  mark_used now r = record r { used_at = some now }

  -- What a login that went through has established.
  pub record LoggedIn (now : ℕ) (dto : VerifyRequest) (s s' : AuthStore) : Type 0 where
    pub found : Nonce
    pub issued : keep (is_open_nonce dto.wallet dto.nonce) s.nonces ≡ found ∷ []
    pub in_time : now ≤ found.expires_at
    pub key_format : lib.is_valid_ed25519_public_key dto.wallet ≡ true
    pub signed : lib.verify_ed25519 dto.wallet dto.nonce dto.signature ≡ some true
    pub marked :
        (s'.nonces ≡ change (λ r. r.id == found.id) (mark_used now) s.nonces)
        ⊎ (s'.nonces ≡ s.nonces)
    pub sessions_kept : s'.sessions ≡ s.sessions
    pub users_kept : s'.users ≡ s.users

  verify_signature_found :
      (now : ℕ) (dto : VerifyRequest) (s s' : AuthStore) (r : Nonce)
      → tables.nonces_table.maybe_single (is_open_nonce dto.wallet dto.nonce) s.nonces ≡ ok (some r)
      → verify_signature lib tables now dto s ≡ (ok tt, s')
      → LoggedIn now dto s s'
  unfolding verify_signature
  verify_signature_found now dto s s' r h e = record {
    found = r;
    issued = maybe_single-some tables.nonces_table _ s.nonces r h;
    in_time = ground arith;
    key_format = ground arith;
    signed = ground arith;
    marked =
        elim (Result-cases
          (tables.nonces_table.update (λ x. x.id == r.id) (mark_used now) s.nonces)) [
            | inl (x, k) ↦ inr (ground arith)
            | inr (rows, k) ↦
                inl
                  (ground (arith, update-ok tables.nonces_table _ (mark_used now) s.nonces rows k))
          ];
    sessions_kept = ground arith;
    users_kept = ground arith;
  }

  -- A login that goes through has found exactly one open nonce of the wallet, in time and signed.
  pub verify_signature-LoggedIn :
      (now : ℕ) (dto : VerifyRequest) (s s' : AuthStore)
      → verify_signature lib tables now dto s ≡ (ok tt, s')
      → LoggedIn now dto s s'
  unfolding verify_signature
  verify_signature-LoggedIn now dto s s' e =
      elim (Result-cases
        (tables.nonces_table.maybe_single (is_open_nonce dto.wallet dto.nonce) s.nonces)) [
          | inl (x, h) ↦ ground arith
          | inr (none, h) ↦ ground arith
          | inr (some r, h) ↦ verify_signature_found now dto s s' r h e
        ]

  mark_used-closes :
      (now : ℕ) (dto : VerifyRequest) (r : Nonce)
      → is_open_nonce dto.wallet dto.nonce (mark_used now r) ≡ false
  mark_used-closes now dto r = ground arith

  closed_after :
      {now : ℕ} {dto : VerifyRequest} {s s' : AuthStore}
      → LoggedIn now dto s s'
      → s'.nonces ≢ s.nonces
      → keep (is_open_nonce dto.wallet dto.nonce) s'.nonces ≡ []
  closed_after {now} {dto} {s} l changed = elim l.marked [
    | inl m ↦ rw m (
        keep-change_one (is_open_nonce dto.wallet dto.nonce) _ (mark_used now)
          (mark_used-closes now dto) s.nonces l.issued (==_refl l.found.id))
    | inr m ↦ absurd (changed m)
  ]

  -- After a login that marked its nonce, no later login with that wallet and nonce goes through:
  -- whatever the signature, it throws AUTH_NONCE_NOT_FOUND and leaves the store alone.
  pub verify_signature-once :
      (now later : ℕ) (dto again : VerifyRequest) (s s' : AuthStore)
      → verify_signature lib tables now dto s ≡ (ok tt, s')
      → s'.nonces ≢ s.nonces
      → again.wallet ≡ dto.wallet
      → again.nonce ≡ dto.nonce
      → verify_signature lib tables later again s' ≡ (err AuthError.auth_nonce_not_found, s')
  unfolding verify_signature
  verify_signature-once now later dto again s s' e changed same_wallet same_nonce =
      let stays : keep (is_open_nonce again.wallet again.nonce) s'.nonces ≡ [] =
        rw (same_wallet, same_nonce)
          (closed_after (verify_signature-LoggedIn now dto s s' e) changed) in
      elim (Result-cases
        (tables.nonces_table.maybe_single (is_open_nonce again.wallet again.nonce) s'.nonces)) [
          | inl (x, h) ↦ ground arith
          | inr (none, h) ↦ ground arith
          | inr (some r, h) ↦ absurd (maybe_single-nil tables.nonces_table _ s'.nonces r stays h)
        ]

  -- The answer to the statement that marks the nonce is not looked at: where it is an error, the
  -- login goes through all the same, the store is as before, and so is the outcome of a repetition.
  pub verify_signature-unmarked :
      (now : ℕ) (dto : VerifyRequest) (s s' : AuthStore)
      → ((p : Nonce → Bool) (f : Nonce → Nonce)
          → tables.nonces_table.update p f s.nonces ≡ err DbError.other_error)
      → verify_signature lib tables now dto s ≡ (ok tt, s')
      → (s' ≡ s) × (verify_signature lib tables now dto s' ≡ (ok tt, s'))
  unfolding verify_signature
  verify_signature-unmarked now dto s s' fails e =
      elim (Result-cases
        (tables.nonces_table.maybe_single (is_open_nonce dto.wallet dto.nonce) s.nonces)) [
          | inl (x, h) ↦ ground arith
          | inr (none, h) ↦ ground arith
          | inr (some r, h) ↦
              let same : s' ≡ s = ground (arith, fails (λ x. x.id == r.id) (mark_used now)) in
              (
                same,
                subst (λ x. verify_signature lib tables now dto x ≡ (ok tt, x)) (sym same)
                    (rw same at e),
              )
        ]
