-- ===== src/Auth/Rotation.antt =====
-- Token rotation (AuthService.refreshTokens) and logout.
use trust_up_api.Base.{
  ℕ, ◌+◌, ◌≤◌, ◌≡◌, ◌≢◌, ◌⊎◌, Option-cases, refl, inl, inr, none, some, Bool, List, [], ◌∷◌, ok,
  err, arith, keep, change, ◌==◌, ==_refl, keep-change_one, keep-keep-not, maybe_single-some,
  update_one-some, delete-ok, Result-cases,
}
use trust_up_api.Auth.Defs.{
  Key, Session, User, UserStatus, AuthStore, AuthError, Libraries, AuthTables, Payload, Verified,
  TokenType, jwt_refresh_secret, valid, token_expired_error, other_failure,
}
use trust_up_api.Auth.Repositories.{
  find_by_hash, find_by_wallet, update_session, delete_session, revoke_family, delete_by_hash,
}
use trust_up_api.Auth.Service.{AuthResponse, refresh_token_expiration_ms}
use trust_up_api.Auth.Tokens.{
  refresh_tokens, sign_access, sign_refresh, verified_wallet, refresh_wallet, logout,
}

-- The refresh token is accepted and names a wallet, or it is refused.
verified_wallet-cases :
    (v : Verified)
    → ((x : AuthError) × ((s : AuthStore) → verified_wallet v s ≡ (err x, s)))
      ⊎ ((p : Payload) × (w : Key) × (v ≡ valid p) × (refresh_wallet p ≡ some w))
verified_wallet-cases (valid p) = elim (Option-cases (refresh_wallet p)) [
  | inl h ↦ inl (AuthError.auth_token_invalid, λ s. ground arith)
  | inr (w, h) ↦ inr (p, w, refl, h)
]
verified_wallet-cases token_expired_error = inl (AuthError.auth_token_expired, λ s. refl)
verified_wallet-cases other_failure = inl (AuthError.auth_token_invalid, λ s. refl)

module _ (lib : Libraries) (tables : AuthTables) where
  abbrev rotate : ℕ → User → Session → Session
  rotate now user r = record r {
    refresh_token_hash = lib.sha256 (sign_refresh lib tables user.wallet_address now);
    expires_at = now + refresh_token_expiration_ms;
  }

  -- What a refresh that went through has checked and written.
  pub record Rotated (now : ℕ) (token : Key) (s s' : AuthStore) (answer : AuthResponse)
      : Type 0 where
    pub payload : Payload
    pub session : Session
    pub user : User
    pub wallet : Key
    pub verified : lib.verify_async jwt_refresh_secret token now ≡ valid payload
    pub is_refresh_token : payload.type ≡ some TokenType.refresh
    pub names_wallet : payload.wallet ≡ some wallet
    pub stored : keep (λ r. r.refresh_token_hash == lib.sha256 token) s.sessions ≡ session ∷ []
    pub not_revoked : session.revoked_at ≡ none
    pub in_time : now ≤ session.expires_at
    pub known : keep (λ u. u.wallet_address == wallet) s.users ≡ user ∷ []
    pub not_blocked : user.status ≡ UserStatus.active
    pub written : s'.sessions ≡ change (λ r. r.id == session.id) (rotate now user) s.sessions
    pub users_kept : s'.users ≡ s.users
    pub nonces_kept : s'.nonces ≡ s.nonces
    pub access_token : answer.access_token ≡ sign_access lib tables user.wallet_address now
    pub refresh_token : answer.refresh_token ≡ sign_refresh lib tables user.wallet_address now

  refresh_tokens_found :
      (now : ℕ) (token wallet : Key) (s s' : AuthStore) (answer : AuthResponse) (payload : Payload)
      (session : Session) (user : User) (written : Session) (rows : List Session)
      → lib.verify_async jwt_refresh_secret token now ≡ valid payload
      → refresh_wallet payload ≡ some wallet
      → tables.sessions_table.maybe_single
          (λ r. r.refresh_token_hash == lib.sha256 token)
          s.sessions
        ≡ ok (some session)
      → tables.users_table.maybe_single (λ u. u.wallet_address == wallet) s.users ≡ ok (some user)
      → tables.sessions_table.update_one (λ r. r.id == session.id) (rotate now user) s.sessions
        ≡ ok (some written, rows)
      → refresh_tokens lib tables now token s ≡ (ok answer, s')
      → Rotated now token s s' answer
  unfolding refresh_tokens find_by_hash find_by_wallet update_session delete_session revoke_family
  refresh_tokens_found now token wallet s s' answer payload session user written rows v w f k u e =
      record {
        payload = payload;
        session = session;
        user = user;
        wallet = wallet;
        verified = v;
        is_refresh_token = ground arith;
        names_wallet = ground arith;
        stored = maybe_single-some tables.sessions_table _ s.sessions session f;
        not_revoked = ground arith;
        in_time = ground arith;
        known = maybe_single-some tables.users_table _ s.users user k;
        not_blocked = ground arith;
        written =
            let law =
              update_one-some tables.sessions_table _ (rotate now user) s.sessions rows written u in
            let stored : s'.sessions ≡ rows = ground arith in rw stored law.3;
        users_kept = ground arith;
        nonces_kept = ground arith;
        access_token = ground arith;
        refresh_token = ground arith;
      }

  -- A refresh that goes through has passed every check, on a token whose session was stored once,
  -- and has replaced the hash and the expiry of that session and nothing else.
  pub refresh_tokens-Rotated :
      (now : ℕ) (token : Key) (s s' : AuthStore) (answer : AuthResponse)
      → refresh_tokens lib tables now token s ≡ (ok answer, s')
      → Rotated now token s s' answer
  unfolding refresh_tokens find_by_hash find_by_wallet update_session delete_session revoke_family
  refresh_tokens-Rotated now token s s' answer e =
      elim (verified_wallet-cases (lib.verify_async jwt_refresh_secret token now)) [
        | inl (x, refused) ↦ ground (arith, refused s)
        | inr (payload, wallet, v, w) ↦
            elim (Result-cases (
              tables.sessions_table.maybe_single (λ r. r.refresh_token_hash == lib.sha256 token)
                s.sessions)) [
                  | inl (x, f) ↦ ground arith
                  | inr (none, f) ↦ ground arith
                  | inr (some session, f) ↦
                      elim (Result-cases (
                        tables.users_table.maybe_single (λ u. u.wallet_address == wallet)
                          s.users)) [
                            | inl (x, k) ↦ ground arith
                            | inr (none, k) ↦ ground arith
                            | inr (some user, k) ↦
                                elim (Result-cases (
                                  tables.sessions_table.update_one (λ r. r.id == session.id)
                                    (rotate now user) s.sessions)) [
                                      | inl (x, u) ↦ ground arith
                                      | inr ((none, rows), u) ↦ ground arith
                                      | inr ((some written, rows), u) ↦
                                          refresh_tokens_found now token wallet s s' answer payload
                                            session user written rows v w f k u e
                                    ]
                          ]
                ]
      ]

  abbrev pub stored_as : Key → Session → Bool
  stored_as token r = r.refresh_token_hash == lib.sha256 token

  -- With no stored session a refresh token is worthless.
  refresh_tokens_of_nil :
      (now : ℕ) (token : Key) (s s' : AuthStore) (answer : AuthResponse)
      → keep (stored_as token) s.sessions ≡ []
      → refresh_tokens lib tables now token s ≢ (ok answer, s')
  refresh_tokens_of_nil now token s s' answer gone e =
      cc (gone, (refresh_tokens-Rotated now token s s' answer e).stored)

  -- A refresh token that has been exchanged for another one cannot be exchanged again, at any
  -- later time; the hashes of the two tokens must differ.
  pub refresh_tokens-once :
      (now later : ℕ) (token : Key) (s s' : AuthStore) (answer : AuthResponse)
      → refresh_tokens lib tables now token s ≡ (ok answer, s')
      → lib.sha256 answer.refresh_token ≢ lib.sha256 token
      → (s'' : AuthStore) (again : AuthResponse)
      → refresh_tokens lib tables later token s' ≢ (ok again, s'')
  refresh_tokens-once now later token s s' answer e differ s'' again =
      let l = refresh_tokens-Rotated now token s s' answer e in
      refresh_tokens_of_nil later token s' s'' again (
        rw l.written (
          keep-change_one (stored_as token) _ (rotate now l.user)
            (λ r. ground (arith, differ, l.refresh_token)) s.sessions l.stored
            (==_refl l.session.id)))

  -- After a logout with a token that verifies, that token cannot be exchanged any more.
  pub logout-ends_session :
      (now later : ℕ) (token : Key) (s s' : AuthStore) (payload : Payload)
      → lib.verify_async jwt_refresh_secret token now ≡ valid payload
      → logout lib tables now token s ≡ (ok tt, s')
      → (s'' : AuthStore) (answer : AuthResponse)
      → refresh_tokens lib tables later token s' ≢ (ok answer, s'')
  unfolding logout delete_by_hash
  logout-ends_session now later token s s' payload v e s'' answer =
      refresh_tokens_of_nil later token s' s'' answer
        (elim (Result-cases (tables.sessions_table.delete (stored_as token) s.sessions)) [
          | inl (x, d) ↦ ground arith
          | inr (rows, d) ↦
              let erased : s'.sessions ≡ rows = ground arith in
              rw (erased, delete-ok tables.sessions_table (stored_as token) s.sessions rows d)
                (keep-keep-not (stored_as token) s.sessions)
        ])
