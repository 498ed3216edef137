-- ===== src/Auth/Issue.antt =====
-- Issue of tokens (AuthService.generateTokens, findOrCreateUser, register).
use trust_up_api.Base.{
  ℕ, ◌+◌, ◌≡◌, inl, inr, none, some, List, [], ◌∷◌, ◌++◌, Result, ok, arith, keep, ◌==◌, insert-ok,
  upsert-ok, DbError, Result-cases, maybe_single-none,
}
use trust_up_api.Auth.Defs.{Key, Session, User, UserStatus, AuthStore, Libraries, AuthTables}
use trust_up_api.Auth.Repositories.{
  create_session, find_by_wallet, check_username_exists, has_username,
}
use trust_up_api.Auth.Service.{AuthResponse, refresh_token_expiration_ms}
use trust_up_api.Auth.Tokens.{
  Fresh, RegisterRequest, generate_tokens, new_user, seen_now, register, sign_access, sign_refresh,
}

module _ (lib : Libraries) (tables : AuthTables) where
  -- What a successful issue of tokens for a wallet leaves: the wallet has one user, who is not
  -- blocked, and a new session of that user that holds the hash of the refresh token.
  pub record Issued (now : ℕ) (fresh : Fresh) (wallet : Key) (s s' : AuthStore)
      (answer : AuthResponse) : Type 0 where
    pub user : User
    pub known : keep (λ u. u.wallet_address == wallet) s'.users ≡ user ∷ []
    pub not_blocked : user.status ≡ UserStatus.active
    pub session :
        s'.sessions
        ≡ s.sessions
          ++ record {
            id = fresh.session_id;
            user_id = user.id;
            refresh_token_hash = lib.sha256 answer.refresh_token;
            expires_at = now + refresh_token_expiration_ms;
            token_family = fresh.token_family;
            revoked_at = none;
          }
            ∷ []
    pub access_token : answer.access_token ≡ sign_access lib tables wallet now
    pub refresh_token : answer.refresh_token ≡ sign_refresh lib tables wallet now
    pub nonces_kept : s'.nonces ≡ s.nonces

  abbrev upserted : ℕ → Fresh → Key → List User → Result DbError (User × List User)
  upserted now fresh wallet users =
      tables.users_table.upsert (λ u. u.wallet_address == wallet)
        (new_user now fresh.user_id wallet) (seen_now now) users

  abbrev issued_session : ℕ → Fresh → Key → Key → Session
  issued_session now fresh wallet user_id = record {
    id = fresh.session_id;
    user_id = user_id;
    refresh_token_hash = lib.sha256 (sign_refresh lib tables wallet now);
    expires_at = now + refresh_token_expiration_ms;
    token_family = fresh.token_family;
    revoked_at = none;
  }

  generate_tokens_stored :
      (now : ℕ) (fresh : Fresh) (wallet : Key) (s s' : AuthStore) (answer : AuthResponse)
      (user : User) (users : List User) (rows : List Session)
      → upserted now fresh wallet s.users ≡ ok (user, users)
      → tables.sessions_table.insert (issued_session now fresh wallet user.id) s.sessions ≡ ok rows
      → generate_tokens lib tables now fresh wallet s ≡ (ok answer, s')
      → Issued now fresh wallet s s' answer
  unfolding generate_tokens create_session
  generate_tokens_stored now fresh wallet s s' answer user users rows u i e =
      let law = upsert-ok tables.users_table _ _ _ s.users users user u in
      record {
        user = user;
        known = ground (arith, law);
        not_blocked = ground arith;
        session = ground (
          arith,
          insert-ok tables.sessions_table (issued_session now fresh wallet user.id) s.sessions rows
              i,
        );
        access_token = ground arith;
        refresh_token = ground arith;
        nonces_kept = ground arith;
      }

  -- Tokens are issued to a wallet only if its user exists afterwards and is not blocked, and with a
  -- session that holds the hash of the refresh token; all else stays.
  pub generate_tokens-Issued :
      (now : ℕ) (fresh : Fresh) (wallet : Key) (s s' : AuthStore) (answer : AuthResponse)
      → generate_tokens lib tables now fresh wallet s ≡ (ok answer, s')
      → Issued now fresh wallet s s' answer
  unfolding generate_tokens create_session
  generate_tokens-Issued now fresh wallet s s' answer e =
      elim (Result-cases (upserted now fresh wallet s.users)) [
        | inl (x, u) ↦ ground arith
        | inr ((user, users), u) ↦
            elim (Result-cases
              (tables.sessions_table.insert (issued_session now fresh wallet user.id) s.sessions)) [
                | inl (x, i) ↦ ground arith
                | inr (rows, i) ↦
                    generate_tokens_stored now fresh wallet s s' answer user users rows u i e
              ]
      ]

  -- A registration goes through only for a wallet and a user name that no user had.
  pub register-new :
      (now : ℕ) (fresh : Fresh) (dto : RegisterRequest) (s s' : AuthStore) (user : User)
      (answer : AuthResponse)
      → register lib tables now fresh dto s ≡ (ok (user, answer), s')
      → (keep (λ u. u.wallet_address == dto.wallet_address) s.users ≡ [])
        × (keep (has_username dto.username) s.users ≡ [])
  unfolding register find_by_wallet check_username_exists
  register-new now fresh dto s s' user answer e =
      elim (Result-cases
        (tables.users_table.maybe_single (λ u. u.wallet_address == dto.wallet_address) s.users)) [
          | inl (x, w) ↦ ground arith
          | inr (some u, w) ↦ ground arith
          | inr (none, w) ↦
              elim (Result-cases
                (tables.users_table.maybe_single (has_username dto.username) s.users)) [
                  | inl (x, n) ↦ ground arith
                  | inr (some u, n) ↦ ground arith
                  | inr (none, n) ↦ (
                    maybe_single-none tables.users_table _ s.users w,
                    maybe_single-none tables.users_table _ s.users n,
                  )
                ]
        ]
