-- ===== src/Auth/Revocation.antt =====
-- Family revocation (AuthService.refreshTokens, SessionsRepository.revokeFamily): no run of the
-- service ever gets there.
use trust_up_api.Base.{
  ℕ, Option, ◌≡◌, inl, inr, none, some, Bool, List, [], ◌∷◌, ok, arith, ◌==◌, All, All-append,
  All-keep, All-change, Table, maybe_single-some, insert-ok, update_one-some, update_one-none,
  delete-ok, Result-cases,
}
use trust_up_api.Auth.Defs.{Key, Session, AuthStore, Libraries, AuthTables}
use trust_up_api.Auth.Repositories.{
  find_by_hash, find_by_wallet, update_session, delete_session, delete_by_hash, create_session,
  check_username_exists, create_profile,
}
use trust_up_api.Auth.Service.{VerifyRequest, generate_nonce, verify_signature}
use trust_up_api.Auth.Tokens.{
  Fresh, RegisterRequest, generate_tokens, register, refresh_tokens, logout,
}

abbrev IsUnrevoked : Session → Type 0
IsUnrevoked r = r.revoked_at ≡ none

-- No stored session has been revoked.
abbrev pub NoneRevoked : AuthStore → Type 0
NoneRevoked s = All IsUnrevoked s.sessions

module _ (t : Table Session) where
  insert-Unrevoked :
      (r : Session) (rows after : List Session)
      → t.insert r rows ≡ ok after
      → IsUnrevoked r
      → All IsUnrevoked rows
      → All IsUnrevoked after
  insert-Unrevoked r rows after h new old =
      rw (insert-ok t r rows after h) (All-append IsUnrevoked rows (r ∷ []) old (new, tt))

  delete-Unrevoked :
      (p : Session → Bool) (rows after : List Session)
      → t.delete p rows ≡ ok after
      → All IsUnrevoked rows
      → All IsUnrevoked after
  delete-Unrevoked p rows after h old =
      rw (delete-ok t p rows after h) (All-keep IsUnrevoked _ rows old)

  update_one-Unrevoked :
      (p : Session → Bool) (f : Session → Session) (rows after : List Session) (r : Option Session)
      → t.update_one p f rows ≡ ok (r, after)
      → ((r : Session) → IsUnrevoked r → IsUnrevoked (f r))
      → All IsUnrevoked rows
      → All IsUnrevoked after
  update_one-Unrevoked p f rows after none h step old =
      rw (update_one-none t p f rows after h).1 old
  update_one-Unrevoked p f rows after (some r) h step old =
      rw (update_one-some t p f rows after r h).3 (All-change IsUnrevoked p f step rows old)

  found-Unrevoked :
      (p : Session → Bool) (rows : List Session) (r : Session)
      → t.maybe_single p rows ≡ ok (some r)
      → All IsUnrevoked rows
      → IsUnrevoked r
  found-Unrevoked p rows r h old =
      let kept = All-keep IsUnrevoked p rows old in (rw (maybe_single-some t p rows r h) at kept).0

module _ (lib : Libraries) (tables : AuthTables) where
  generate_nonce-NoneRevoked :
      (now : ℕ) (id random wallet : Key) (s : AuthStore)
      → NoneRevoked s
      → NoneRevoked (generate_nonce lib tables now id random wallet s).1
  unfolding generate_nonce
  generate_nonce-NoneRevoked now id random wallet s h = ground arith

  verify_signature-NoneRevoked :
      (now : ℕ) (dto : VerifyRequest) (s : AuthStore)
      → NoneRevoked s
      → NoneRevoked (verify_signature lib tables now dto s).1
  unfolding verify_signature
  verify_signature-NoneRevoked now dto s h = ground arith

  create_session-NoneRevoked :
      (r : Session) (s : AuthStore)
      → IsUnrevoked r
      → NoneRevoked s
      → NoneRevoked (create_session tables.sessions_table r s).1
  unfolding create_session
  create_session-NoneRevoked r s new h =
      elim (Result-cases (tables.sessions_table.insert r s.sessions)) [
        | inl (x, e) ↦ ground arith
        | inr (rows, e) ↦
            ground (arith, insert-Unrevoked tables.sessions_table r s.sessions rows e new h)
      ]

  generate_tokens-NoneRevoked :
      (now : ℕ) (fresh : Fresh) (wallet : Key) (s : AuthStore)
      → NoneRevoked s
      → NoneRevoked (generate_tokens lib tables now fresh wallet s).1
  unfolding generate_tokens
  generate_tokens-NoneRevoked now fresh wallet s h = grind (arith, create_session-NoneRevoked)

  register-NoneRevoked :
      (now : ℕ) (fresh : Fresh) (dto : RegisterRequest) (s : AuthStore)
      → NoneRevoked s
      → NoneRevoked (register lib tables now fresh dto s).1
  unfolding register find_by_wallet check_username_exists create_profile
  register-NoneRevoked now fresh dto s h = grind (arith, generate_tokens-NoneRevoked)

  logout-NoneRevoked :
      (now : ℕ) (token : Key) (s : AuthStore)
      → NoneRevoked s
      → NoneRevoked (logout lib tables now token s).1
  unfolding logout delete_by_hash
  logout-NoneRevoked now token s h =
      elim (Result-cases
        (tables.sessions_table.delete (λ r. r.refresh_token_hash == lib.sha256 token) s.sessions)) [
          | inl (x, e) ↦ ground arith
          | inr (rows, e) ↦
              ground (arith, delete-Unrevoked tables.sessions_table _ s.sessions rows e h)
        ]

  delete_session-NoneRevoked :
      (id : Key) (s : AuthStore)
      → NoneRevoked s
      → NoneRevoked (delete_session tables.sessions_table id s).1
  unfolding delete_session
  delete_session-NoneRevoked id s h =
      elim (Result-cases (tables.sessions_table.delete (λ r. r.id == id) s.sessions)) [
        | inl (x, e) ↦ ground arith
        | inr (rows, e) ↦
            ground (arith, delete-Unrevoked tables.sessions_table _ s.sessions rows e h)
      ]

  update_session-NoneRevoked :
      (id hash : Key) (expires : ℕ) (s : AuthStore)
      → NoneRevoked s
      → NoneRevoked (update_session tables.sessions_table id hash expires s).1
  unfolding update_session
  update_session-NoneRevoked id hash expires s h =
      elim (Result-cases (
        tables.sessions_table.update_one (λ r. r.id == id)
          (λ r. record r { refresh_token_hash = hash; expires_at = expires }) s.sessions)) [
            | inl (x, e) ↦ ground arith
            | inr ((r, rows), e) ↦ ground (
              arith,
              update_one-Unrevoked tables.sessions_table _ _ s.sessions rows r e (λ x old. old) h,
            )
          ]

  refresh_tokens-NoneRevoked :
      (now : ℕ) (token : Key) (s : AuthStore)
      → NoneRevoked s
      → NoneRevoked (refresh_tokens lib tables now token s).1
  unfolding refresh_tokens find_by_hash find_by_wallet
  refresh_tokens-NoneRevoked now token s h =
      elim (Result-cases (
        tables.sessions_table.maybe_single (λ r. r.refresh_token_hash == lib.sha256 token)
          s.sessions)) [
            | inl (x, e) ↦ ground arith
            | inr (none, e) ↦ ground arith
            | inr (some r, e) ↦ grind (
              arith,
              found-Unrevoked tables.sessions_table _ s.sessions r e h,
              delete_session-NoneRevoked,
              update_session-NoneRevoked,
            )
          ]

-- One call of a method of the service, with any arguments and whatever it answers.
pub data Step (lib : Libraries) (tables : AuthTables) : AuthStore → AuthStore → Type 0 where
  nonce_issued :
      (now : ℕ) (id random wallet : Key) (s : AuthStore)
      → Step lib tables s (generate_nonce lib tables now id random wallet s).1
  signature_verified :
      (now : ℕ) (dto : VerifyRequest) (s : AuthStore)
      → Step lib tables s (verify_signature lib tables now dto s).1
  tokens_generated :
      (now : ℕ) (fresh : Fresh) (wallet : Key) (s : AuthStore)
      → Step lib tables s (generate_tokens lib tables now fresh wallet s).1
  registered :
      (now : ℕ) (fresh : Fresh) (dto : RegisterRequest) (s : AuthStore)
      → Step lib tables s (register lib tables now fresh dto s).1
  refreshed :
      (now : ℕ) (token : Key) (s : AuthStore)
      → Step lib tables s (refresh_tokens lib tables now token s).1
  logged_out :
      (now : ℕ) (token : Key) (s : AuthStore) → Step lib tables s (logout lib tables now token s).1

pub data Reach (lib : Libraries) (tables : AuthTables) (s : AuthStore) : AuthStore → Type 0 where
  here : Reach lib tables s s
  next : {t u : AuthStore} → Reach lib tables s t → Step lib tables t u → Reach lib tables s u

module _ {lib : Libraries} {tables : AuthTables} where
  Step-NoneRevoked : {s t : AuthStore} → Step lib tables s t → NoneRevoked s → NoneRevoked t
  Step-NoneRevoked (nonce_issued now id random wallet s) h =
      generate_nonce-NoneRevoked lib tables now id random wallet s h
  Step-NoneRevoked (signature_verified now dto s) h =
      verify_signature-NoneRevoked lib tables now dto s h
  Step-NoneRevoked (tokens_generated now fresh wallet s) h =
      generate_tokens-NoneRevoked lib tables now fresh wallet s h
  Step-NoneRevoked (registered now fresh dto s) h =
      register-NoneRevoked lib tables now fresh dto s h
  Step-NoneRevoked (refreshed now token s) h = refresh_tokens-NoneRevoked lib tables now token s h
  Step-NoneRevoked (logged_out now token s) h = logout-NoneRevoked lib tables now token s h

  Reach-NoneRevoked : {s t : AuthStore} → NoneRevoked s → Reach lib tables s t → NoneRevoked t
  Reach-NoneRevoked h here = h
  Reach-NoneRevoked h (next r step) = Step-NoneRevoked step (Reach-NoneRevoked h r)

-- However the methods of the service are called from a store without revoked sessions, the session
-- that a refresh then finds is not revoked: the branch that revokes a token family is never taken.
pub revoked_at-unreachable :
    (lib : Libraries) (tables : AuthTables) {s t : AuthStore}
    → NoneRevoked s
    → Reach lib tables s t
    → (hash : Key) (session : Session)
    → tables.sessions_table.maybe_single (λ r. r.refresh_token_hash == hash) t.sessions
      ≡ ok (some session)
    → NoneRevoked t × (session.revoked_at ≡ none)
revoked_at-unreachable lib tables {t = t} h r hash session found =
    let reached = Reach-NoneRevoked h r in
    (reached, found-Unrevoked tables.sessions_table _ t.sessions session found reached)
