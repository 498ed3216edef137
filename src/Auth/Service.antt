-- ===== src/Auth/Service.antt =====
-- AuthService (modules/auth/auth.service.ts), method by method. Each method reads the clock once,
-- as `now`; random values and the identifiers that the database makes are arguments.
use trust_up_api.Base.{
  ℕ, ◌+◌, ◌*◌, ltb, ◌==◌, ◌&&◌, Option, none, some, Bool, true, false, not, ◌>>=◌, ◌>>◌, pure,
  throw, throw_if, reading, writing, unchecked, is_some,
}
use trust_up_api.Auth.Defs.{
  Key, Nonce, UserStatus, AuthError, Auth, put_nonces, Libraries, AuthTables, TokenType,
}

-- NONCE_EXPIRATION_SECONDS, in milliseconds
abbrev pub nonce_expiration_ms : ℕ
nonce_expiration_ms = 300 * 1000

-- ACCESS_TOKEN_EXPIRATION, in milliseconds, and REFRESH_TOKEN_EXPIRATION_MS
abbrev pub access_token_expiration_ms : ℕ
access_token_expiration_ms = 15 * 60 * 1000

abbrev pub refresh_token_expiration_ms : ℕ
refresh_token_expiration_ms = 7 * 24 * 60 * 60 * 1000

pub record NonceResponse : Type 0 where
  pub nonce : Key
  pub expires_at : ℕ

pub record AuthResponse : Type 0 where
  pub access_token : Key
  pub refresh_token : Key

pub record VerifyRequest : Type 0 where
  pub wallet : Key
  pub nonce : Key
  pub signature : Key

abbrev pub is_refresh : Option TokenType → Bool
is_refresh (some TokenType.refresh) = true
is_refresh _ = false

abbrev pub is_blocked : UserStatus → Bool
is_blocked UserStatus.blocked = true
is_blocked UserStatus.active = false

abbrev pub expired : ℕ → ℕ → Bool
expired expires_at now = ltb expires_at now

-- `.eq('wallet_address', …).eq('nonce', …).is('used_at', null)`
abbrev pub is_open_nonce : Key → Key → Nonce → Bool
is_open_nonce wallet nonce r =
    (r.wallet_address == wallet) && (r.nonce == nonce) && not (is_some r.used_at)

module _ (lib : Libraries) (tables : AuthTables) where
  unfoldable pub generate_nonce : ℕ → Key → Key → Key → Auth NonceResponse
  generate_nonce now id random wallet = do
    let row : Nonce = record {
      id = id;
      wallet_address = wallet;
      nonce = random;
      expires_at = now + nonce_expiration_ms;
      used_at = none;
    }
    writing put_nonces (λ s. tables.nonces_table.insert row s.nonces)
        AuthError.database_nonce_insert_failed
    pure (record { nonce = random; expires_at = now + nonce_expiration_ms })

  -- `single()` answers with an error for no row: both throw AUTH_NONCE_NOT_FOUND.
  abbrev pub found_nonce : Option Nonce → Auth Nonce
  found_nonce none = throw AuthError.auth_nonce_not_found
  found_nonce (some r) = pure r

  abbrev pub checked_signature : Option Bool → Auth (Unit {0})
  checked_signature (some true) = pure tt
  checked_signature (some false) = throw AuthError.auth_signature_invalid
  checked_signature none = throw AuthError.auth_signature_invalid

  unfoldable pub verify_signature : ℕ → VerifyRequest → Auth (Unit {0})
  verify_signature now dto = do
    found ←
        reading
          (λ s. tables.nonces_table.maybe_single (is_open_nonce dto.wallet dto.nonce) s.nonces)
          AuthError.auth_nonce_not_found
    nonce_record ← found_nonce found
    throw_if (expired nonce_record.expires_at now) AuthError.auth_nonce_expired
    throw_if (not (lib.is_valid_ed25519_public_key dto.wallet)) AuthError.auth_signature_invalid
    checked_signature (lib.verify_ed25519 dto.wallet dto.nonce dto.signature)
    unchecked put_nonces (λ s.
        tables.nonces_table.update (λ r. r.id == nonce_record.id)
          (λ r. record r { used_at = some now }) s.nonces)
