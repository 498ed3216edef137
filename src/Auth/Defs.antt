-- ===== src/Auth/Defs.antt =====
-- src/modules/auth/auth.service.ts and its tables: the data that AuthService works on, and what it
-- takes from the crypto, JWT and Stellar libraries.
use trust_up_api.Base.{ℕ, Option, Bool, List, Table, Action}

-- Wallet addresses, UUIDs, tokens, hashes and names are only compared, so they are numbers.
abbrev pub Key : Type 0
Key = ℕ

-- common/enums/user-role.enum.ts
pub data UserRole : Type 0 where
  admin merchant lp_provider borrower : UserRole

pub data UserStatus : Type 0 where
  active blocked : UserStatus

-- A row of `nonces`; times are milliseconds since the epoch.
pub record Nonce : Type 0 where
  pub id : Key
  pub wallet_address : Key
  pub nonce : Key
  pub expires_at : ℕ
  pub used_at : Option ℕ

-- A row of `sessions`.
pub record Session : Type 0 where
  pub id : Key
  pub user_id : Key
  pub refresh_token_hash : Key
  pub expires_at : ℕ
  pub token_family : Key
  pub revoked_at : Option ℕ

-- A row of `users`.
pub record User : Type 0 where
  pub id : Key
  pub wallet_address : Key
  pub username : Option Key
  pub display_name : Option Key
  pub avatar_url : Option Key
  pub status : UserStatus
  pub role : UserRole
  pub last_seen_at : ℕ

pub record AuthStore : Type 0 where
  pub nonces : List Nonce
  pub sessions : List Session
  pub users : List User

abbrev pub put_nonces : AuthStore → List Nonce → AuthStore
put_nonces s rows = record s { nonces = rows }

abbrev pub put_sessions : AuthStore → List Session → AuthStore
put_sessions s rows = record s { sessions = rows }

abbrev pub put_users : AuthStore → List User → AuthStore
put_users s rows = record s { users = rows }

-- The `code` of each exception that the service throws.
pub data AuthError : Type 0 where
  database_query_error database_nonce_insert_failed database_user_upsert_failed : AuthError
  database_insert_error storage_upload_failed : AuthError
  auth_wallet_exists auth_username_taken : AuthError
  auth_nonce_not_found auth_nonce_expired auth_signature_invalid : AuthError
  auth_user_blocked auth_user_not_found : AuthError
  auth_token_expired auth_token_invalid auth_token_revoked : AuthError

abbrev pub Auth : Type 0 → Type 0
Auth A = Action AuthStore AuthError A

pub data TokenType : Type 0 where
  access refresh : TokenType

pub data Secret : Type 0 where
  jwt_secret jwt_refresh_secret : Secret

-- The claims of a token that was issued elsewhere may lack either field.
pub record Payload : Type 0 where
  pub wallet : Option Key
  pub type : Option TokenType

-- What `verifyAsync` does: resolve to a payload, or throw TokenExpiredError or another error.
pub data Verified : Type 0 where
  valid : Payload → Verified
  token_expired_error other_failure : Verified

-- node:crypto, @nestjs/jwt and stellar-sdk.
pub record Libraries : Type 0 where
  pub sha256 : Key → Key
  -- type, wallet, secret, lifetime in milliseconds, time of signing
  pub sign : TokenType → Key → Secret → ℕ → ℕ → Key
  -- secret, token, time of the call
  pub verify_async : Secret → Key → ℕ → Verified
  pub decode : Key → Option Payload
  pub is_valid_ed25519_public_key : Key → Bool
  -- wallet, nonce, signature; `none` where `fromPublicKey` or `verify` throws
  pub verify_ed25519 : Key → Key → Key → Option Bool

pub record AuthTables : Type 0 where
  pub nonces_table : Table Nonce
  pub sessions_table : Table Session
  pub users_table : Table User
