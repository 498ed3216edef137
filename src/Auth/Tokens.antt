-- ===== src/Auth/Tokens.antt =====
-- AuthService (modules/auth/auth.service.ts): registration, token issue, rotation and logout.
use trust_up_api.Base.{
  ℕ, ◌+◌, ◌==◌, Option, none, some, Bool, false, Result, ok, err, ◌>>=◌, ◌>>◌, pure, throw,
  throw_if, is_some, DbError, if◌then◌else◌,
}
use trust_up_api.Auth.Defs.{
  Key, Session, User, UserStatus, UserRole, AuthError, Auth, put_users, Libraries, AuthTables,
  TokenType, Payload, Verified, jwt_secret, jwt_refresh_secret, valid, token_expired_error,
  other_failure,
}
use trust_up_api.Auth.Repositories.{
  find_by_hash, create_session, delete_session, delete_by_hash, revoke_family, update_session,
  find_by_wallet, check_username_exists, create_profile,
}
use trust_up_api.Auth.Service.{
  access_token_expiration_ms, refresh_token_expiration_ms, AuthResponse, is_refresh, is_blocked,
  expired,
}

-- `payload.type !== 'refresh' || !payload.wallet`, and the wallet otherwise
abbrev pub refresh_wallet : Payload → Option Key
refresh_wallet p = if is_refresh p.type then p.wallet else none

abbrev pub verified_wallet : Verified → Auth Key
verified_wallet (valid p) = elim (refresh_wallet p) [
  | some wallet ↦ pure wallet
  | none ↦ throw AuthError.auth_token_invalid
]
verified_wallet token_expired_error = throw AuthError.auth_token_expired
verified_wallet other_failure = throw AuthError.auth_token_invalid

abbrev pub required : {A : Type 0} → AuthError → Option A → Auth A
required e (some a) = pure a
required e none = throw e

-- The result of the upload of the avatar, a call to Supabase Storage: its URL, or an error.
abbrev pub uploaded : Option (Result DbError Key) → Auth (Option Key)
uploaded none = pure none
uploaded (some (ok url)) = pure (some url)
uploaded (some (err e)) = throw AuthError.storage_upload_failed

pub record RegisterRequest : Type 0 where
  pub wallet_address : Key
  pub username : Key
  pub display_name : Key
  -- the profile image, by what its upload answers
  pub profile_image : Option (Result DbError Key)

-- What the database and `randomUUID` choose for new rows.
pub record Fresh : Type 0 where
  pub user_id : Key
  pub session_id : Key
  pub token_family : Key

-- The row of `findOrCreateUser` with the defaults of the table, and what a conflict updates.
abbrev pub new_user : ℕ → Key → Key → User
new_user now id wallet = record {
  id = id;
  wallet_address = wallet;
  username = none;
  display_name = none;
  avatar_url = none;
  status = UserStatus.active;
  role = UserRole.borrower;
  last_seen_at = now;
}

abbrev pub seen_now : ℕ → User → User
seen_now now u = record u { last_seen_at = now }

module _ (lib : Libraries) (tables : AuthTables) where
  -- The upsert of `findOrCreateUser`, on the whole store.
  upsert_user : ℕ → Key → Key → Auth User
  upsert_user now id wallet s =
      elim (tables.users_table.upsert (λ u. u.wallet_address == wallet) (new_user now id wallet)
        (seen_now now) s.users) [
          | ok (u, rows) ↦ (ok u, put_users s rows)
          | err _ ↦ (err AuthError.database_user_upsert_failed, s)
        ]

  unfoldable pub find_or_create_user : ℕ → Key → Key → Auth Key
  unfolding upsert_user
  find_or_create_user now id wallet = do
    user ← upsert_user now id wallet
    throw_if (is_blocked user.status) AuthError.auth_user_blocked
    pure user.id

  unfoldable pub sign_access : Key → ℕ → Key
  sign_access wallet now =
      lib.sign TokenType.access wallet jwt_secret access_token_expiration_ms now

  unfoldable pub sign_refresh : Key → ℕ → Key
  sign_refresh wallet now =
      lib.sign TokenType.refresh wallet jwt_refresh_secret refresh_token_expiration_ms now

  unfoldable pub generate_tokens : ℕ → Fresh → Key → Auth AuthResponse
  unfolding find_or_create_user
  generate_tokens now fresh wallet = do
    user_id ← find_or_create_user now fresh.user_id wallet
    create_session tables.sessions_table (record {
      id = fresh.session_id;
      user_id = user_id;
      refresh_token_hash = lib.sha256 (sign_refresh wallet now);
      expires_at = now + refresh_token_expiration_ms;
      token_family = fresh.token_family;
      revoked_at = none;
    })
    pure (record { access_token = sign_access wallet now; refresh_token = sign_refresh wallet now })

  unfoldable pub register : ℕ → Fresh → RegisterRequest → Auth (User × AuthResponse)
  register now fresh dto = do
    existing ← find_by_wallet tables.users_table dto.wallet_address
    throw_if (is_some existing) AuthError.auth_wallet_exists
    taken ← check_username_exists tables.users_table dto.username
    throw_if taken AuthError.auth_username_taken
    avatar ← uploaded dto.profile_image
    user ← create_profile tables.users_table (record {
      id = fresh.user_id;
      wallet_address = dto.wallet_address;
      username = some dto.username;
      display_name = some dto.display_name;
      avatar_url = avatar;
      status = UserStatus.active;
      role = UserRole.borrower;
      last_seen_at = now;
    })
    tokens ← generate_tokens now fresh dto.wallet_address
    pure (user, tokens)

  -- The branch on `session.revoked_at !== null`.
  abbrev pub refuse_revoked : ℕ → Session → Auth (Unit {0})
  refuse_revoked now session =
      if is_some session.revoked_at
      then revoke_family tables.sessions_table now session.token_family
        >> throw AuthError.auth_token_revoked
      else pure tt

  -- The branch on an `expires_at` in the past.
  abbrev pub refuse_expired : ℕ → Session → Auth (Unit {0})
  refuse_expired now session =
      if expired session.expires_at now
      then delete_session tables.sessions_table session.id >> throw AuthError.auth_token_expired
      else pure tt

  unfoldable pub refresh_tokens : ℕ → Key → Auth AuthResponse
  refresh_tokens now token = do
    wallet ← verified_wallet (lib.verify_async jwt_refresh_secret token now)
    found ← find_by_hash tables.sessions_table (lib.sha256 token)
    session ← required AuthError.auth_token_revoked found
    refuse_revoked now session
    refuse_expired now session
    known ← find_by_wallet tables.users_table wallet
    user ← required AuthError.auth_user_not_found known
    throw_if (is_blocked user.status) AuthError.auth_user_blocked
    let new_refresh = sign_refresh user.wallet_address now
    update_session tables.sessions_table session.id (lib.sha256 new_refresh)
        (now + refresh_token_expiration_ms)
    pure
        (record { access_token = sign_access user.wallet_address now; refresh_token = new_refresh })

  abbrev pub decoded_is_refresh : Option Payload → Bool
  decoded_is_refresh none = false
  decoded_is_refresh (some p) = is_refresh p.type

  abbrev pub logout_verified : Key → Verified → Auth (Unit {0})
  logout_verified token (valid p) =
      if is_refresh p.type
      then delete_by_hash tables.sessions_table (lib.sha256 token)
      else throw AuthError.auth_token_invalid
  logout_verified token token_expired_error =
      if decoded_is_refresh (lib.decode token)
      then delete_by_hash tables.sessions_table (lib.sha256 token)
      else pure tt
  logout_verified token other_failure = throw AuthError.auth_token_invalid

  unfoldable pub logout : ℕ → Key → Auth (Unit {0})
  logout now token = logout_verified token (lib.verify_async jwt_refresh_secret token now)
