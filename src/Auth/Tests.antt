-- ===== src/Auth/Tests.antt =====
-- The service on small stores, and the theorems of its modules at concrete inputs.
use trust_up_api.Base.{
  ℕ, ◌+◌, ◌*◌, ◌≡◌, ◌≢◌, refl, Option, none, some, true, [], ◌∷◌, ok, err, arith, reliable, DbError,
}
use trust_up_api.Auth.Defs.{
  Nonce, User, UserStatus, UserRole, AuthStore, AuthError, Libraries, AuthTables, TokenType, valid,
}
use trust_up_api.Auth.Repositories.{
  find_by_hash, create_session, update_session, find_by_wallet, delete_by_hash,
  check_username_exists, create_profile,
}
use trust_up_api.Auth.Service.{VerifyRequest, AuthResponse, verify_signature}
use trust_up_api.Auth.Tokens.{
  Fresh, RegisterRequest, generate_tokens, register, refresh_tokens, logout, sign_access,
  sign_refresh,
}
use trust_up_api.Auth.Nonces.{LoggedIn, verify_signature-LoggedIn, verify_signature-once}
use trust_up_api.Auth.Rotation.{
  Rotated, refresh_tokens-Rotated, refresh_tokens-once, logout-ends_session,
}
use trust_up_api.Auth.Revocation.{NoneRevoked, Reach, Step, revoked_at-unreachable}

-- Tokens that show when they were signed, and signatures that are always right.
abbrev toy : Libraries
toy = record {
  sha256 = λ t. t + 1;
  sign = λ type wallet secret lifetime now. elim type [
    | TokenType.access ↦ 2 * now
    | TokenType.refresh ↦ 2 * now + 1
  ];
  verify_async =
      λ secret token now. valid (record { wallet = some 7; type = some TokenType.refresh });
  decode = λ token. none;
  is_valid_ed25519_public_key = λ wallet. true;
  verify_ed25519 = λ wallet nonce signature. some true;
}

abbrev working : AuthTables
working = record { nonces_table = reliable; sessions_table = reliable; users_table = reliable }

abbrev empty : AuthStore
empty = record { nonces = []; sessions = []; users = [] }

abbrev nonce_row : Nonce
nonce_row = record { id = 1; wallet_address = 7; nonce = 55; expires_at = 900; used_at = none }

abbrev with_nonce : AuthStore
with_nonce = record empty { nonces = nonce_row ∷ [] }

abbrev login : VerifyRequest
login = record { wallet = 7; nonce = 55; signature = 3 }

abbrev used : AuthStore
used = record empty { nonces = record nonce_row { used_at = some 800 } ∷ [] }

verify_login : verify_signature toy working 800 login with_nonce ≡ (ok tt, used)
unfolding verify_signature
verify_login = refl

verify_late :
    verify_signature toy working 901 login with_nonce
    ≡ (err AuthError.auth_nonce_expired, with_nonce)
unfolding verify_signature
verify_late = refl

verify_signature-LoggedIn_example : LoggedIn toy working 800 login with_nonce used
verify_signature-LoggedIn_example =
    verify_signature-LoggedIn toy working 800 login with_nonce used verify_login

used-ne : used.nonces ≢ with_nonce.nonces
used-ne e = ground arith

verify_signature-once_example :
    verify_signature toy working 850 (record login { signature = 4 }) used
    ≡ (err AuthError.auth_nonce_not_found, used)
verify_signature-once_example =
    verify_signature-once toy working 800 850 login (record login { signature = 4 }) with_nonce used
      verify_login used-ne refl refl

-- A table of nonces whose writes are all refused.
abbrev read_only : AuthTables
read_only = record working {
  nonces_table = record (reliable {Row = Nonce}) {
    update = λ p f rows. err DbError.other_error;
    updates = λ p f rows. tt;
  };
}

verify_unmarked : verify_signature toy read_only 800 login with_nonce ≡ (ok tt, with_nonce)
unfolding verify_signature
verify_unmarked = refl

abbrev alice : User
alice = record {
  id = 2;
  wallet_address = 7;
  username = some 70;
  display_name = none;
  avatar_url = none;
  status = UserStatus.active;
  role = UserRole.borrower;
  last_seen_at = 5;
}

-- The refresh token signed at time 10 is 21.
abbrev logged_in : AuthStore
logged_in = record {
  nonces = [];
  sessions =
      record {
        id = 4;
        user_id = 2;
        refresh_token_hash = 22;
        expires_at = 604800010;
        token_family = 9;
        revoked_at = none;
      }
      ∷ [];
  users = alice ∷ [];
}

abbrev rotated : AuthStore
rotated = record logged_in {
  sessions =
      record {
        id = 4;
        user_id = 2;
        refresh_token_hash = 42;
        expires_at = 604800020;
        token_family = 9;
        revoked_at = none;
      }
      ∷ [];
}

abbrev rotated_tokens : AuthResponse
rotated_tokens = record { access_token = 40; refresh_token = 41 }

refresh_at_20 : refresh_tokens toy working 20 21 logged_in ≡ (ok rotated_tokens, rotated)
unfolding refresh_tokens find_by_hash find_by_wallet update_session sign_access sign_refresh
refresh_at_20 = refl

refresh_tokens-Rotated_example : Rotated toy working 20 21 logged_in rotated rotated_tokens
refresh_tokens-Rotated_example =
    refresh_tokens-Rotated toy working 20 21 logged_in rotated rotated_tokens refresh_at_20

refresh_tokens-once_example :
    refresh_tokens toy working 30 21 rotated ≢ (ok rotated_tokens, rotated)
refresh_tokens-once_example =
    refresh_tokens-once toy working 20 30 21 logged_in rotated rotated_tokens refresh_at_20
      (omega arith) rotated rotated_tokens

abbrev logged_out : AuthStore
logged_out = record logged_in { sessions = [] }

logout_at_20 : logout toy working 20 21 logged_in ≡ (ok tt, logged_out)
unfolding logout delete_by_hash
logout_at_20 = refl

logout-ends_session_example :
    refresh_tokens toy working 30 21 logged_out ≢ (ok rotated_tokens, rotated)
logout-ends_session_example =
    logout-ends_session toy working 20 30 21 logged_in logged_out
      (record { wallet = some 7; type = some TokenType.refresh }) refl logout_at_20 rotated
      rotated_tokens

revoked_at-unreachable_example :
    NoneRevoked (refresh_tokens toy working 20 21 logged_in).1 × ◌≡◌ {A = Option ℕ} none none
unfolding refresh_tokens find_by_hash find_by_wallet update_session sign_access sign_refresh
revoked_at-unreachable_example =
    revoked_at-unreachable toy working {s = logged_in} (refl, tt)
      (Reach.next Reach.here (Step.refreshed 20 21 logged_in)) 42 _ refl

abbrev fresh_ids : Fresh
fresh_ids = record { user_id = 2; session_id = 4; token_family = 9 }

abbrev signed_up : AuthStore
signed_up = record logged_in { users = record alice { username = none; last_seen_at = 10 } ∷ [] }

abbrev first_tokens : AuthResponse
first_tokens = record { access_token = 20; refresh_token = 21 }

first_login : generate_tokens toy working 10 fresh_ids 7 empty ≡ (ok first_tokens, signed_up)
unfolding generate_tokens create_session sign_access sign_refresh
first_login = refl

abbrev sign_up : RegisterRequest
sign_up = record { wallet_address = 7; username = 70; display_name = 71; profile_image = none }

abbrev registered_user : User
registered_user = record alice { display_name = some 71; last_seen_at = 10 }

abbrev registered_store : AuthStore
registered_store = record logged_in { users = registered_user ∷ [] }

register_at_10 :
    register toy working 10 fresh_ids sign_up empty
    ≡ (ok (registered_user, first_tokens), registered_store)
unfolding register find_by_wallet check_username_exists create_profile generate_tokens
    create_session sign_access sign_refresh
register_at_10 = refl
