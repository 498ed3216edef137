-- ===== src/Auth/Repositories.antt =====
-- database/repositories/sessions.repository.ts and the queries of users.repository.ts that the
-- service calls. `throwOnError` (base.repository.ts) turns an error into DATABASE_QUERY_ERROR.
use trust_up_api.Base.{
  ℕ, ◌==◌, Option, none, some, Bool, false, Table, ◌>>=◌, ◌>>◌, pure, reading, writing,
  updating_one, is_some,
}
use trust_up_api.Auth.Defs.{
  Key, Session, User, Auth, put_sessions, put_users, database_query_error, database_insert_error,
}

module _ (sessions_table : Table Session) where
  -- SessionsRepository.findByHash
  unfoldable pub find_by_hash : Key → Auth (Option Session)
  find_by_hash hash =
      reading (λ s. sessions_table.maybe_single (λ r. r.refresh_token_hash == hash) s.sessions)
        database_query_error

  -- SessionsRepository.create
  unfoldable pub create_session : Session → Auth (Unit {0})
  create_session row =
      writing put_sessions (λ s. sessions_table.insert row s.sessions) database_query_error

  -- SessionsRepository.delete
  unfoldable pub delete_session : Key → Auth (Unit {0})
  delete_session id =
      writing put_sessions (λ s. sessions_table.delete (λ r. r.id == id) s.sessions)
        database_query_error

  -- SessionsRepository.deleteByHash
  unfoldable pub delete_by_hash : Key → Auth (Unit {0})
  delete_by_hash hash =
      writing put_sessions
        (λ s. sessions_table.delete (λ r. r.refresh_token_hash == hash) s.sessions)
        database_query_error

  -- SessionsRepository.revokeFamily
  unfoldable pub revoke_family : ℕ → Key → Auth (Unit {0})
  revoke_family now family =
      writing put_sessions
        (λ s.
          sessions_table.update (λ r. r.token_family == family)
            (λ r. record r { revoked_at = some now }) s.sessions)
        database_query_error

  -- SessionsRepository.update
  unfoldable pub update_session : Key → Key → ℕ → Auth Session
  update_session id hash expires =
      updating_one put_sessions
        (λ s.
          sessions_table.update_one (λ r. r.id == id)
            (λ r. record r { refresh_token_hash = hash; expires_at = expires }) s.sessions)
        database_query_error

-- `.eq('username', name)`
abbrev pub has_username : Key → User → Bool
has_username name u = elim u.username [ none ↦ false | some n ↦ n == name ]

module _ (users_table : Table User) where
  -- UsersRepository.findByWallet
  unfoldable pub find_by_wallet : Key → Auth (Option User)
  find_by_wallet wallet =
      reading (λ s. users_table.maybe_single (λ u. u.wallet_address == wallet) s.users)
        database_query_error

  -- UsersRepository.checkUsernameExists
  unfoldable pub check_username_exists : Key → Auth Bool
  check_username_exists name = do
    found ← reading (λ s. users_table.maybe_single (has_username name) s.users) database_query_error
    pure (is_some found)

  -- UsersRepository.createProfile, which answers with the row that it inserted
  unfoldable pub create_profile : User → Auth User
  create_profile u =
      writing put_users (λ s. users_table.insert u s.users) database_insert_error >> pure u
