-- ===== src/Reputation/Service.antt =====
-- ReputationService.getReputationScore and persistReputation
-- (modules/reputation/reputation.service.ts): Redis, then Supabase, then the blockchain.
use trust_up_api.Base.{
  ℕ, ◌+◌, ◌*◌, ◌==◌, ltb, none, some, List, ok, err, Table, Cache, if◌then◌else◌,
}
use trust_up_api.Reputation.Terms.{Tier, Reputation, map_to_reputation, fetch_score_from_blockchain}

-- A row of `reputation_cache`.
pub record WarmRow : Type 0 where
  pub user_id : ℕ
  pub wallet_address : ℕ
  pub score : ℕ
  pub tier : Tier
  pub last_synced_at : ℕ

-- The columns of `users` that are read here.
pub record UserRow : Type 0 where
  pub id : ℕ
  pub wallet_address : ℕ

pub record Caches : Type 0 where
  pub hot : List (ℕ × Reputation)
  pub warm : List WarmRow
  pub users : List UserRow

pub record Sources : Type 0 where
  pub redis : Cache Reputation
  pub reputation_cache : Table WarmRow
  pub users_table : Table UserRow
  -- the UTF-16 codes of a wallet's text
  pub char_codes : ℕ → List ℕ

-- 60 minutes, in milliseconds
abbrev pub warm_for : ℕ
warm_for = 60 * 60 * 1000

module _ (src : Sources) where
  pub from_blockchain : ℕ → ℕ → Reputation
  from_blockchain now wallet =
      map_to_reputation wallet (fetch_score_from_blockchain (src.char_codes wallet)) now

  abbrev pub warm_row : Reputation → ℕ → WarmRow
  warm_row r user = record {
    user_id = user;
    wallet_address = r.wallet;
    score = r.score;
    tier = r.tier;
    last_synced_at = r.last_updated;
  }

  abbrev pub rewrite_row : Reputation → WarmRow → WarmRow
  rewrite_row r row = record row {
    wallet_address = r.wallet;
    score = r.score;
    tier = r.tier;
    last_synced_at = r.last_updated;
  }

  -- The upsert of `persistReputation`, whose error is not looked at.
  unfoldable pub upsert_warm : Reputation → UserRow → Caches → Caches
  upsert_warm r user c =
      elim (src.reputation_cache.upsert (λ row. row.user_id == user.id) (warm_row r user.id)
        (rewrite_row r) c.warm) [ ok (row, rows) ↦ record c { warm = rows } | err _ ↦ c ]

  -- After the entry in Redis: `single()` leaves `user` null on an error.
  unfoldable pub persist_warm : Reputation → Caches → Caches
  unfolding upsert_warm
  persist_warm r c =
      elim (src.users_table.maybe_single (λ u. u.wallet_address == r.wallet) c.users) [
        | ok (some user) ↦ upsert_warm r user c
        | _ ↦ c
      ]

  -- An exception of the cache manager ends the method; it is logged.
  unfoldable pub persist_reputation : Reputation → Caches → Caches
  unfolding persist_warm
  persist_reputation r c = elim (src.redis.set r.wallet r c.hot) [
    | ok entries ↦ persist_warm r (record c { hot = entries })
    | err _ ↦ c
  ]

  -- Steps 3 and 4.
  unfoldable pub fetch_and_persist : ℕ → ℕ → Caches → Reputation × Caches
  unfolding from_blockchain persist_reputation
  fetch_and_persist now wallet c = let r = from_blockchain now wallet in (r, persist_reputation r c)

  -- Step 2 with a row that is young enough; an exception of the back-fill reaches the outer `catch`.
  unfoldable pub use_warm : ℕ → ℕ → WarmRow → Caches → Reputation × Caches
  unfolding from_blockchain
  use_warm now wallet row c =
      let r = map_to_reputation wallet row.score row.last_synced_at in
      elim (src.redis.set wallet r c.hot) [
        | ok entries ↦ (r, record c { hot = entries })
        | err _ ↦ (from_blockchain now wallet, c)
      ]

  unfoldable pub after_redis_miss : ℕ → ℕ → Caches → Reputation × Caches
  unfolding fetch_and_persist use_warm
  after_redis_miss now wallet c =
      elim (src.reputation_cache.maybe_single (λ row. row.wallet_address == wallet) c.warm) [
        | ok (some row) ↦
            if ltb now (row.last_synced_at + warm_for)
            then use_warm now wallet row c
            else fetch_and_persist now wallet c
        | _ ↦ fetch_and_persist now wallet c
      ]

  unfoldable pub get_reputation_score : ℕ → ℕ → Caches → Reputation × Caches
  unfolding from_blockchain after_redis_miss
  get_reputation_score now wallet c = elim (src.redis.get wallet c.hot) [
    | ok (some cached) ↦ (cached, c)
    | ok none ↦ after_redis_miss now wallet c
    | err _ ↦ (from_blockchain now wallet, c)
  ]

  -- `invalidateReputation`: an exception of the cache manager leaves both caches alone.
  unfoldable pub invalidate_reputation : ℕ → Caches → Caches
  invalidate_reputation wallet c = elim (src.redis.del wallet c.hot) [
    | ok entries ↦
        let c' : Caches = record c { hot = entries } in
        elim (src.reputation_cache.delete (λ row. row.wallet_address == wallet) c.warm) [
          | ok rows ↦ record c' { warm = rows }
          | err _ ↦ c'
        ]
    | err _ ↦ c
  ]
