-- ===== src/Reputation/Sources.antt =====
-- Where an answer of ReputationService.getReputationScore comes from, and that its terms are those
-- of its score.
use trust_up_api.Base.{
  ℕ, ◌+◌, ◌<◌, ◌≡◌, ◌⊎◌, inl, inr, ◌==◌, ltb, none, some, List, [], ◌∷◌, ok, arith, keep, All,
  Bool-cases, Result-cases, maybe_single-some, get-some, set-ok, All-lookup,
}
use trust_up_api.Reputation.Terms.{Reputation, map_to_reputation, fetch_score_from_blockchain}
use trust_up_api.Reputation.Service.{
  Caches, WarmRow, Sources, warm_for, from_blockchain, use_warm, fetch_and_persist,
  after_redis_miss, get_reputation_score, persist_reputation, persist_warm,
}

-- The tier, the rate and the limit of a reputation are those of its score.
abbrev pub IsConsistent : ℕ × Reputation → Type 0
IsConsistent (wallet, r) = r ≡ map_to_reputation wallet r.score r.last_updated

module _ (src : Sources) where
  -- The hot entry of the wallet; its only warm row, less than an hour old; or the blockchain.
  abbrev pub ComesFrom : ℕ → ℕ → Caches → Reputation → Type 0
  ComesFrom now wallet c r =
      (src.redis.get wallet c.hot ≡ ok (some r))
      ⊎ ((row : WarmRow) × (keep (λ x. x.wallet_address == wallet) c.warm ≡ row ∷ [])
          × (now < row.last_synced_at + warm_for)
          × (r ≡ map_to_reputation wallet row.score row.last_synced_at))
      ⊎ (r ≡ from_blockchain src now wallet)

  use_warm-ComesFrom :
      (now wallet : ℕ) (row : WarmRow) (c : Caches)
      → keep (λ x. x.wallet_address == wallet) c.warm ≡ row ∷ []
      → now < row.last_synced_at + warm_for
      → ComesFrom now wallet c (use_warm src now wallet row c).0
  unfolding use_warm
  use_warm-ComesFrom now wallet row c only young =
      elim (Result-cases
        (src.redis.set wallet (map_to_reputation wallet row.score row.last_synced_at) c.hot)) [
          | inl (x, h) ↦ inr (inr (ground arith))
          | inr (entries, h) ↦ inr (inl (row, only, young, ground arith))
        ]

  after_redis_miss-ComesFrom :
      (now wallet : ℕ) (c : Caches) → ComesFrom now wallet c (after_redis_miss src now wallet c).0
  unfolding after_redis_miss
  after_redis_miss-ComesFrom now wallet c =
      elim (Result-cases
        (src.reputation_cache.maybe_single (λ row. row.wallet_address == wallet) c.warm)) [
          | inl (x, h) ↦ inr (inr (ground arith))
          | inr (none, h) ↦ inr (inr (ground arith))
          | inr (some row, h) ↦ elim (Bool-cases (ltb now (row.last_synced_at + warm_for))) [
            | inr old ↦ inr (inr (ground arith))
            | inl young ↦
                rw (h, after_redis_miss)
                  (rw (young, after_redis_miss)
                    (use_warm-ComesFrom now wallet row c
                      (maybe_single-some src.reputation_cache _ c.warm row h) (ground arith)))
          ]
        ]

  -- A reputation comes from the entry in Redis, from the wallet's only row in Supabase if that is
  -- less than an hour old, or from the blockchain, whatever fails on the way.
  pub get_reputation_score-ComesFrom :
      (now wallet : ℕ) (c : Caches)
      → ComesFrom now wallet c (get_reputation_score src now wallet c).0
  unfolding get_reputation_score
  get_reputation_score-ComesFrom now wallet c = elim (Result-cases (src.redis.get wallet c.hot)) [
    | inl (x, h) ↦ inr (inr (ground arith))
    | inr (none, h) ↦
        rw (h, get_reputation_score) (rw (← h) (after_redis_miss-ComesFrom now wallet c))
    | inr (some r, h) ↦ inl (ground arith)
  ]

map_to_reputation-IsConsistent :
    (wallet score t : ℕ) → IsConsistent (wallet, map_to_reputation wallet score t)
unfolding map_to_reputation
map_to_reputation-IsConsistent wallet score t = ground arith

map_to_reputation-wallet : (wallet score t : ℕ) → (map_to_reputation wallet score t).wallet ≡ wallet
unfolding map_to_reputation
map_to_reputation-wallet wallet score t = ground arith

module _ (src : Sources) where
  set-IsConsistent :
      (wallet score t : ℕ) (hot entries : List (ℕ × Reputation))
      → src.redis.set wallet (map_to_reputation wallet score t) hot ≡ ok entries
      → All IsConsistent hot
      → All IsConsistent entries
  set-IsConsistent wallet score t hot entries h old =
      rw (set-ok src.redis wallet _ hot entries h)
        (map_to_reputation-IsConsistent wallet score t, old)

  persist_warm-hot : (r : Reputation) (c : Caches) → (persist_warm src r c).hot ≡ c.hot
  unfolding persist_warm
  persist_warm-hot r c = ground arith

  fetch_and_persist-IsConsistent :
      (now wallet : ℕ) (c : Caches)
      → All IsConsistent c.hot
      → All IsConsistent (fetch_and_persist src now wallet c).1.hot
  unfolding fetch_and_persist map_to_reputation
  fetch_and_persist-IsConsistent now wallet c old =
      let score = fetch_score_from_blockchain (src.char_codes wallet) in
      let r = map_to_reputation wallet score now in
      elim (Result-cases (src.redis.set r.wallet r c.hot)) [
        | inl (x, h) ↦ ground arith
        | inr (entries, h) ↦
            rw (h, fetch_and_persist, persist_reputation)
              (rw persist_warm-hot (
                set-IsConsistent wallet score now c.hot entries
                  (rw (map_to_reputation-wallet wallet score now) at h) old))
      ]

  after_redis_miss-IsConsistent :
      (now wallet : ℕ) (c : Caches)
      → All IsConsistent c.hot
      → All IsConsistent (after_redis_miss src now wallet c).1.hot
  unfolding after_redis_miss
  after_redis_miss-IsConsistent now wallet c old =
      elim (Result-cases
        (src.reputation_cache.maybe_single (λ row. row.wallet_address == wallet) c.warm)) [
          | inl (x, h) ↦ ground (arith, fetch_and_persist-IsConsistent now wallet c old)
          | inr (none, h) ↦ ground (arith, fetch_and_persist-IsConsistent now wallet c old)
          | inr (some row, h) ↦
              elim (Result-cases (
                src.redis.set wallet (map_to_reputation wallet row.score row.last_synced_at)
                  c.hot)) [
                    | inl (x, k) ↦ ground (arith, fetch_and_persist-IsConsistent now wallet c old)
                    | inr (entries, k) ↦ ground (
                      arith,
                      fetch_and_persist-IsConsistent now wallet c old,
                      set-IsConsistent wallet row.score row.last_synced_at c.hot entries k old,
                    )
                  ]
        ]

  -- If the entries in Redis have the terms of their scores, so has every reputation that is
  -- answered, and the entries that it leaves in Redis have too.
  pub get_reputation_score-IsConsistent :
      (now wallet : ℕ) (c : Caches)
      → All IsConsistent c.hot
      → let out = get_reputation_score src now wallet c in
        IsConsistent (wallet, out.0) × All IsConsistent out.1.hot
  unfolding get_reputation_score
  get_reputation_score-IsConsistent now wallet c old =
      let out = get_reputation_score src now wallet c in
      let answer : IsConsistent (wallet, out.0) =
        elim (get_reputation_score-ComesFrom src now wallet c) [
          | inl hot ↦
              All-lookup IsConsistent wallet c.hot old (get-some src.redis wallet c.hot _ hot)
          | inr (inl (row, only, young, e)) ↦
              rw e (map_to_reputation-IsConsistent wallet row.score row.last_synced_at)
          | inr (inr e) ↦ rw e (map_to_reputation-IsConsistent wallet _ now)
        ] in
      (
        answer,
        elim (Result-cases (src.redis.get wallet c.hot)) [
          | inl (x, h) ↦ ground arith
          | inr (none, h) ↦
              rw (h, get_reputation_score) (after_redis_miss-IsConsistent now wallet c old)
          | inr (some r, h) ↦ ground arith
        ],
      )
