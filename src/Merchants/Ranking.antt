-- ===== src/Merchants/Ranking.antt =====
-- The ranks of a leaderboard.
use trust_up_api.Base.{
  ℕ, zero, suc, ◌+◌, ◌-◌, min, ◌≤◌, ◌≡◌, refl, sym, subst, ap, ◌∙◌, inl, inr, ltb, Bool, is_some,
  List, [], ◌∷◌, map, length, keep, All, ok, Result-cases, select-ok, arith,
}
use trust_up_api.Loans.Defs.{Loan}
use trust_up_api.Admin.Defs.{MerchantRow}
use trust_up_api.Merchants.RowLimit.{max_rows}
use trust_up_api.Merchants.Order.{
  better, sort_ranked-Descending, sort_ranked-count, IsBehind, drop-IsBehind,
}
use trust_up_api.Merchants.Leaderboard.{
  MerchantLeaderboardMetric, LeaderboardEntry, RankedEntry, MerchantLeaderboard, MerchantStore,
  MerchantSources, metric_of, entry_of, insert_ranked, sort_ranked, drop, take, number_from,
  board_of, find_all_active, find_stats_for_all_merchants, get_leaderboard,
}

abbrev entry_in : RankedEntry → LeaderboardEntry
entry_in e = e.entry

-- A page holds no more entries of any kind than the list that it is cut from.
number_from-entries : (n : ℕ) (xs : List LeaderboardEntry) → map entry_in (number_from n xs) ≡ xs
number_from-entries n [] = refl
number_from-entries n (x ∷ xs) = ap (λ ys. x ∷ ys) (number_from-entries (n + 1) xs)

take-count_le :
    (p : LeaderboardEntry → Bool) (n : ℕ) (xs : List LeaderboardEntry)
    → length (keep p (take n xs)) ≤ length (keep p xs)
take-count_le p n [] = omega arith
take-count_le p zero (x ∷ xs) = omega arith
take-count_le p (suc n) (x ∷ xs) = ground (arith, take-count_le p n xs)

drop-count_le :
    (p : LeaderboardEntry → Bool) (n : ℕ) (xs : List LeaderboardEntry)
    → length (keep p (drop n xs)) ≤ length (keep p xs)
drop-count_le p n [] = omega arith
drop-count_le p zero (x ∷ xs) = omega arith
drop-count_le p (suc n) (x ∷ xs) = ground (arith, drop-count_le p n xs)

length-number_from : (n : ℕ) (xs : List LeaderboardEntry) → length (number_from n xs) ≡ length xs
length-number_from n [] = refl
length-number_from n (x ∷ xs) = ground (arith, length-number_from (n + 1) xs)

length-take : (n : ℕ) (xs : List LeaderboardEntry) → length (take n xs) ≡ min n (length xs)
length-take n [] = omega arith
length-take zero (x ∷ xs) = omega arith
length-take (suc n) (x ∷ xs) = let rest = length-take n xs in omega (arith, rest)

length-drop : (n : ℕ) (xs : List LeaderboardEntry) → length (drop n xs) ≡ length xs - n
length-drop n [] = omega arith
length-drop zero (x ∷ xs) = omega arith
length-drop (suc n) (x ∷ xs) = let rest = length-drop n xs in omega (arith, rest)

length-insert_ranked :
    (field : LeaderboardEntry → ℕ) (x : LeaderboardEntry) (ys : List LeaderboardEntry)
    → length (insert_ranked field x ys) ≡ 1 + length ys
length-insert_ranked field x [] = omega arith
length-insert_ranked field x (y ∷ ys) = ground (arith, length-insert_ranked field x ys)

length-sort_ranked :
    (field : LeaderboardEntry → ℕ) (xs : List LeaderboardEntry)
    → length (sort_ranked field xs) ≡ length xs
length-sort_ranked field [] = refl
length-sort_ranked field (x ∷ xs) =
    ground (arith, length-sort_ranked field xs, length-insert_ranked field x (sort_ranked field xs))

abbrev pub Ranks : ℕ → List RankedEntry → Type 0
Ranks n [] = Unit
Ranks n (e ∷ es) = (e.rank ≡ n + 1) × Ranks (n + 1) es

number_from-Ranks : (n : ℕ) (xs : List LeaderboardEntry) → Ranks n (number_from n xs)
number_from-Ranks n [] = tt
number_from-Ranks n (x ∷ xs) = (refl, number_from-Ranks (n + 1) xs)

-- A page of the ranking of these entries
abbrev pub IsPage :
    MerchantLeaderboardMetric → ℕ → ℕ → List LeaderboardEntry → MerchantLeaderboard → Type 0
IsPage metric limit offset entries b =
    (b.total ≡ length entries)
    × (length b.entries ≡ min limit (length entries - offset))
    × Ranks offset b.entries
    × ((p : LeaderboardEntry → Bool)
        → length (keep p (map entry_in b.entries)) ≤ length (keep p entries))
    × All (IsBehind (metric_of metric) (λ v. better (metric_of metric) v entries)) b.entries

board_of-IsPage :
    (metric : MerchantLeaderboardMetric) (limit offset : ℕ) (entries : List LeaderboardEntry)
    → IsPage metric limit offset entries (board_of metric limit offset entries)
unfolding board_of
board_of-IsPage metric limit offset entries =
    let field = metric_of metric in
    let sorted = sort_ranked field entries in
    let page = take limit (drop offset sorted) in
    let at_zero : 0 + offset ≡ offset = omega arith in
    (
      refl,
      length-number_from offset page
          ∙ length-take limit (drop offset sorted)
          ∙ ap (min limit)
              (length-drop offset sorted ∙ ap (λ n. n - offset) (length-sort_ranked field entries)),
      number_from-Ranks offset page,
      λ p.
          let same = ap (λ xs. length (keep p xs)) (number_from-entries offset page) in
          let taken = take-count_le p limit (drop offset sorted) in
          let dropped = drop-count_le p offset sorted in
          let kept = sort_ranked-count field p entries in omega (arith, same, taken, dropped, kept),
      subst (λ n. All (IsBehind field (λ v. better field v entries)) (number_from n page)) at_zero
          (drop-IsBehind field (λ v. better field v entries) 0 limit offset sorted
            (sort_ranked-Descending field entries)
            (λ v.
              let kept = sort_ranked-count field (λ x. ltb v (field x)) entries in
              omega (arith, kept))),
    )

abbrev pub active_merchants : MerchantStore → List MerchantRow
active_merchants s = keep (λ m. m.is_active) s.merchants

abbrev pub merchant_loans : MerchantStore → List Loan
merchant_loans s = keep (λ l. is_some l.merchant_id) s.loans

-- The entries of the active merchants, from the loans that have a merchant
abbrev pub active_entries : MerchantStore → List LeaderboardEntry
active_entries s = map (entry_of (merchant_loans s)) (active_merchants s)

-- The answer is a page of the ranking of what the two selects answer with.
get_leaderboard-read :
    (src : MerchantSources) (metric : MerchantLeaderboardMetric) (limit offset : ℕ)
    (s : MerchantStore) (b : MerchantLeaderboard)
    → (get_leaderboard src metric limit offset s).0 ≡ ok b
    → IsPage metric limit offset
        (map
          (entry_of (src.loans_limit.limited (merchant_loans s)))
          (src.merchants_limit.limited (active_merchants s)))
        b
unfolding get_leaderboard find_all_active find_stats_for_all_merchants
get_leaderboard-read src metric limit offset s b returned =
    elim (Result-cases (src.merchants_table.select (λ m. m.is_active) s.merchants)) [
      | inl (e, f) ↦ absurd (ground arith)
      | inr (merchants, f) ↦
          elim (Result-cases (src.loans_table.select (λ l. is_some l.merchant_id) s.loans)) [
            | inl (e, g) ↦ absurd (ground arith)
            | inr (loans, g) ↦
                let active = select-ok src.merchants_table _ s.merchants merchants f in
                let related = select-ok src.loans_table _ s.loans loans g in
                let entries =
                  map (entry_of (src.loans_limit.limited loans))
                    (src.merchants_limit.limited merchants) in
                let same : board_of metric limit offset entries ≡ b = ground arith in
                rw (sym active, sym related)
                  (subst (IsPage metric limit offset entries) same
                    (board_of-IsPage metric limit offset entries))
          ]
    ]

-- A leaderboard that is answered is a page of the ranking of all active merchants, if there are at
-- most as many of them, and as many loans with a merchant, as a select answers with: it counts them
-- all, has as many entries as the limit and the offset leave, with ranks that follow the offset one
-- by one, each an entry of an active merchant and none more often than there, and fewer merchants
-- than its rank have more of the metric.
pub get_leaderboard-IsPage :
    (src : MerchantSources) (metric : MerchantLeaderboardMetric) (limit offset : ℕ)
    (s : MerchantStore) (b : MerchantLeaderboard)
    → length (active_merchants s) ≤ max_rows
    → length (merchant_loans s) ≤ max_rows
    → (get_leaderboard src metric limit offset s).0 ≡ ok b
    → IsPage metric limit offset (active_entries s) b
get_leaderboard-IsPage src metric limit offset s b merchants_fit loans_fit returned =
    let merchants = src.merchants_limit.keeps (active_merchants s) merchants_fit in
    let loans = src.loans_limit.keeps (merchant_loans s) loans_fit in
    let page = get_leaderboard-read src metric limit offset s b returned in
    rw (merchants, loans) at page
