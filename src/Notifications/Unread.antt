-- ===== src/Notifications/Unread.antt =====
-- Marking notifications as read, and the number of unread ones.
use trust_up_api.Base.{
  ℕ, ◌+◌, ◌==◌, ◌≡◌, ◌≢◌, ◌⊎◌, inl, inr, refl, sym, ap, ◌∙◌, ==_iff, Bool, Bool-cases, false, List,
  [], ◌∷◌, keep, change, length, Result, ok, err, Result-cases, single-cases, maybe_single-some,
  update-ok, arith, keep-change_apart, keep-change_leaving, keep-change_apart_one,
  length-keep-change_one,
}
use trust_up_api.Notifications.Defs.{
  NotificationRow, NotificationStore, NotificationError, NotificationSources,
}
use trust_up_api.Notifications.Service.{
  MarkAsReadResponse, is_unread_of, mark_read, find_by_id, mark_found, write_read, mark_as_read,
  mark_all_as_read,
}

-- The unread notifications of a wallet
abbrev pub unread_of : ℕ → NotificationStore → List NotificationRow
unread_of wallet s = keep (is_unread_of wallet) s.notifications

-- The wallet has so many unread notifications less, and the others have theirs.
abbrev pub Fell : ℕ → ℕ → NotificationStore → NotificationStore → Type 0
Fell wallet n s t =
    (length (unread_of wallet s) ≡ n + length (unread_of wallet t))
    × ((other : ℕ) → other ≢ wallet → unread_of other t ≡ unread_of other s)

not_unread : (now wallet : ℕ) (n : NotificationRow) → is_unread_of wallet (mark_read now n) ≡ false
not_unread now wallet n = ground arith

module _ (src : NotificationSources) (now wallet id : ℕ) where
  write_read-Fell :
      (s : NotificationStore) (n : NotificationRow)
      → keep (λ x. x.id == id) s.notifications ≡ n ∷ []
      → n.user_wallet ≡ wallet
      → n.is_read ≡ false
      → (write_read src now id s).0 ≡ ok tt
      → Fell wallet 1 s (write_read src now id s).1
  unfolding write_read
  write_read-Fell s n only mine unread returned =
      let p : NotificationRow → Bool = λ x. x.id == id in
      let f = mark_read now in
      let t = (write_read src now id s).1 in
      elim (Result-cases (src.notifications_table.update p f s.notifications)) [
        | inl (x, failed) ↦ absurd (ground arith)
        | inr (rows, done) ↦
            let after = update-ok src.notifications_table p f s.notifications rows done in
            let left : t.notifications ≡ change p f s.notifications = ground arith in
            (
              length-keep-change_one p (is_unread_of wallet) f s.notifications only
                    (ground (arith, ==_iff n.user_wallet wallet)) (not_unread now wallet n)
                  ∙ sym (ap (λ ns. 1 + length (keep (is_unread_of wallet) ns)) left),
              λ other differs.
                  ap (keep (is_unread_of other)) left
                  ∙ keep-change_apart_one p (is_unread_of other) f s.notifications only
                      (ground (arith, ==_iff n.user_wallet other)) (not_unread now other n),
            )
      ]

  unchanged_Fell : (s : NotificationStore) → Fell wallet 0 s s
  unchanged_Fell s = (omega arith, λ other differs. refl)

  mark_found-Fell :
      (s : NotificationStore) (n : NotificationRow) (r : MarkAsReadResponse)
      → keep (λ x. x.id == id) s.notifications ≡ n ∷ []
      → (mark_found src now wallet id n s).0 ≡ ok r
      → Fell wallet r.updated_count s (mark_found src now wallet id n s).1
  unfolding mark_found
  mark_found-Fell s n r only returned = elim (Bool-cases (n.user_wallet == wallet)) [
    | inr other ↦ absurd (ground arith)
    | inl mine ↦ elim (Bool-cases n.is_read) [
      | inl read ↦
          let left : (mark_found src now wallet id n s).1 ≡ s = ground arith in
          let none_updated : r.updated_count ≡ 0 = ground arith in
          rw (left, none_updated) (unchanged_Fell s)
      | inr unread ↦ elim (Result-cases (write_read src now id s).0) [
        | inl (x, failed) ↦ absurd (ground arith)
        | inr (u, done) ↦
            let left : (mark_found src now wallet id n s).1 ≡ (write_read src now id s).1 =
              ground arith in
            let one_updated : r.updated_count ≡ 1 = ground arith in
            rw (left, one_updated)
              (write_read-Fell s n only ((==_iff n.user_wallet wallet).0 mine) unread done)
      ]
    ]
  ]

  mark_as_read-Fell :
      (s : NotificationStore) (r : MarkAsReadResponse)
      → (mark_as_read src now wallet id s).0 ≡ ok r
      → Fell wallet r.updated_count s (mark_as_read src now wallet id s).1
  unfolding mark_as_read find_by_id
  mark_as_read-Fell s r returned =
      elim (single-cases (src.notifications_table.maybe_single (λ x. x.id == id) s.notifications)) [
        | inr (inl f) ↦ absurd (ground arith)
        | inr (inr (x, f)) ↦ absurd (ground arith)
        | inl (n, f) ↦
            let left : mark_as_read src now wallet id s ≡ mark_found src now wallet id n s =
              rw f refl in
            rw left (
              mark_found-Fell s n r (maybe_single-some src.notifications_table _ _ n f)
                (sym (ap (λ m. m.0) left) ∙ returned))
      ]

  mark_all_as_read-Fell :
      (s : NotificationStore) (r : MarkAsReadResponse)
      → (mark_all_as_read src now wallet s).0 ≡ ok r
      → Fell wallet r.updated_count s (mark_all_as_read src now wallet s).1
        × (unread_of wallet (mark_all_as_read src now wallet s).1 ≡ [])
  unfolding mark_all_as_read
  mark_all_as_read-Fell s r returned =
      let p = is_unread_of wallet in
      let f = mark_read now in
      let t = (mark_all_as_read src now wallet s).1 in
      elim (Result-cases (src.update_counting p f s.notifications)) [
        | inl (x, failed) ↦ absurd (ground arith)
        | inr ((n, rows), done) ↦
            let law = src.counts p f s.notifications in
            let (counted, after) = rw done at law in
            let left : t.notifications ≡ change p f s.notifications = ground arith in
            let number : r.updated_count ≡ length (keep p s.notifications) = ground arith in
            let none_left : unread_of wallet t ≡ [] =
              ap (keep p) left ∙ keep-change_leaving p f (not_unread now wallet) s.notifications in
            (
              (
                ground (arith, number, none_left),
                λ other differs.
                    ap (keep (is_unread_of other)) left
                    ∙ keep-change_apart p (is_unread_of other) f
                        (λ x hit.
                          ground (arith, ==_iff x.user_wallet wallet, ==_iff x.user_wallet other))
                        (λ x hit. not_unread now other x) s.notifications,
              ),
              none_left,
            )
      ]

  mark_as_read-failed :
      (s : NotificationStore) (e : NotificationError)
      → (mark_as_read src now wallet id s).0 ≡ err e
      → (mark_as_read src now wallet id s).1 ≡ s
  unfolding mark_as_read find_by_id mark_found write_read
  mark_as_read-failed s e failed = ground arith

  mark_all_as_read-failed :
      (s : NotificationStore) (e : NotificationError)
      → (mark_all_as_read src now wallet s).0 ≡ err e
      → (mark_all_as_read src now wallet s).1 ≡ s
  unfolding mark_all_as_read
  mark_all_as_read-failed s e failed = ground arith

-- It threw and changed nothing, or it answered a number by which the unread ones of the wallet went
-- down.
abbrev pub Accounts :
    ℕ → NotificationStore → Result NotificationError MarkAsReadResponse × NotificationStore → Type 0
Accounts wallet s done =
    ((e : NotificationError) × (done.0 ≡ err e) × (done.1 ≡ s))
    ⊎ ((r : MarkAsReadResponse) × (done.0 ≡ ok r) × Fell wallet r.updated_count s done.1)

-- In the second case, none is left.
abbrev pub Clears :
    ℕ → NotificationStore → Result NotificationError MarkAsReadResponse × NotificationStore → Type 0
Clears wallet s done =
    ((e : NotificationError) × (done.0 ≡ err e) × (done.1 ≡ s))
    ⊎ ((r : MarkAsReadResponse) × (done.0 ≡ ok r)
        × Fell wallet r.updated_count s done.1
        × (unread_of wallet done.1 ≡ []))

-- Marking one notification, or all, as read throws and changes nothing, or answers the number by
-- which the unread notifications of the wallet went down, where those of other wallets stay; after
-- all were marked, none is left.
pub mark_as_read-counts :
    (src : NotificationSources) (now wallet id : ℕ) (s : NotificationStore)
    → Accounts wallet s (mark_as_read src now wallet id s)
      × Clears wallet s (mark_all_as_read src now wallet s)
mark_as_read-counts src now wallet id s = (
  elim (Result-cases (mark_as_read src now wallet id s).0) [
    | inl (e, failed) ↦ inl (e, failed, mark_as_read-failed src now wallet id s e failed)
    | inr (r, returned) ↦ inr (r, returned, mark_as_read-Fell src now wallet id s r returned)
  ],
  elim (Result-cases (mark_all_as_read src now wallet s).0) [
    | inl (e, failed) ↦ inl (e, failed, mark_all_as_read-failed src now wallet id s e failed)
    | inr (r, returned) ↦
        let (fell, cleared) = mark_all_as_read-Fell src now wallet id s r returned in
        inr (r, returned, fell, cleared)
  ],
)
