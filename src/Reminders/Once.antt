-- ===== src/Reminders/Once.antt =====
-- A reminder is sent once a day.
use trust_up_api.Base.{
  ℕ, ◌+◌, ◌*◌, ◌/◌, ◌==◌, ◌&&◌, ◌≡◌, ◌≤◌, refl, sym, ap, ◌∙◌, inl, inr, Bool-cases, ==_refl, ltb,
  leb, Bool, true, Option, none, some, List, [], ◌∷◌, length, keep, any, any-append_left,
  any-append_last, All, All-of_All, insert-ok, Result-cases, select-ok, arith,
}
use trust_up_api.Loans.Defs.{Loan}
use trust_up_api.Reminders.Windows.{day, days_until_due_utc, get_reminder_window, ReminderWindow}
use trust_up_api.Reminders.Defs.{
  ReminderType, same_type, same_type_refl, count_created, MerchantInfo, ReminderCandidate, Reminder,
  ReminderSummary, ReminderStore, ReminderSources,
}
use trust_up_api.Reminders.Totals.{remind_all-Sends}
use trust_up_api.Reminders.Process.{
  candidate_in, candidate_of, identify_candidates, is_sent_today, reminder_of, Cache, get_merchant,
  is_duplicate_reminder, create_reminder, remind, remind_all,
}

pub any-of_length :
    (q : Reminder → Bool) (rows : List Reminder) → ltb 0 (length (keep q rows)) ≡ any q rows
any-of_length q [] = refl
any-of_length q (r ∷ rows) = elim (Bool-cases (q r)) [
  | inl hit ↦ rw hit (ground arith)
  | inr miss ↦ rw miss (any-of_length q rows)
]

module _ (now later : ℕ) (same_day : later / day ≡ now / day) where
  days_same : (due : ℕ) → days_until_due_utc due later ≡ days_until_due_utc due now
  unfolding days_until_due_utc
  days_same due = rw same_day refl

  candidate_in-same :
      (l : Loan) (due : ℕ) (window : Option ReminderWindow)
      → candidate_in later l due window ≡ candidate_in now l due window
  candidate_in-same l due none = refl
  candidate_in-same l due (some window) = rw (days_same due) refl

  candidate_of-same :
      (l : Loan) (due : Option ℕ) → candidate_of later l due ≡ candidate_of now l due
  unfolding get_reminder_window
  candidate_of-same l none = refl
  candidate_of-same l (some due) = rw (days_same due) (candidate_in-same l due _)

  pub candidates_same :
      (loans : List Loan) → identify_candidates later loans ≡ identify_candidates now loans
  unfolding identify_candidates
  candidates_same [] = refl
  candidates_same (l ∷ loans) =
      rw (candidate_of-same l l.next_payment_due, candidates_same loans) refl

  pub sent_same :
      (c : ReminderCandidate) (rows : List Reminder)
      → any (is_sent_today later c) rows ≡ any (is_sent_today now c) rows
  sent_same c rows =
      ap
        (λ d.
          any
            (λ n.
              same_type n.reminder_type c.reminder_type
              && ((n.loan_db_id == c.loan.id) && leb (d * day) n.created_at))
            rows)
        same_day

counted_failed :
    (type : ReminderType) (a : ReminderSummary) → (count_created type a).failed ≡ a.failed
counted_failed ReminderType.payment_reminder_3d a = refl
counted_failed ReminderType.payment_reminder_1d a = refl
counted_failed ReminderType.payment_overdue a = refl

module _ (src : ReminderSources) (now : ℕ) where
  abbrev pub IsSent : ReminderStore → ReminderCandidate → Type 0
  IsSent s c = any (is_sent_today now c) s.notifications ≡ true

  sent_now :
      (c : ReminderCandidate) (m : Option MerchantInfo)
      → is_sent_today now c (reminder_of now c m) ≡ true
  sent_now c m =
      let today : leb (now / day * day) now ≡ true = ground arith in
      rw (same_type_refl c.reminder_type, ==_refl c.loan.id, today) refl

  duplicate-IsSent :
      (c : ReminderCandidate) (s : ReminderStore)
      → is_duplicate_reminder src now c s ≡ true
      → IsSent s c
  unfolding is_duplicate_reminder
  duplicate-IsSent c s h =
      elim (Result-cases (src.notifications_table.select (is_sent_today now c) s.notifications)) [
        | inl (x, e) ↦ absurd (ground arith)
        | inr (found, e) ↦
            let law =
              select-ok src.notifications_table (is_sent_today now c) s.notifications found e in
            let counted : ltb 0 (length found) ≡ true = ground arith in
            sym (any-of_length (is_sent_today now c) s.notifications) ∙ rw law at counted
      ]

  module _ (c : ReminderCandidate) (m : Option MerchantInfo) (a : ReminderSummary)
      (s : ReminderStore) where
    -- A round adds no failure, or counts one.
    remind-failed : a.failed ≤ (remind src now c m a s).0.failed
    unfolding remind create_reminder
    remind-failed = ground (arith, counted_failed c.reminder_type a)

    -- A round that does not fail leaves its candidate sent.
    remind-IsSent :
        (remind src now c m a s).0.failed ≡ a.failed → IsSent (remind src now c m a s).1 c
    unfolding remind create_reminder
    remind-IsSent h = elim (Bool-cases (is_duplicate_reminder src now c s)) [
      | inl known ↦ rw known (duplicate-IsSent c s known)
      | inr new ↦
          elim (Result-cases
            (src.notifications_table.insert (reminder_of now c m) s.notifications)) [
              | inl (x, e) ↦
                  let bad : a.failed + 1 ≡ a.failed = rw (new, e) at h in absurd (omega arith)
              | inr (rows, e) ↦
                  rw (new, e)
                    (rw
                      (insert-ok src.notifications_table (reminder_of now c m) s.notifications rows
                        e)
                      (any-append_last (is_sent_today now c) s.notifications (reminder_of now c m)
                        (sent_now c m)))
            ]
    ]

  remind_all-failed :
      (cs : List ReminderCandidate) (cache : Cache) (a : ReminderSummary) (s : ReminderStore)
      → a.failed ≤ (remind_all src now cs cache a s).0.failed
  unfolding remind_all
  remind_all-failed [] cache a s = omega arith
  remind_all-failed (c ∷ cs) cache a s =
      let found = get_merchant src now c.loan.merchant_id cache s in
      let step = remind src now c found.0 a s in
      omega (arith, remind-failed c found.0 a s, remind_all-failed cs found.1 step.0 step.1)

  -- Notifications are only added.
  remind_all-IsSent :
      (c : ReminderCandidate) (cs : List ReminderCandidate) (cache : Cache) (a : ReminderSummary)
      (s : ReminderStore)
      → IsSent s c
      → IsSent (remind_all src now cs cache a s).1 c
  remind_all-IsSent c cs cache a s h =
      let (new, added, all, made, bd, total, kept) =
        remind_all-Sends (λ r. Unit {0}) src now cs cache a s
          (All-of_All (λ x. Option MerchantInfo → Unit {0}) (λ x m. tt) cs) in
      rw added (any-append_left (is_sent_today now c) s.notifications new h)

  pub remind_all-AllSent :
      (cs : List ReminderCandidate) (cache : Cache) (a : ReminderSummary) (s : ReminderStore)
      → (remind_all src now cs cache a s).0.failed ≡ a.failed
      → All (IsSent (remind_all src now cs cache a s).1) cs
  unfolding remind_all
  remind_all-AllSent [] cache a s h = tt
  remind_all-AllSent (c ∷ cs) cache a s h =
      let found = get_merchant src now c.loan.merchant_id cache s in
      let step = remind src now c found.0 a s in
      let up = remind-failed c found.0 a s in
      let up' = remind_all-failed cs found.1 step.0 step.1 in
      (
        remind_all-IsSent c cs found.1 step.0 step.1 (remind-IsSent c found.0 a s (omega arith)),
        remind_all-AllSent cs found.1 step.0 step.1 (omega arith),
      )
