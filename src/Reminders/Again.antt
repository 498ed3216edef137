-- ===== src/Reminders/Again.antt =====
-- A second run of the reminder job on the same day.
use trust_up_api.Base.{
  ℕ, ◌+◌, ◌/◌, ◌≡◌, refl, sym, subst, ◌∙◌, Bool, true, Option, List, [], ◌∷◌, length, ltb, keep,
  All, Result, ok, err, DbError, arith,
}
use trust_up_api.Loans.Defs.{Loan}
use trust_up_api.Reminders.Windows.{day}
use trust_up_api.Reminders.Defs.{
  ReminderType, ReminderCandidate, Reminder, ReminderSummary, ReminderStore, ReminderSources,
  MerchantInfo,
}
use trust_up_api.Reminders.Process.{
  is_remindable, identify_candidates, is_sent_today, Cache, get_merchant, is_duplicate_reminder,
  inserted, no_reminders, create_reminder, remind, remind_all, remind_found, remind_run,
}
use trust_up_api.Reminders.Once.{
  any-of_length, candidates_same, sent_same, IsSent, remind_all-AllSent,
}

module _ (src : ReminderSources) where
  inserted-keeps_loans :
      (now : ℕ) (type : ReminderType) (a : ReminderSummary) (s : ReminderStore)
      (done : Result DbError (List Reminder))
      → (inserted src now type a s done).1.loans ≡ s.loans
  inserted-keeps_loans now type a s (ok rows) = refl
  inserted-keeps_loans now type a s (err x) = refl

  remind-keeps_loans :
      (now : ℕ) (c : ReminderCandidate) (m : Option MerchantInfo) (a : ReminderSummary)
      (s : ReminderStore)
      → (remind src now c m a s).1.loans ≡ s.loans
  unfolding remind create_reminder
  remind-keeps_loans now c m a s = ground (arith, inserted-keeps_loans now c.reminder_type a s _)

  remind_all-keeps_loans :
      (now : ℕ) (cs : List ReminderCandidate) (cache : Cache) (a : ReminderSummary)
      (s : ReminderStore)
      → (remind_all src now cs cache a s).1.loans ≡ s.loans
  unfolding remind_all
  remind_all-keeps_loans now [] cache a s = refl
  remind_all-keeps_loans now (c ∷ cs) cache a s =
      let found = get_merchant src now c.loan.merchant_id cache s in
      let step = remind src now c found.0 a s in
      remind_all-keeps_loans now cs found.1 step.0 step.1 ∙ remind-keeps_loans now c found.0 a s

  module _
      (answers : (p : Reminder → Bool) (rows : List Reminder)
        → src.notifications_table.select p rows ≡ ok (keep p rows))
      (now later : ℕ) (same_day : later / day ≡ now / day) where
    known-duplicate :
        (c : ReminderCandidate) (s : ReminderStore)
        → IsSent src now s c
        → is_duplicate_reminder src later c s ≡ true
    unfolding is_duplicate_reminder
    known-duplicate c s h =
        let counted : ltb 0 (length (keep (is_sent_today later c) s.notifications)) ≡ true =
          any-of_length (is_sent_today later c) s.notifications
          ∙ sent_same now later same_day c s.notifications
          ∙ h in
        rw (answers (is_sent_today later c) s.notifications) counted

    remind-known :
        (c : ReminderCandidate) (m : Option MerchantInfo) (a : ReminderSummary) (s : ReminderStore)
        → IsSent src now s c
        → remind src later c m a s ≡ (record a { skipped = a.skipped + 1 }, s)
    unfolding remind
    remind-known c m a s h = rw (known-duplicate c s h) refl

    remind_all-known :
        (cs : List ReminderCandidate) (cache : Cache) (a : ReminderSummary) (s : ReminderStore)
        → All (IsSent src now s) cs
        → (remind_all src later cs cache a s).1 ≡ s
    unfolding remind_all
    remind_all-known [] cache a s h = refl
    remind_all-known (c ∷ cs) cache a s h =
        let found = get_merchant src later c.loan.merchant_id cache s in
        subst (λ r. (remind_all src later cs found.1 r.0 r.1).1 ≡ s)
          (sym (remind-known c found.0 a s h.0))
          (remind_all-known cs found.1 (record a { skipped = a.skipped + 1 }) s h.1)

    remind_found-again :
        (s : ReminderStore) (found : Result DbError (List Loan))
        → (remind_found src now s found).0.failed ≡ 0
        → let t = (remind_found src now s found).1 in (remind_found src later t found).1 ≡ t
    unfolding remind_found
    remind_found-again s (err x) h = refl
    remind_found-again s (ok loans) h =
        let cs = identify_candidates now loans in
        let start = no_reminders src now (length cs) in
        rw (candidates_same now later same_day loans) (
          remind_all-known cs [] start (remind_all src now cs [] start s).1
            (remind_all-AllSent src now cs [] start s h))

    found-keeps_loans :
        (s : ReminderStore) (found : Result DbError (List Loan))
        → (remind_found src now s found).1.loans ≡ s.loans
    unfolding remind_found
    found-keeps_loans s (err x) = refl
    found-keeps_loans s (ok loans) =
        remind_all-keeps_loans now (identify_candidates now loans) [] _ s

  -- Where counts of notifications are answered: after a run of the reminder job in which nothing
  -- failed, a further run on the same UTC day changes nothing.
  pub remind_run-once :
      (answers : (p : Reminder → Bool) (rows : List Reminder)
        → src.notifications_table.select p rows ≡ ok (keep p rows))
      (now later : ℕ) (s : ReminderStore)
      → later / day ≡ now / day
      → (remind_run src now s).0.failed ≡ 0
      → let t = (remind_run src now s).1 in (remind_run src later t).1 ≡ t
  unfolding remind_run
  remind_run-once answers now later s same_day h =
      let found = src.loans_table.select is_remindable s.loans in
      let t = (remind_found src now s found).1 in
      rw (found-keeps_loans answers now later same_day s found)
        (remind_found-again answers now later same_day s found h)
