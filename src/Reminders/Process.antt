-- ===== src/Reminders/Process.antt =====
-- LoanPaymentReminderProcessor (jobs/loan-payment-reminder/loan-payment-reminder.processor.ts). A run
-- reads the clock several times; here it has one time.
use trust_up_api.Base.{
  ℕ, ◌+◌, ◌*◌, ◌/◌, ◌==◌, leb, ltb, ◌&&◌, Bool, false, is_some, Option, none, some, List, [], ◌∷◌,
  ◌++◌, length, Result, ok, err, DbError, if◌then◌else◌,
}
use trust_up_api.Loans.Defs.{Loan, LoanStatus, same_status}
use trust_up_api.Reminders.Windows.{day, days_until_due_utc, get_reminder_window, ReminderWindow}
use trust_up_api.Reminders.Defs.{
  ReminderType, same_type, type_of_window, MerchantInfo, ReminderCandidate, Reminder,
  ReminderSummary, ReminderStore, ReminderSources, put_notifications, count_created,
}

-- `.eq('status', 'active').not('next_payment_due', 'is', null)`
abbrev pub is_remindable : Loan → Bool
is_remindable l = same_status l.status LoanStatus.active && is_some l.next_payment_due

abbrev pub candidate_in : ℕ → Loan → ℕ → Option ReminderWindow → List ReminderCandidate
candidate_in now loan due none = []
candidate_in now loan due (some window) =
    record {
      loan = loan;
      due_date = due;
      reminder_type = type_of_window window;
      days_until_due = days_until_due_utc due now;
    }
    ∷ []

abbrev pub candidate_of : ℕ → Loan → Option ℕ → List ReminderCandidate
candidate_of now loan none = []
candidate_of now loan (some due) = candidate_in now loan due (get_reminder_window due now)

unfoldable pub identify_candidates : ℕ → List Loan → List ReminderCandidate
unfolding get_reminder_window
identify_candidates now [] = []
identify_candidates now (loan ∷ loans) =
    candidate_of now loan loan.next_payment_due ++ identify_candidates now loans

-- A reminder of this type, for this loan, from today on
abbrev pub is_sent_today : ℕ → ReminderCandidate → Reminder → Bool
is_sent_today now c n =
    same_type n.reminder_type c.reminder_type
    && ((n.loan_db_id == c.loan.id) && leb (now / day * day) n.created_at)

abbrev pub reminder_of : ℕ → ReminderCandidate → Option MerchantInfo → Reminder
reminder_of now c merchant = record {
  user_wallet = c.loan.user_wallet;
  reminder_type = c.reminder_type;
  message = record { text_type = c.reminder_type; amount = c.loan.loan_amount; date = c.due_date };
  loan_db_id = c.loan.id;
  loan_id = c.loan.loan_id;
  loan_amount = c.loan.loan_amount;
  remaining_balance = c.loan.remaining_balance;
  due_date = c.due_date;
  merchant = merchant;
  is_read = false;
  created_at = now;
}

-- The merchants found so far in the run
abbrev pub Cache : Type 0
Cache = List MerchantInfo

abbrev pub cached : ℕ → Cache → Option MerchantInfo
cached id [] = none
cached id (m ∷ cache) = let rest = cached id cache in if m.id == id then some m else rest

module _ (src : ReminderSources) (now : ℕ) where
  -- `.single()`: an error and a missing row are no merchant; only a merchant is cached.
  abbrev pub read_merchant :
      Cache → Result DbError (Option MerchantInfo) → Option MerchantInfo × Cache
  read_merchant cache (ok (some m)) = (some m, m ∷ cache)
  read_merchant cache _ = (none, cache)

  abbrev pub merchant_or_read :
      ℕ → Cache → ReminderStore → Option MerchantInfo → Option MerchantInfo × Cache
  merchant_or_read id cache s (some m) = (some m, cache)
  merchant_or_read id cache s none =
      read_merchant cache (src.merchants_table.maybe_single (λ m. m.id == id) s.merchants)

  unfoldable pub get_merchant : Option ℕ → Cache → ReminderStore → Option MerchantInfo × Cache
  get_merchant none cache s = (none, cache)
  get_merchant (some id) cache s = merchant_or_read id cache s (cached id cache)

  -- Where the count fails, the reminder is sent.
  abbrev pub counts_any : Result DbError (List Reminder) → Bool
  counts_any (ok found) = ltb 0 (length found)
  counts_any (err _) = false

  unfoldable pub is_duplicate_reminder : ReminderCandidate → ReminderStore → Bool
  is_duplicate_reminder c s =
      counts_any (src.notifications_table.select (is_sent_today now c) s.notifications)

  abbrev pub inserted :
      ReminderType
      → ReminderSummary
      → ReminderStore
      → Result DbError (List Reminder)
      → ReminderSummary × ReminderStore
  inserted type summary s (ok rows) = (count_created type summary, put_notifications s rows)
  inserted type summary s (err _) = (record summary { failed = summary.failed + 1 }, s)

  unfoldable pub create_reminder :
      ReminderCandidate
      → Option MerchantInfo
      → ReminderSummary
      → ReminderStore
      → ReminderSummary × ReminderStore
  create_reminder c merchant summary s =
      inserted c.reminder_type summary s
        (src.notifications_table.insert (reminder_of now c merchant) s.notifications)

  -- One round of the loop, after the merchant was looked up
  unfoldable pub remind :
      ReminderCandidate
      → Option MerchantInfo
      → ReminderSummary
      → ReminderStore
      → ReminderSummary × ReminderStore
  unfolding is_duplicate_reminder create_reminder
  remind c merchant summary s =
      if is_duplicate_reminder c s
      then (record summary { skipped = summary.skipped + 1 }, s)
      else create_reminder c merchant summary s

  unfoldable pub remind_all :
      List ReminderCandidate
      → Cache
      → ReminderSummary
      → ReminderStore
      → ReminderSummary × ReminderStore
  unfolding get_merchant remind
  remind_all [] cache summary s = (summary, s)
  remind_all (c ∷ candidates) cache summary s =
      let (merchant, cache') = get_merchant c.loan.merchant_id cache s in
      let (summary', s') = remind c merchant summary s in remind_all candidates cache' summary' s'

  abbrev pub no_reminders : ℕ → ReminderSummary
  no_reminders total = record {
    total = total;
    created = 0;
    skipped = 0;
    failed = 0;
    sent_3d = 0;
    sent_1d = 0;
    sent_overdue = 0;
  }

  unfoldable pub remind_found :
      ReminderStore → Result DbError (List Loan) → ReminderSummary × ReminderStore
  unfolding identify_candidates remind_all
  remind_found s (err _) = (no_reminders 0, s)
  remind_found s (ok loans) =
      let candidates = identify_candidates now loans in
      remind_all candidates [] (no_reminders (length candidates)) s

  -- `process`: the summary that it logs, and the store
  unfoldable pub remind_run : ReminderStore → ReminderSummary × ReminderStore
  unfolding remind_found
  remind_run s = remind_found s (src.loans_table.select is_remindable s.loans)
