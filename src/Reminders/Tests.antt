-- ===== src/Reminders/Tests.antt =====
-- A run of the reminder job over three loans, and the theorems of the modules at it.
use trust_up_api.Base.{ℕ, ◌+◌, ◌≡◌, none, some, [], ◌∷◌, refl, reliable}
use trust_up_api.Loans.Defs.{Loan, LoanStatus}
use trust_up_api.Reminders.Windows.{days_until_due_utc, get_reminder_window}
use trust_up_api.Reminders.Defs.{
  ReminderType, MerchantInfo, ReminderCandidate, ReminderSummary, ReminderStore, ReminderSources,
}
use trust_up_api.Reminders.Process.{
  identify_candidates, reminder_of, get_merchant, is_duplicate_reminder, create_reminder, remind,
  remind_all, remind_found, remind_run,
}
use trust_up_api.Reminders.Totals.{Reports, remind_run-Reports}
use trust_up_api.Reminders.Again.{remind_run-once}

abbrev sources : ReminderSources
sources = record {
  loans_table = reliable;
  merchants_table = reliable;
  notifications_table = reliable;
}

abbrev loan_due : ℕ → ℕ → Loan
loan_due id due = record {
  id = id;
  loan_id = 40 + id;
  user_wallet = 7;
  merchant_id = some 5;
  amount = 125;
  loan_amount = 100;
  guarantee = 25;
  interest_rate = 10;
  total_repayment = 103;
  remaining_balance = 103;
  term = 4;
  status = LoanStatus.active;
  next_payment_due = some due;
  xdr_hash = none;
  created_at = 100;
  updated_at = 100;
  completed_at = none;
  defaulted_at = none;
  accrued_interest = 0;
  distributed_interest = 0;
  last_accrual_at = none;
}

-- 9 o'clock on day 10: loan 1 is due late on day 13, loan 2 on day 12, loan 3 was due on day 9.
abbrev now : ℕ
now = 896400000

abbrev soon : Loan
soon = loan_due 1 1209599999

abbrev late : Loan
late = loan_due 3 777600000

abbrev shop : MerchantInfo
shop = record { id = 5; name = 55 }

abbrev before : ReminderStore
before = record {
  loans = soon ∷ loan_due 2 1036800000 ∷ late ∷ [];
  merchants = shop ∷ [];
  notifications = [];
}

abbrev candidate : Loan → ℕ → ReminderType → ReminderCandidate
candidate loan due type = record {
  loan = loan;
  due_date = due;
  reminder_type = type;
  days_until_due = days_until_due_utc due now;
}

abbrev after : ReminderStore
after = record before {
  notifications =
      reminder_of now (candidate soon 1209599999 ReminderType.payment_reminder_3d) (some shop)
      ∷ reminder_of now (candidate late 777600000 ReminderType.payment_overdue) (some shop)
      ∷ [];
}

abbrev summary : ReminderSummary
summary = record {
  total = 2;
  created = 2;
  skipped = 0;
  failed = 0;
  sent_3d = 1;
  sent_1d = 0;
  sent_overdue = 1;
}

reminds : remind_run sources now before ≡ (summary, after)
unfolding remind_run remind_found remind_all get_merchant remind is_duplicate_reminder
    create_reminder identify_candidates get_reminder_window days_until_due_utc
reminds = refl

remind_run-Reports_example : Reports sources now before.loans before (summary, after)
unfolding remind_run remind_found remind_all get_merchant remind is_duplicate_reminder
    create_reminder identify_candidates get_reminder_window days_until_due_utc
remind_run-Reports_example = remind_run-Reports sources now before

-- Six hours later
remind_run-once_example : (remind_run sources 918000000 after).1 ≡ after
unfolding remind_run remind_found remind_all get_merchant remind is_duplicate_reminder
    create_reminder identify_candidates get_reminder_window days_until_due_utc
remind_run-once_example = remind_run-once sources (λ p rows. refl) now 918000000 before refl refl
