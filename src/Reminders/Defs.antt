-- ===== src/Reminders/Defs.antt =====
-- The tables of the reminder job, its candidates and its summary.
use trust_up_api.Base.{ℕ, ◌+◌, Bool, true, false, Option, List, Table, ◌≡◌, arith}
use trust_up_api.Loans.Defs.{Loan}
use trust_up_api.Reminders.Windows.{ReminderWindow, Days}

pub data ReminderType : Type 0 where
  payment_reminder_3d payment_reminder_1d payment_overdue : ReminderType

abbrev pub same_type : ReminderType → ReminderType → Bool
same_type ReminderType.payment_reminder_3d ReminderType.payment_reminder_3d = true
same_type ReminderType.payment_reminder_1d ReminderType.payment_reminder_1d = true
same_type ReminderType.payment_overdue ReminderType.payment_overdue = true
same_type _ _ = false

-- REMINDER_WINDOW_TO_TYPE
abbrev pub type_of_window : ReminderWindow → ReminderType
type_of_window ReminderWindow.three_day = ReminderType.payment_reminder_3d
type_of_window ReminderWindow.one_day = ReminderType.payment_reminder_1d
type_of_window ReminderWindow.overdue = ReminderType.payment_overdue

pub record MerchantInfo : Type 0 where
  pub id : ℕ
  pub name : ℕ

pub record ReminderCandidate : Type 0 where
  pub loan : Loan
  -- its `next_payment_due`, which is there
  pub due_date : ℕ
  pub reminder_type : ReminderType
  pub days_until_due : Days

-- The texts of a reminder are those of its type, with the amount and the due date put in.
pub record ReminderText : Type 0 where
  pub text_type : ReminderType
  pub amount : ℕ
  pub date : ℕ

-- A row of `notifications` as the job writes it; the fields from `loan_db_id` to `merchant` are
-- those of its `data`.
pub record Reminder : Type 0 where
  pub user_wallet : ℕ
  pub reminder_type : ReminderType
  pub message : ReminderText
  pub loan_db_id : ℕ
  pub loan_id : ℕ
  pub loan_amount : ℕ
  pub remaining_balance : ℕ
  pub due_date : ℕ
  pub merchant : Option MerchantInfo
  pub is_read : Bool
  pub created_at : ℕ

pub record ReminderSummary : Type 0 where
  pub total : ℕ
  pub created : ℕ
  pub skipped : ℕ
  pub failed : ℕ
  -- `breakdown`, by type
  pub sent_3d : ℕ
  pub sent_1d : ℕ
  pub sent_overdue : ℕ

-- `summary.created++; summary.breakdown[type]++`
abbrev pub count_created : ReminderType → ReminderSummary → ReminderSummary
count_created ReminderType.payment_reminder_3d r = record r {
  created = r.created + 1;
  sent_3d = r.sent_3d + 1;
}
count_created ReminderType.payment_reminder_1d r = record r {
  created = r.created + 1;
  sent_1d = r.sent_1d + 1;
}
count_created ReminderType.payment_overdue r = record r {
  created = r.created + 1;
  sent_overdue = r.sent_overdue + 1;
}

pub record ReminderStore : Type 0 where
  pub loans : List Loan
  pub merchants : List MerchantInfo
  pub notifications : List Reminder

pub record ReminderSources : Type 0 where
  pub loans_table : Table Loan
  pub merchants_table : Table MerchantInfo
  pub notifications_table : Table Reminder

abbrev pub put_notifications : ReminderStore → List Reminder → ReminderStore
put_notifications s rows = record s { notifications = rows }

pub same_type_refl : (t : ReminderType) → same_type t t ≡ true
same_type_refl t = ground arith
