-- ===== src/Reminders/Windows.antt =====
-- reminder-window.util.ts (jobs/loan-payment-reminder). A time is in milliseconds since the epoch, so
-- a UTC calendar day is its quotient by the length of a day.
use trust_up_api.Base.{ℕ, ◌-◌, ◌/◌, ◌==◌, leb, Option, none, some, if◌then◌else◌}

abbrev pub day : ℕ
day = 86400000

-- A number of days, or minus a number of days (at least 1).
pub data Days : Type 0 where
  ahead overdue_by : ℕ → Days

pub data ReminderWindow : Type 0 where
  three_day one_day overdue : ReminderWindow

unfoldable pub days_until_due_utc : ℕ → ℕ → Days
days_until_due_utc due_date now =
    if leb (now / day) (due_date / day)
    then Days.ahead (due_date / day - now / day)
    else Days.overdue_by (now / day - due_date / day)

abbrev pub window_of : Days → Option ReminderWindow
window_of (Days.ahead n) =
    if n == 3
    then some ReminderWindow.three_day
    else if n == 1
    then some ReminderWindow.one_day
    else none
window_of (Days.overdue_by n) = some ReminderWindow.overdue

unfoldable pub get_reminder_window : ℕ → ℕ → Option ReminderWindow
unfolding days_until_due_utc
get_reminder_window due_date now = window_of (days_until_due_utc due_date now)
