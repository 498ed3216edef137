-- ===== src/Reminders/Sent.antt =====
-- What the reminder job sends.
use trust_up_api.Base.{
  ℕ, ◌+◌, ◌/◌, ◌==◌, ◌≡◌, ltb, ◌&&◌, refl, inl, inr, Option-cases, ==_refl, Bool, true, false,
  Option, none, some, List, [], ◌∷◌, any, All, All-append, arith,
}
use trust_up_api.Loans.Defs.{Loan, LoanStatus, same_status}
use trust_up_api.Reminders.Windows.{day, days_until_due_utc, get_reminder_window, ReminderWindow}
use trust_up_api.Reminders.Defs.{
  ReminderType, type_of_window, MerchantInfo, ReminderCandidate, Reminder,
}
use trust_up_api.Reminders.Process.{is_remindable, candidate_of, identify_candidates, reminder_of}

-- The calendar days that a type of reminder is for.
abbrev pub is_time_of : ReminderType → ℕ → ℕ → Bool
is_time_of ReminderType.payment_reminder_3d due now = due / day == now / day + 3
is_time_of ReminderType.payment_reminder_1d due now = due / day == now / day + 1
is_time_of ReminderType.payment_overdue due now = ltb (due / day) (now / day)

abbrev pub is_due_on : ℕ → Option ℕ → Bool
is_due_on date none = false
is_due_on date (some due) = due == date

-- A reminder of the payment that an active loan has due next.
abbrev pub is_reminder_for : ℕ → Reminder → Loan → Bool
is_reminder_for now r l =
    (l.id == r.loan_db_id)
    && (same_status l.status LoanStatus.active
        && (is_due_on r.due_date l.next_payment_due && is_time_of r.reminder_type r.due_date now))

window_is_time :
    (due now : ℕ) (window : ReminderWindow)
    → get_reminder_window due now ≡ some window
    → is_time_of (type_of_window window) due now ≡ true
unfolding get_reminder_window days_until_due_utc
window_is_time due now ReminderWindow.three_day h = ground arith
window_is_time due now ReminderWindow.one_day h = ground arith
window_is_time due now ReminderWindow.overdue h = ground arith

module _ (now : ℕ) where
  -- Whatever the merchant, a candidate makes a reminder of one of the loans.
  abbrev pub IsFrom : List Loan → ReminderCandidate → Type 0
  IsFrom loans c =
      (m : Option MerchantInfo) → any (is_reminder_for now (reminder_of now c m)) loans ≡ true

  IsFrom-weaken :
      (l : Loan) (loans : List Loan) (cs : List ReminderCandidate)
      → All (IsFrom loans) cs
      → All (IsFrom (l ∷ loans)) cs
  IsFrom-weaken l loans [] h = tt
  IsFrom-weaken l loans (c ∷ cs) h = (λ m. ground (arith, h.0 m), IsFrom-weaken l loans cs h.1)

  candidate_of-IsFrom :
      (l : Loan) (loans : List Loan) (due : Option ℕ)
      → l.next_payment_due ≡ due
      → is_remindable l ≡ true
      → All (IsFrom (l ∷ loans)) (candidate_of now l due)
  candidate_of-IsFrom l loans none e h = tt
  candidate_of-IsFrom l loans (some due) e h = elim (Option-cases (get_reminder_window due now)) [
    | inl outside ↦ rw outside tt
    | inr (window, f) ↦
        let time = window_is_time due now window f in
        rw f (λ m. ground (arith, time, ==_refl l.id, ==_refl due), tt)
  ]

  pub identify_candidates-IsFrom :
      (loans : List Loan)
      → All (λ l. is_remindable l ≡ true) loans
      → All (IsFrom loans) (identify_candidates now loans)
  unfolding identify_candidates
  identify_candidates-IsFrom [] h = tt
  identify_candidates-IsFrom (l ∷ loans) h =
      All-append (IsFrom (l ∷ loans)) (candidate_of now l l.next_payment_due)
        (identify_candidates now loans) (candidate_of-IsFrom l loans l.next_payment_due refl h.0)
        (IsFrom-weaken l loans _ (identify_candidates-IsFrom loans h.1))
