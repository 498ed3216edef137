-- ===== src/Loans/Tests.antt =====
-- The schedule of one loan, and the theorems at it.
use trust_up_api.Base.{◌*◌, ◌≡◌, refl, [], ◌∷◌, arith}
use trust_up_api.Loans.Money.{cent}
use trust_up_api.Loans.Schedule.{generate_schedule_from_date, total_of, total_of-schedule}

-- $103.33 over 4 months: three payments of $25.83 and one of $25.84
four_months :
    generate_schedule_from_date (λ i. i) (cent * 10333) 4
    ≡ record { payment_number = 1; amount = cent * 2583; due_date = 1 }
      ∷ record { payment_number = 2; amount = cent * 2583; due_date = 2 }
      ∷ record { payment_number = 3; amount = cent * 2583; due_date = 3 }
      ∷ record { payment_number = 4; amount = cent * 2584; due_date = 4 }
      ∷ []
unfolding generate_schedule_from_date
four_months = refl

total_of-schedule_example :
    total_of (generate_schedule_from_date (λ i. i) (cent * 10333) 4) ≡ cent * 10333
total_of-schedule_example = total_of-schedule (λ i. i) 10333 4 (omega arith)
