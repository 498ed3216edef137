-- ===== src/Loans/Schedule.antt =====
-- LoansService.generateScheduleFromDate (modules/loans/loans.service.ts).
use trust_up_api.Base.{
  ℕ, zero, suc, ◌+◌, ◌-◌, ◌*◌, ◌/◌, ◌≤◌, ◌<◌, ◌≡◌, refl, ap, List, [], ◌∷◌, arith, ◌==◌,
  if◌then◌else◌, length,
}
use trust_up_api.Loans.Money.{cent, round_cents}

pub record SchedulePayment : Type 0 where
  pub payment_number : ℕ
  pub amount : ℕ
  pub due_date : ℕ

-- `Math.floor((totalRepayment / term) * 100) / 100`
abbrev pub monthly_payment : ℕ → ℕ → ℕ
monthly_payment total term = cent * (total / (term * cent))

-- The loop, from payment `i` on with `rounds` payments left. `due_date i` is midnight, `i` months
-- after the start.
schedule_from : (ℕ → ℕ) → ℕ → ℕ → ℕ → ℕ → ℕ → List SchedulePayment
schedule_from due_date total term i zero allocated = []
schedule_from due_date total term i (suc rounds) allocated =
    let amount : ℕ =
      if i == term then round_cents (total - allocated) else monthly_payment total term in
    record { payment_number = i; amount = amount; due_date = due_date i }
    ∷ schedule_from due_date total term (i + 1) rounds (allocated + amount)

unfoldable pub generate_schedule_from_date : (ℕ → ℕ) → ℕ → ℕ → List SchedulePayment
unfolding schedule_from
generate_schedule_from_date due_date total term = schedule_from due_date total term 1 term 0

abbrev pub total_of : List SchedulePayment → ℕ
total_of [] = 0
total_of (p ∷ ps) = p.amount + total_of ps

module _ (due_date : ℕ → ℕ) where
  length-schedule_from :
      (total term i rounds allocated : ℕ)
      → length (schedule_from due_date total term i rounds allocated) ≡ rounds
  unfolding schedule_from
  length-schedule_from total term i zero allocated = refl
  length-schedule_from total term i (suc rounds) allocated =
      omega (arith, length-schedule_from total term (i + 1) rounds)

  -- With the last payment still to come, the rest is handed out exactly.
  total_of-schedule_from :
      (k term i rounds allocated a : ℕ)
      → allocated ≡ cent * a
      → i + rounds ≡ term
      → allocated + suc rounds * monthly_payment (cent * k) term ≤ cent * k
      → total_of (schedule_from due_date (cent * k) term i (suc rounds) allocated) + allocated
        ≡ cent * k
  unfolding schedule_from
  total_of-schedule_from k term i zero allocated a whole last fits = ground arith
  total_of-schedule_from k term i (suc rounds) allocated a whole more fits =
      let m : ℕ = cent * k / (term * cent) in
      let ih =
        total_of-schedule_from k term (i + 1) rounds (allocated + cent * m) (a + m) (omega arith)
          (omega arith) (omega arith) in
      ground (arith, ih)

div_mul-le : (n d : ℕ) → d * (n / d) ≤ n
div_mul-le n d = omega arith

lt-div_mul : (n d : ℕ) → 0 < d → n < d * (n / d) + d
lt-div_mul n d h = omega arith

-- The payments of a schedule add up to the total exactly, for a total in whole cents.
pub total_of-schedule :
    (due_date : ℕ → ℕ) (k term : ℕ)
    → 1 ≤ term
    → total_of (generate_schedule_from_date due_date (cent * k) term) ≡ cent * k
unfolding generate_schedule_from_date
total_of-schedule due_date k zero h = absurd (omega arith)
total_of-schedule due_date k (suc rounds) h = omega (
  arith,
  total_of-schedule_from due_date k (suc rounds) 1 rounds 0 0 refl (omega arith)
      (grind (arith, div_mul-le (cent * k) (suc rounds * cent))),
)

-- Every payment is the monthly amount but the last, which is at least that and less than one cent
-- per month more.
abbrev pub IsRegular : ℕ → ℕ → List SchedulePayment → Type 0
IsRegular monthly term [] = Unit
IsRegular monthly term (p ∷ []) = (monthly ≤ p.amount) × (p.amount < monthly + term * cent)
IsRegular monthly term (p ∷ q ∷ ps) = (p.amount ≡ monthly) × IsRegular monthly term (q ∷ ps)

IsRegular-cons :
    (monthly term : ℕ) (p : SchedulePayment) (ps : List SchedulePayment)
    → p.amount ≡ monthly
    → 0 < length ps
    → IsRegular monthly term ps
    → IsRegular monthly term (p ∷ ps)
IsRegular-cons monthly term p [] e more h = absurd (omega arith)
IsRegular-cons monthly term p (q ∷ ps) e more h = (e, h)

schedule_from-IsRegular :
    (due_date : ℕ → ℕ) (k term i j rounds allocated a : ℕ)
    → i ≡ suc j
    → allocated ≡ cent * a
    → allocated ≡ j * monthly_payment (cent * k) term
    → j + suc rounds ≡ term
    → term * monthly_payment (cent * k) term ≤ cent * k
    → cent * k < term * monthly_payment (cent * k) term + term * cent
    → IsRegular
        (monthly_payment (cent * k) term)
        term
        (schedule_from due_date (cent * k) term i (suc rounds) allocated)
unfolding schedule_from
schedule_from-IsRegular due_date k term i j zero allocated a at_j whole so_far last low high =
    let m : ℕ = cent * k / (term * cent) in
    let here : term ≡ suc j = omega arith in
    let all : term * (cent * m) ≡ suc j * (cent * m) = ap (λ t. t * (cent * m)) here in
    ground (arith, all)
schedule_from-IsRegular due_date k term i j (suc rounds) allocated a at_j whole so_far more low
      high =
    let m : ℕ = cent * k / (term * cent) in
    let amount : ℕ =
      if i == term then round_cents (cent * k - allocated) else monthly_payment (cent * k) term in
    let early : amount ≡ cent * m = ground arith in
    let later : ℕ = allocated + amount in
    IsRegular-cons (monthly_payment (cent * k) term) term
      (record { payment_number = i; amount = amount; due_date = due_date i })
      (schedule_from due_date (cent * k) term (i + 1) (suc rounds) later) early
      (omega (arith, length-schedule_from due_date (cent * k) term (i + 1) (suc rounds) later))
      (schedule_from-IsRegular due_date k term (i + 1) (suc j) rounds later (a + m) (omega arith)
        (omega arith) (omega arith) (omega arith) low high)

-- In a schedule of at least one month every payment but the last is the monthly amount.
pub generate_schedule-IsRegular :
    (due_date : ℕ → ℕ) (k term : ℕ)
    → 1 ≤ term
    → let monthly = monthly_payment (cent * k) term in
      (length (generate_schedule_from_date due_date (cent * k) term) ≡ term)
      × IsRegular monthly term (generate_schedule_from_date due_date (cent * k) term)
unfolding generate_schedule_from_date
generate_schedule-IsRegular due_date k zero h = absurd (omega arith)
generate_schedule-IsRegular due_date k (suc rounds) h =
    let total : ℕ = cent * k in
    let d : ℕ = suc rounds * cent in
    (
      length-schedule_from due_date total (suc rounds) 1 (suc rounds) 0,
      schedule_from-IsRegular due_date k (suc rounds) 1 0 rounds 0 0 (omega arith) refl
          (omega arith) (omega arith) (grind (arith, div_mul-le total d))
          (grind (arith, lt-div_mul total d (omega arith))),
    )
