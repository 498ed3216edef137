-- ===== src/StatusChecker/Left.antt =====
-- What a repayment leaves of a loan: the balance and the status that applyLoanRepayment writes.
use trust_up_api.Base.{
  ℕ, ◌%◌, ◌-◌, suc, ltb, leb, Bool-cases, ◌==◌, ==_iff, ◌≡◌, ◌≤◌, ◌+◌, ◌<◌, refl, ◌⊎◌, inl, inr,
  arith,
}
use trust_up_api.Loans.Money.{cent, round_cents}
use trust_up_api.Loans.Defs.{Loan, LoanStatus, same_status_iff}
use trust_up_api.StatusChecker.Metadata.{ℤ, pos, negsuc, pos_part, neg_part}
use trust_up_api.StatusChecker.FollowUp.{
  updated_status, updated_balance, status_entry, write_repayment,
}

-- What is left of a balance is it less the amount, in whole cents: the nearest to the difference,
-- half a cent rounded up, and nothing where that or less remains.
abbrev pub IsLeft : ℤ → ℕ → ℕ → Type 0
IsLeft amount balance left =
    let taken = pos_part amount in
    let added = neg_part amount in
    (left % cent ≡ 0)
    × (((left ≡ 0) × (balance + added < taken + 50000))
        ⊎ ((0 < left)
            × (left + taken ≤ balance + added + 50000)
            × (balance + added < left + taken + 50000)))

round_cents-IsLeft :
    (x : ℕ)
    → (round_cents x % cent ≡ 0)
      × (((round_cents x ≡ 0) × (x < 50000))
          ⊎ ((0 < round_cents x) × (round_cents x ≤ x + 50000) × (x < round_cents x + 50000)))
round_cents-IsLeft x = (
  omega arith,
  elim (Bool-cases (ltb x 50000)) [
    | inl little ↦ inl (ground arith, ground arith)
    | inr much ↦ inr (ground arith, ground arith, ground arith)
  ],
)

updated_balance-IsLeft :
    (balance : ℕ) (amount : ℤ) → IsLeft amount balance (updated_balance balance amount)
updated_balance-IsLeft balance (negsuc n) =
    let near = round_cents-IsLeft (balance + suc n) in
    (
      near.0,
      elim near.1 [
        | inl nothing ↦ inl (nothing.0, omega (arith, nothing.1))
        | inr some_left ↦ inr (some_left.0, omega (arith, some_left.1), omega (arith, some_left.2))
      ],
    )
updated_balance-IsLeft balance (pos amount) = elim (Bool-cases (leb balance amount)) [
  | inl covered ↦ rw covered (refl, inl (refl, ground arith))
  | inr short ↦
      let near = round_cents-IsLeft (balance - amount) in
      rw short (
        near.0,
        elim near.1 [
          | inl nothing ↦ inl (nothing.0, ground (arith, nothing.1))
          | inr some_left ↦
              inr (some_left.0, ground (arith, some_left.1), ground (arith, some_left.2))
        ],
      )
]

-- The loan with the amount taken off, completed exactly where nothing is left or it was complete
-- before.
abbrev pub Repays : ℤ → Loan → Loan → Type 0
Repays amount l l' =
    IsLeft amount l.remaining_balance l'.remaining_balance
    × (((l'.status ≡ LoanStatus.completed) × (l'.remaining_balance ≡ 0))
        ⊎ ((l'.status ≡ l.status) × (0 < l'.remaining_balance)))
    × (l'.loan_id ≡ l.loan_id)
    × (l'.user_wallet ≡ l.user_wallet)
    × (l'.total_repayment ≡ l.total_repayment)

pub written-status :
    (now balance : ℕ) (l : Loan)
    → (write_repayment now balance (status_entry balance l.status) l).status
      ≡ updated_status balance l.status
written-status now balance l =
    ground (arith, same_status_iff (updated_status balance l.status) l.status)

pub written :
    (now balance : ℕ) (l : Loan)
    → let l' = write_repayment now balance (status_entry balance l.status) l in
      (l'.remaining_balance ≡ balance)
      × (((l'.status ≡ LoanStatus.completed) × (l'.remaining_balance ≡ 0))
          ⊎ ((l'.status ≡ l.status) × (0 < l'.remaining_balance)))
      × (l'.loan_id ≡ l.loan_id)
      × (l'.user_wallet ≡ l.user_wallet)
      × (l'.total_repayment ≡ l.total_repayment)
written now balance l = (
  ground arith,
  elim (Bool-cases (balance == 0)) [
    | inl nothing ↦ inl (ground arith, ground (arith, ==_iff balance 0))
    | inr some_left ↦ inr (ground arith, ground (arith, ==_iff balance 0))
  ],
  ground arith,
  ground arith,
  ground arith,
)

pub write_repayment-Repays :
    (now : ℕ) (amount : ℤ) (l : Loan)
    → let balance = updated_balance l.remaining_balance amount in
      Repays amount l (write_repayment now balance (status_entry balance l.status) l)
write_repayment-Repays now amount l =
    let w = written now (updated_balance l.remaining_balance amount) l in
    (rw w.0 (updated_balance-IsLeft l.remaining_balance amount), w.1, w.2, w.3, w.4)
