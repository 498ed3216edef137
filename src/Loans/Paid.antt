-- ===== src/Loans/Paid.antt =====
-- The invariant of the `loans` table that the writers of a status share.
use trust_up_api.Base.{◌≡◌, ◌⊎◌, false, All}
use trust_up_api.Loans.Defs.{Loan, LoanStatus, same_status, LoansState}

abbrev pub IsPaidUp : Loan → Type 0
IsPaidUp l = (l.remaining_balance ≡ 0) ⊎ (same_status l.status LoanStatus.completed ≡ false)

-- Every completed loan has no balance left.
abbrev pub AllPaidUp : LoansState → Type 0
AllPaidUp s = All IsPaidUp s.loans
