-- ===== src/LoanJobs/Interest.antt =====
-- Interest is never noted as distributed before it has accrued.
use trust_up_api.Base.{ℕ, ◌≤◌, inl, inr, List, [], ◌∷◌, All, Each, DistinctBy, arith}
use trust_up_api.Loans.Defs.{Loan}
use trust_up_api.LoanJobs.Defs.{JobStore, JobSources, loan_key, position_key}
use trust_up_api.LoanJobs.Accrual.{accrue_run}
use trust_up_api.LoanJobs.Accruals.{Accrues, accrue_run-Accrues}
use trust_up_api.LoanJobs.Yield.{pending_of, distribute_run}
use trust_up_api.LoanJobs.Noting.{Checkpoints}
use trust_up_api.LoanJobs.Distribution.{distribute_run-Distributes}

abbrev pub IsBacked : Loan → Type 0
IsBacked l = l.distributed_interest ≤ l.accrued_interest

Accrues-IsBacked : (now : ℕ) (l l' : Loan) → Accrues now l l' → IsBacked l → IsBacked l'
Accrues-IsBacked now l l' (inl e) h = rw e h
Accrues-IsBacked now l l' (inr (active, due, e)) h = rw e (omega arith)

Checkpoints-IsBacked : (now : ℕ) (l l' : Loan) → Checkpoints now l l' → IsBacked l → IsBacked l'
unfolding pending_of
Checkpoints-IsBacked now l l' (inl e) h = rw e h
Checkpoints-IsBacked now l l' (inr (due, e)) h = rw e (omega arith)

-- A relation that keeps a predicate of each row keeps it of all.
All-Each {ℓ} :
    {A : Type ℓ} (R : A → A → Type 0) (P : A → Type 0)
    → ((x y : A) → R x y → P x → P y)
    → (xs ys : List A) → Each R xs ys
    → All P xs
    → All P ys
All-Each R P step [] [] h k = k
All-Each R P step [] (y ∷ ys) h k = absurd h
All-Each R P step (x ∷ xs) [] h k = absurd h
All-Each R P step (x ∷ xs) (y ∷ ys) h k = (step x y h.0 k.0, All-Each R P step xs ys h.1 k.1)

-- Where the identifiers of positions and of loans are distinct and no loan has more interest
-- distributed than accrued, this is so after a run of the accrual and after a run of the yield
-- distribution, whatever fails in them.
pub jobs-AllBacked :
    (src : JobSources) (now period : ℕ) (s : JobStore)
    → DistinctBy position_key s.positions
    → DistinctBy loan_key s.loans
    → All IsBacked s.loans
    → All IsBacked (accrue_run src now period s).1.loans
      × All IsBacked (distribute_run src now period s).1.loans
jobs-AllBacked src now period s apart distinct h = (
  All-Each (Accrues now) IsBacked (Accrues-IsBacked now) s.loans _
      (accrue_run-Accrues src now period s distinct) h,
  All-Each (Checkpoints now) IsBacked (Checkpoints-IsBacked now) s.loans _
      (distribute_run-Distributes src now period s apart distinct).1 h,
)
