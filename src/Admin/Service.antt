-- ===== src/Admin/Service.antt =====
-- AdminService.overrideLoan and the methods of LoansRepository that only it calls
-- (modules/admin/admin.service.ts, database/repositories/loans.repository.ts).
use trust_up_api.Base.{
  ℕ, ◌==◌, not, any, Bool, true, false, Option, none, some, List, [], ◌∷◌, ◌>>=◌, ◌>>◌, pure, throw,
  throw_if, reading, writing, updating_one, zoom, if◌then◌else◌,
}
use trust_up_api.Auth.Defs.{User}
use trust_up_api.Loans.Defs.{Loan, LoanStatus, same_status, put_loans}
use trust_up_api.Loans.Repository.{Repo, RepositoryError, dispatch_status_change, find_one}
use trust_up_api.Admin.Defs.{LoanOverride, AdminTables, AdminError, Admin, put_repo, put_overrides}

-- `VALID_LOAN_TRANSITIONS`
unfoldable pub valid_loan_transitions : LoanStatus → List LoanStatus
valid_loan_transitions LoanStatus.pending =
    LoanStatus.active ∷ LoanStatus.cancelled ∷ LoanStatus.completed ∷ []
valid_loan_transitions LoanStatus.active =
    LoanStatus.completed ∷ LoanStatus.defaulted ∷ LoanStatus.cancelled ∷ []
valid_loan_transitions LoanStatus.defaulted = LoanStatus.active ∷ LoanStatus.completed ∷ []
valid_loan_transitions LoanStatus.completed = []
valid_loan_transitions LoanStatus.cancelled = []

abbrev pub is_empty : {A : Type 0} → List A → Bool
is_empty [] = true
is_empty (x ∷ xs) = false

abbrev pub includes : List LoanStatus → LoanStatus → Bool
includes allowed target = any (λ s. same_status s target) allowed

-- `updates`, written to a row with the time
abbrev pub write_override : ℕ → LoanStatus → Loan → Loan
write_override now LoanStatus.completed l = record l {
  status = LoanStatus.completed;
  remaining_balance = 0;
  completed_at = some now;
  updated_at = now;
}
write_override now LoanStatus.defaulted l = record l {
  status = LoanStatus.defaulted;
  defaulted_at = some now;
  updated_at = now;
}
write_override now LoanStatus.active l = record l {
  status = LoanStatus.active;
  defaulted_at = none;
  updated_at = now;
}
write_override now target l = record l { status = target; updated_at = now }

pub record OverrideLoanRequest : Type 0 where
  pub target_status : LoanStatus
  pub reason : ℕ

abbrev pub id_of : Option User → Option ℕ
id_of none = none
id_of (some u) = some u.id

abbrev pub repository_error : RepositoryError → AdminError
repository_error RepositoryError.queue_error = AdminError.queue_error
repository_error _ = AdminError.database_error

module _ (tables : AdminTables) where
  -- `findDetailedById`; `by_uuid` says whether the text is a UUID.
  unfoldable pub find_detailed_by_id : Bool → ℕ → Repo (Option Loan)
  find_detailed_by_id by_uuid id =
      find_one tables.loan_sources (λ l. if by_uuid then l.id == id else l.loan_id == id)

  unfoldable pub apply_loan_override : ℕ → Loan → LoanStatus → Repo (Unit {0})
  unfolding dispatch_status_change
  apply_loan_override now loan target = do
    updating_one put_loans
        (λ s.
          tables.loan_sources.loans_table.update_one (λ l. l.id == loan.id)
            (write_override now target) s.loans)
        RepositoryError.database_query_error
    dispatch_status_change tables.loan_sources (some loan) target loan.user_wallet

  unfoldable pub record_override : LoanOverride → Admin (Unit {0})
  record_override entry =
      writing put_overrides (λ s. tables.overrides_table.insert entry s.overrides)
        AdminError.database_error

  abbrev pub on_repo : {A : Type 0} → Repo A → Admin A
  on_repo m = zoom (λ s. s.repo) put_repo repository_error m

  abbrev pub find_user_by_wallet : ℕ → Admin (Option User)
  find_user_by_wallet wallet =
      reading (λ s. tables.users_table.maybe_single (λ u. u.wallet_address == wallet) s.users)
        AdminError.database_error

  abbrev pub entry_of : Loan → OverrideLoanRequest → ℕ → Option User → LoanOverride
  entry_of loan dto admin_wallet admin = record {
    loan_id = loan.id;
    admin_id = id_of admin;
    admin_wallet = admin_wallet;
    previous_status = loan.status;
    new_status = dto.target_status;
    reason = dto.reason;
  }

  unfoldable pub override_allowed :
      ℕ → OverrideLoanRequest → ℕ → Loan → Admin (LoanStatus × LoanStatus)
  override_allowed now dto admin_wallet loan = do
    admin ← find_user_by_wallet admin_wallet
    on_repo (apply_loan_override now loan dto.target_status)
    record_override (entry_of loan dto admin_wallet admin)
    pure (loan.status, dto.target_status)

  unfoldable pub override_found :
      ℕ → OverrideLoanRequest → ℕ → Option Loan → Admin (LoanStatus × LoanStatus)
  override_found now dto admin_wallet none = throw AdminError.loan_not_found
  override_found now dto admin_wallet (some loan) = do
    throw_if (same_status loan.status dto.target_status) AdminError.loan_override_same_status
    throw_if (is_empty (valid_loan_transitions loan.status)) AdminError.loan_override_terminal_state
    throw_if (not (includes (valid_loan_transitions loan.status) dto.target_status))
        AdminError.invalid_loan_override_transition
    override_allowed now dto admin_wallet loan

  -- The answer is cut down to the two statuses.
  unfoldable pub override_loan :
      ℕ → Bool → ℕ → OverrideLoanRequest → ℕ → Admin (LoanStatus × LoanStatus)
  override_loan now by_uuid id dto admin_wallet = do
    loan ← on_repo (find_detailed_by_id by_uuid id)
    override_found now dto admin_wallet loan
