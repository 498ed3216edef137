-- ===== src/Admin/Defs.antt =====
-- The tables that AdminService works on (modules/admin/admin.service.ts), and its errors.
use trust_up_api.Base.{ℕ, Option, Bool, List, Table, Action}
use trust_up_api.Auth.Defs.{User}
use trust_up_api.Loans.Defs.{LoanStatus, LoansState}
use trust_up_api.Loans.Repository.{LoanSources}

pub data ApplicationStatus : Type 0 where
  pending approved rejected : ApplicationStatus

-- A row of `merchant_applications`; `details` stands for the columns that are only copied.
pub record MerchantApplication : Type 0 where
  pub id : ℕ
  pub user_id : Option ℕ
  pub wallet : ℕ
  pub details : ℕ
  pub status : ApplicationStatus
  pub reviewed_by : Option ℕ
  pub rejection_reason : Option ℕ

-- A row of `merchants`
pub record MerchantRow : Type 0 where
  pub id : ℕ
  pub wallet : ℕ
  pub details : ℕ
  pub is_active : Bool

-- A row of `loan_overrides`
pub record LoanOverride : Type 0 where
  pub loan_id : ℕ
  pub admin_id : Option ℕ
  pub admin_wallet : ℕ
  pub previous_status : LoanStatus
  pub new_status : LoanStatus
  pub reason : ℕ

pub record AdminStore : Type 0 where
  pub users : List User
  pub applications : List MerchantApplication
  pub merchants : List MerchantRow
  pub repo : LoansState
  pub overrides : List LoanOverride

pub record AdminTables : Type 0 where
  pub users_table : Table User
  pub applications_table : Table MerchantApplication
  pub merchants_table : Table MerchantRow
  pub loan_sources : LoanSources
  pub overrides_table : Table LoanOverride
  -- the shape of a text that is a wallet: `startsWith('G') && length === 56`
  pub is_wallet : ℕ → Bool

pub data AdminError : Type 0 where
  admin_user_not_found merchant_application_not_found : AdminError
  merchant_application_already_processed loan_not_found : AdminError
  loan_override_same_status loan_override_terminal_state : AdminError
  invalid_loan_override_transition : AdminError
  -- those of MerchantsService.apply
  merchant_already_exists merchant_already_active merchant_application_pending : AdminError
  -- an exception of a repository
  database_error queue_error : AdminError

abbrev pub Admin : Type 0 → Type 0
Admin A = Action AdminStore AdminError A

abbrev pub put_users : AdminStore → List User → AdminStore
put_users s rows = record s { users = rows }

abbrev pub put_applications : AdminStore → List MerchantApplication → AdminStore
put_applications s rows = record s { applications = rows }

abbrev pub put_merchants : AdminStore → List MerchantRow → AdminStore
put_merchants s rows = record s { merchants = rows }

abbrev pub put_repo : AdminStore → LoansState → AdminStore
put_repo s r = record s { repo = r }

abbrev pub put_overrides : AdminStore → List LoanOverride → AdminStore
put_overrides s rows = record s { overrides = rows }
