-- ===== src/Admin/Applying.antt =====
-- MerchantsService.apply (modules/merchants/merchants.service.ts), which adds to the table of
-- applications that the reviews work on.
use trust_up_api.Base.{
  ℕ, ◌==◌, Bool, true, false, Option, none, some, is_some, List, Result, ok, err, DbError, ◌>>=◌,
  ◌>>◌, throw_if,
}
use trust_up_api.Auth.Defs.{User, UserRole}
use trust_up_api.Admin.Service.{id_of}
use trust_up_api.Admin.Defs.{
  ApplicationStatus, MerchantApplication, MerchantRow, AdminStore, AdminTables, AdminError, Admin,
  put_applications,
}
use trust_up_api.Admin.Applications.{user_where, merchant_where, application_where, pending_of}

-- `user && user.role === UserRole.MERCHANT`
abbrev pub is_merchant_role : UserRole → Bool
is_merchant_role UserRole.merchant = true
is_merchant_role _ = false

abbrev pub is_merchant : Option User → Bool
is_merchant none = false
is_merchant (some u) = is_merchant_role u.role

-- `existingMerchant && existingMerchant.is_active`
abbrev pub is_active_merchant : Option MerchantRow → Bool
is_active_merchant none = false
is_active_merchant (some m) = m.is_active

abbrev pub new_application : ℕ → Option ℕ → ℕ → ℕ → MerchantApplication
new_application fresh user_id wallet details = record {
  id = fresh;
  user_id = user_id;
  wallet = wallet;
  details = details;
  status = ApplicationStatus.pending;
  reviewed_by = none;
  rejection_reason = none;
}

module _ (tables : AdminTables) where
  abbrev pub created :
      MerchantApplication
      → AdminStore
      → Result DbError (List MerchantApplication)
      → Result AdminError MerchantApplication × AdminStore
  created a s (ok rows) = (ok a, put_applications s rows)
  created a s (err _) = (err AdminError.database_error, s)

  -- `create` of the repository; `fresh` is the identifier of the new row.
  unfoldable pub create_application : MerchantApplication → Admin MerchantApplication
  create_application a s = created a s (tables.applications_table.insert a s.applications)

  abbrev pub apply_for : ℕ → ℕ → ℕ → Option User → Admin MerchantApplication
  apply_for fresh wallet details user = do
    throw_if (is_merchant user) AdminError.merchant_already_exists
    existing ← merchant_where tables (λ m. m.wallet == wallet)
    throw_if (is_active_merchant existing) AdminError.merchant_already_active
    pending ← application_where tables (pending_of wallet)
    throw_if (is_some pending) AdminError.merchant_application_pending
    create_application (new_application fresh (id_of user) wallet details)

  unfoldable pub apply : ℕ → ℕ → ℕ → Admin MerchantApplication
  unfolding create_application
  apply fresh wallet details = do
    user ← user_where tables (λ u. u.wallet_address == wallet)
    apply_for fresh wallet details user
