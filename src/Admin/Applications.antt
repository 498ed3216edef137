-- ===== src/Admin/Applications.antt =====
-- AdminService.updateUserRole and approveMerchant with the repositories of merchant applications,
-- merchants and users that they call (modules/admin/admin.service.ts, database/repositories).
use trust_up_api.Base.{
  ℕ, ◌==◌, ◌&&◌, not, Bool, true, false, Option, none, some, ok, err, ◌>>=◌, ◌>>◌, pure, throw,
  throw_if, reading, updating_one, if◌then◌else◌,
}
use trust_up_api.Auth.Defs.{User, UserRole}
use trust_up_api.Admin.Service.{id_of}
use trust_up_api.Admin.Defs.{
  ApplicationStatus, MerchantApplication, MerchantRow, AdminTables, AdminError, Admin, put_users,
  put_applications, put_merchants,
}

abbrev pub is_pending : ApplicationStatus → Bool
is_pending ApplicationStatus.pending = true
is_pending _ = false

-- `rejection_reason` is the text of the request, or the default one.
pub record ApproveMerchantRequest : Type 0 where
  pub approved : Bool
  pub rejection_reason : ℕ

-- The columns that a review writes.
abbrev pub review :
    ApplicationStatus → Option ℕ → Option ℕ → MerchantApplication → MerchantApplication
review status reviewer reason a = record a {
  status = status;
  reviewed_by = reviewer;
  rejection_reason = reason;
}

-- The payload of `upsertMerchant`, as a row and as a write.
abbrev pub merchant_of : ℕ → MerchantApplication → MerchantRow
merchant_of id a = record { id = id; wallet = a.wallet; details = a.details; is_active = true }

abbrev pub activate : MerchantApplication → MerchantRow → MerchantRow
activate a m = record m { details = a.details; is_active = true }

abbrev pub pending_of : ℕ → MerchantApplication → Bool
pending_of wallet a = (a.wallet == wallet) && is_pending a.status

module _ (tables : AdminTables) where
  abbrev pub application_where : (MerchantApplication → Bool) → Admin (Option MerchantApplication)
  application_where p =
      reading (λ s. tables.applications_table.maybe_single p s.applications)
        AdminError.database_error

  abbrev pub user_where : (User → Bool) → Admin (Option User)
  user_where p = reading (λ s. tables.users_table.maybe_single p s.users) AdminError.database_error

  abbrev pub merchant_where : (MerchantRow → Bool) → Admin (Option MerchantRow)
  merchant_where p =
      reading (λ s. tables.merchants_table.maybe_single p s.merchants) AdminError.database_error

  unfoldable pub update_role : ℕ → UserRole → Admin User
  update_role id role =
      updating_one put_users
        (λ s.
          tables.users_table.update_one (λ u. u.id == id) (λ u. record u { role = role }) s.users)
        AdminError.database_error

  abbrev pub change_role : UserRole → Option User → Admin User
  change_role role none = throw AdminError.admin_user_not_found
  change_role role (some user) = update_role user.id role

  unfoldable pub update_user_role : ℕ → UserRole → Admin User
  update_user_role id role = do found ← user_where (λ u. u.id == id); change_role role found

  unfoldable pub update_application :
      ℕ → ApplicationStatus → Option ℕ → Option ℕ → Admin MerchantApplication
  update_application id status reviewer reason =
      updating_one put_applications
        (λ s.
          tables.applications_table.update_one (λ a. a.id == id) (review status reviewer reason)
            s.applications)
        AdminError.database_error

  unfoldable pub upsert_merchant : ℕ → MerchantApplication → Admin MerchantRow
  upsert_merchant fresh a s =
      elim (tables.merchants_table.upsert (λ m. m.wallet == a.wallet) (merchant_of fresh a)
        (activate a) s.merchants) [
          | ok (m, rows) ↦ (ok m, put_merchants s rows)
          | err _ ↦ (err AdminError.database_error, s)
        ]

  abbrev pub pending_of_merchant : Option MerchantRow → Admin (Option MerchantApplication)
  pending_of_merchant none = pure none
  pending_of_merchant (some m) = application_where (pending_of m.wallet)

  -- The fallback, where the text is no identifier of an application
  abbrev pub application_or_fallback :
      ℕ → Option MerchantApplication → Admin (Option MerchantApplication)
  application_or_fallback id (some a) = pure (some a)
  application_or_fallback id none = do
    merchant ← merchant_where (λ m. if tables.is_wallet id then m.wallet == id else m.id == id)
    pending_of_merchant merchant

  -- `adminUser?.id ?? null`, for a wallet if there is one
  abbrev pub reviewer_of : Option ℕ → Admin (Option ℕ)
  reviewer_of none = pure none
  reviewer_of (some wallet) = do
    admin ← user_where (λ u. u.wallet_address == wallet)
    pure (id_of admin)

  abbrev pub target_user : MerchantApplication → Admin (Option User)
  target_user a = elim a.user_id [
    | some id ↦ user_where (λ u. u.id == id)
    | none ↦ user_where (λ u. u.wallet_address == a.wallet)
  ]

  abbrev pub promote : Option User → Admin (Unit {0})
  promote none = pure tt
  promote (some u) = update_role u.id UserRole.merchant >> pure tt

  unfoldable pub after_approval : ℕ → MerchantApplication → Admin ApplicationStatus
  after_approval fresh updated = do
    upsert_merchant fresh updated
    user ← target_user updated
    promote user
    pure ApplicationStatus.approved

  unfoldable pub decide :
      ℕ → ApproveMerchantRequest → MerchantApplication → Option ℕ → Admin ApplicationStatus
  decide fresh dto a reviewer =
      if dto.approved
      then update_application a.id ApplicationStatus.approved reviewer none >>= after_approval fresh
      else update_application a.id ApplicationStatus.rejected reviewer (some dto.rejection_reason)
        >> pure ApplicationStatus.rejected

  unfoldable pub review_found :
      ℕ → ApproveMerchantRequest → Option ℕ → Option MerchantApplication → Admin ApplicationStatus
  review_found fresh dto admin_wallet none = throw AdminError.merchant_application_not_found
  review_found fresh dto admin_wallet (some a) = do
    throw_if (not (is_pending a.status)) AdminError.merchant_application_already_processed
    reviewer ← reviewer_of admin_wallet
    decide fresh dto a reviewer

  -- The answer is cut down to the new status; `fresh` is the identifier of a new merchant.
  unfoldable pub approve_merchant :
      ℕ → ℕ → ApproveMerchantRequest → Option ℕ → Admin ApplicationStatus
  approve_merchant fresh id dto admin_wallet = do
    direct ← application_where (λ a. a.id == id)
    found ← application_or_fallback id direct
    review_found fresh dto admin_wallet found
