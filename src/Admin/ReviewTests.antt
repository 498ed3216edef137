-- ===== src/Admin/ReviewTests.antt =====
-- A review of one application, and the theorem of Reviews at it.
use trust_up_api.Base.{◌≡◌, true, false, none, some, [], ◌∷◌, ok, err, refl, reliable, Each, arith}
use trust_up_api.Auth.Defs.{User, UserRole, UserStatus}
use trust_up_api.Admin.Defs.{
  ApplicationStatus, MerchantApplication, AdminStore, AdminTables, AdminError,
}
use trust_up_api.Admin.Applying.{create_application, apply}
use trust_up_api.Admin.Pending.{OnePending, apply-OnePending}
use trust_up_api.Admin.Applications.{
  ApproveMerchantRequest, update_role, update_application, upsert_merchant, after_approval, decide,
  review_found, approve_merchant,
}
use trust_up_api.Admin.Reviews.{Reviews, approve_merchant-Reviews}

abbrev review_tables : AdminTables
review_tables = record {
  users_table = reliable;
  applications_table = reliable;
  merchants_table = reliable;
  loan_sources = record { loans_table = reliable; queue_refuses = λ event. false };
  overrides_table = reliable;
  is_wallet = λ id. false;
}

abbrev owner : User
owner = record {
  id = 4;
  wallet_address = 7;
  username = none;
  display_name = none;
  avatar_url = none;
  status = UserStatus.active;
  role = UserRole.borrower;
  last_seen_at = 0;
}

abbrev application : MerchantApplication
application = record {
  id = 1;
  user_id = some 4;
  wallet = 7;
  details = 33;
  status = ApplicationStatus.pending;
  reviewed_by = none;
  rejection_reason = none;
}

abbrev submitted : AdminStore
submitted = record {
  users = owner ∷ [];
  applications = application ∷ [];
  merchants = [];
  repo = record { loans = []; changes = [] };
  overrides = [];
}

abbrev approved_application : MerchantApplication
approved_application = record application { status = ApplicationStatus.approved }

abbrev decided : AdminStore
decided = record submitted {
  users = record owner { role = UserRole.merchant } ∷ [];
  applications = approved_application ∷ [];
  merchants = record { id = 9; wallet = 7; details = 33; is_active = true } ∷ [];
}

abbrev approval : ApproveMerchantRequest
approval = record { approved = true; rejection_reason = 0 }

approve_once :
    approve_merchant review_tables 9 1 approval none submitted
    ≡ (ok ApplicationStatus.approved, decided)
unfolding approve_merchant review_found decide update_application after_approval upsert_merchant
    update_role
approve_once = refl

approve_twice :
    approve_merchant review_tables 10 1 approval none decided
    ≡ (err AdminError.merchant_application_already_processed, decided)
unfolding approve_merchant review_found
approve_twice = refl

approve_merchant-Reviews_example : Each Reviews (application ∷ []) (approved_application ∷ [])
unfolding approve_merchant review_found decide update_application after_approval upsert_merchant
    update_role
approve_merchant-Reviews_example =
    approve_merchant-Reviews review_tables 9 1 approval none submitted

abbrev applied : MerchantApplication
applied = record application { id = 2; user_id = none; wallet = 8; details = 34 }

applies :
    apply review_tables 2 8 34 submitted
    ≡ (ok applied, record submitted { applications = application ∷ applied ∷ [] })
unfolding apply create_application
applies = refl

applies_twice :
    apply review_tables 2 7 34 submitted ≡ (err AdminError.merchant_application_pending, submitted)
unfolding apply create_application
applies_twice = refl

submitted-OnePending : OnePending (application ∷ [])
submitted-OnePending wallet = ground arith

apply-OnePending_example :
    OnePending (apply review_tables 2 8 34 submitted).1.applications
    × OnePending (approve_merchant review_tables 2 1 approval none submitted).1.applications
apply-OnePending_example =
    apply-OnePending review_tables 2 8 34 1 approval none submitted submitted-OnePending
