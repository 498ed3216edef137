-- ===== src/Admin/AuditTrail.antt =====
-- The audit trail of an override.
use trust_up_api.Base.{
  ℕ, ◌≡◌, ◌==◌, Bool, true, Option, none, some, [], ◌∷◌, ◌++◌, ok, inl, inr, arith, keep,
  Result-cases, maybe_single-some, insert-ok,
}
use trust_up_api.Auth.Defs.{User}
use trust_up_api.Loans.Defs.{Loan, LoanStatus}
use trust_up_api.Admin.Defs.{AdminStore, AdminTables}
use trust_up_api.Admin.Service.{
  valid_loan_transitions, includes, OverrideLoanRequest, find_detailed_by_id, apply_loan_override,
  record_override, override_found, override_allowed, override_loan, entry_of,
}
use trust_up_api.Admin.Overrides.{named}

module _ (tables : AdminTables) where
  override_allowed-records :
      (now : ℕ) (dto : OverrideLoanRequest) (wallet : ℕ) (loan : Loan) (s s' : AdminStore)
      (from to : LoanStatus)
      → override_allowed tables now dto wallet loan s ≡ (ok (from, to), s')
      → (from ≡ loan.status)
        × (to ≡ dto.target_status)
        × (admin : Option User) × (s'.overrides
            ≡ s.overrides ++ entry_of tables loan dto wallet admin ∷ [])
  unfolding override_allowed record_override
  override_allowed-records now dto wallet loan s s' from to e =
      elim (Result-cases
        (tables.users_table.maybe_single (λ u. u.wallet_address == wallet) s.users)) [
          | inl (x, u) ↦ ground arith
          | inr (admin, u) ↦
              let entry = entry_of tables loan dto wallet admin in
              elim (Result-cases (tables.overrides_table.insert entry s.overrides)) [
                | inl (x, i) ↦ ground arith
                | inr (rows, i) ↦
                    elim (Result-cases
                      (apply_loan_override tables now loan dto.target_status s.repo).0) [
                        | inl (x, a) ↦ ground arith
                        | inr (done, a) ↦
                            let added = insert-ok tables.overrides_table entry s.overrides rows i in
                            (ground arith, ground arith, admin, ground (arith, added))
                      ]
              ]
        ]

  override_found-passes :
      (now : ℕ) (dto : OverrideLoanRequest) (wallet : ℕ) (loan : Loan) (s s' : AdminStore)
      (answer : LoanStatus × LoanStatus)
      → override_found tables now dto wallet (some loan) s ≡ (ok answer, s')
      → (includes (valid_loan_transitions loan.status) dto.target_status ≡ true)
        × (override_allowed tables now dto wallet loan s ≡ (ok answer, s'))
  unfolding override_found
  override_found-passes now dto wallet loan s s' answer e = (ground arith, ground arith)

  -- An override that returns names one loan, moves it along an allowed transition, and adds its
  -- entry to the audit trail, with both statuses and the wallet of the admin.
  pub override_loan-records :
      (now : ℕ) (by_uuid : Bool) (id : ℕ) (dto : OverrideLoanRequest) (wallet : ℕ)
      (s s' : AdminStore) (from to : LoanStatus)
      → override_loan tables now by_uuid id dto wallet s ≡ (ok (from, to), s')
      → (loan : Loan) × (admin : Option User) × (keep (named tables by_uuid id) s.repo.loans
          ≡ loan ∷ [])
        × (from ≡ loan.status)
        × (to ≡ dto.target_status)
        × (includes (valid_loan_transitions from) to ≡ true)
        × (s'.overrides ≡ s.overrides ++ entry_of tables loan dto wallet admin ∷ [])
  unfolding override_loan find_detailed_by_id override_found
  override_loan-records now by_uuid id dto wallet s s' from to e =
      let p = named tables by_uuid id in
      elim (Result-cases (tables.loan_sources.loans_table.maybe_single p s.repo.loans)) [
        | inl (x, q) ↦ ground arith
        | inr (none, q) ↦ ground arith
        | inr (some loan, q) ↦
            let only = maybe_single-some tables.loan_sources.loans_table p s.repo.loans loan q in
            let passed = override_found-passes now dto wallet loan s s' (from, to) (rw q at e) in
            let recorded = override_allowed-records now dto wallet loan s s' from to passed.1 in
            (
              loan,
              recorded.2,
              only,
              recorded.0,
              recorded.1,
              rw (recorded.0, recorded.1) passed.0,
              recorded.3,
            )
      ]
