-- ===== src/Admin/Overrides.antt =====
-- What an override does to the loans and to the audit trail, on every path.
use trust_up_api.Base.{
  ℕ, ◌≡◌, ◌==◌, ==_refl, Bool, true, Option, none, some, [], ◌∷◌, ok, refl, subst, ◌⊎◌, inl, inr,
  arith, keep, change, Result-cases, update_one-some, update_one-none, maybe_single-some, throw_if,
  ◌>>◌, not, after_throw_if, keep-agrees, Each, Each-refl, Each-change_one, All-change_one,
  if◌then◌else◌,
}
use trust_up_api.Loans.Defs.{Loan, LoanStatus, same_status, LoansState}
use trust_up_api.Loans.Paid.{IsPaidUp, AllPaidUp}
use trust_up_api.Loans.Repository.{dispatch_status_change}
use trust_up_api.Admin.Defs.{AdminStore, AdminTables, AdminError}
use trust_up_api.Admin.Service.{
  valid_loan_transitions, includes, is_empty, write_override, OverrideLoanRequest,
  find_detailed_by_id, apply_loan_override, record_override, override_found, override_allowed,
  override_loan,
}

-- As it was, or moved along an allowed transition.
abbrev pub Overrides : Loan → Loan → Type 0
Overrides l l' = (l' ≡ l) ⊎ (includes (valid_loan_transitions l.status) l'.status ≡ true)

write_override-status :
    (now : ℕ) (target : LoanStatus) (l : Loan) → (write_override now target l).status ≡ target
write_override-status now target l = ground arith

write_override-IsPaidUp :
    (now : ℕ) (target : LoanStatus) (l : Loan) → IsPaidUp (write_override now target l)
write_override-IsPaidUp now LoanStatus.pending l = inr refl
write_override-IsPaidUp now LoanStatus.active l = inr refl
write_override-IsPaidUp now LoanStatus.completed l = inl refl
write_override-IsPaidUp now LoanStatus.defaulted l = inr refl
write_override-IsPaidUp now LoanStatus.cancelled l = inr refl

module _ (tables : AdminTables) where
  -- What the update of a loan that was read may do to the table.
  apply_loan_override-writes :
      (now : ℕ) (loan : Loan) (target : LoanStatus) (p : Loan → Bool) (s : LoansState)
      → keep p s.loans ≡ loan ∷ []
      → let s' = (apply_loan_override tables now loan target s).1 in
        (s'.loans ≡ s.loans)
        ⊎ ((keep (λ l. l.id == loan.id) s.loans ≡ loan ∷ [])
            × (s'.loans ≡ change (λ l. l.id == loan.id) (write_override now target) s.loans))
  unfolding apply_loan_override dispatch_status_change
  apply_loan_override-writes now loan target p s only =
      let q : Loan → Bool = λ l. l.id == loan.id in
      let f = write_override now target in
      elim (Result-cases (tables.loan_sources.loans_table.update_one q f s.loans)) [
        | inl (x, u) ↦ inl (ground arith)
        | inr ((none, rows), u) ↦
            let law = update_one-none tables.loan_sources.loans_table q f s.loans rows u in
            inl (ground (arith, law))
        | inr ((some r, rows), u) ↦
            let law = update_one-some tables.loan_sources.loans_table q f s.loans rows r u in
            let same : law.0 ≡ loan = keep-agrees p q s.loans law.1 only (==_refl loan.id) in
            inr (subst (λ r. keep q s.loans ≡ r ∷ []) same law.1, ground (arith, law.3))
      ]

  -- The update is the only statement that reaches the loans.
  override_allowed-applies :
      (now : ℕ) (dto : OverrideLoanRequest) (wallet : ℕ) (loan : Loan) (s : AdminStore)
      → let s' = (override_allowed tables now dto wallet loan s).1 in
        (s'.repo ≡ s.repo)
        ⊎ (s'.repo ≡ (apply_loan_override tables now loan dto.target_status s.repo).1)
  unfolding override_allowed record_override
  override_allowed-applies now dto wallet loan s = ground arith

  module _ (Q : LoansState → Type 0) (now : ℕ) (dto : OverrideLoanRequest) (wallet : ℕ) where
    override_found_lem :
        (p : Loan → Bool) (found : Option Loan) (s : AdminStore)
        → (tables.loan_sources.loans_table.maybe_single p s.repo.loans ≡ ok found)
        → Q s.repo
        → ((loan : Loan)
            → keep p s.repo.loans ≡ loan ∷ []
            → includes (valid_loan_transitions loan.status) dto.target_status ≡ true
            → Q (apply_loan_override tables now loan dto.target_status s.repo).1)
        → Q (override_found tables now dto wallet found s).1.repo
    unfolding override_found
    override_found_lem p none s e here applied = here
    override_found_lem p (some loan) s e here applied =
        let R : AdminStore → Type 0 = λ s. Q s.repo in
        let only = maybe_single-some tables.loan_sources.loans_table p s.repo.loans loan e in
        let target = dto.target_status in
        let allowed = valid_loan_transitions loan.status in
        let last = override_allowed tables now dto wallet loan in
        let third =
          throw_if (not (includes allowed target)) AdminError.invalid_loan_override_transition
          >> last in
        let second = throw_if (is_empty allowed) AdminError.loan_override_terminal_state >> third in
        after_throw_if R AdminError.loan_override_same_status second s
          (same_status loan.status target)
          (λ differs.
            after_throw_if R AdminError.loan_override_terminal_state third s (is_empty allowed)
              (λ some_allowed.
                after_throw_if R AdminError.invalid_loan_override_transition last s
                  (not (includes allowed target))
                  (λ fine. elim (override_allowed-applies now dto wallet loan s) [
                    | inl same ↦ rw same here
                    | inr done ↦ rw done (applied loan only (ground arith))
                  ])
                  here)
              here)
          here

  -- The loan that an identifier names.
  abbrev pub named : Bool → ℕ → Loan → Bool
  named by_uuid id l = if by_uuid then l.id == id else l.loan_id == id

  module _ (Q : LoansState → Type 0) (now : ℕ) (dto : OverrideLoanRequest) (wallet : ℕ) where
    override_loan_lem :
        (by_uuid : Bool) (id : ℕ) (s : AdminStore)
        → Q s.repo
        → ((loan : Loan)
            → keep (named by_uuid id) s.repo.loans ≡ loan ∷ []
            → includes (valid_loan_transitions loan.status) dto.target_status ≡ true
            → Q (apply_loan_override tables now loan dto.target_status s.repo).1)
        → Q (override_loan tables now by_uuid id dto wallet s).1.repo
    unfolding override_loan find_detailed_by_id
    override_loan_lem by_uuid id s here applied =
        let p = named by_uuid id in
        elim (Result-cases (tables.loan_sources.loans_table.maybe_single p s.repo.loans)) [
          | inl (x, e) ↦ rw e here
          | inr (found, e) ↦
              let done = override_found_lem Q now dto wallet p found s e here applied in rw e done
        ]

  -- An override, whatever comes of it, leaves every loan as it was or moves it along a transition
  -- that its status allows; a completed or cancelled loan has none, so it stays.
  pub override_loan-Overrides :
      (now : ℕ) (by_uuid : Bool) (id : ℕ) (dto : OverrideLoanRequest) (wallet : ℕ) (s : AdminStore)
      → Each Overrides s.repo.loans (override_loan tables now by_uuid id dto wallet s).1.repo.loans
  override_loan-Overrides now by_uuid id dto wallet s =
      let same = Each-refl Overrides (λ l. inl refl) s.repo.loans in
      override_loan_lem (λ r. Each Overrides s.repo.loans r.loans) now dto wallet by_uuid id s same
        (λ loan only allowed.
          elim (apply_loan_override-writes now loan dto.target_status (named by_uuid id) s.repo
            only) [
              | inl kept ↦ rw kept same
              | inr (one, wrote) ↦ rw wrote (
                  Each-change_one Overrides (λ l. l.id == loan.id)
                    (write_override now dto.target_status) (λ l. inl refl) s.repo.loans one
                    (inr (rw (write_override-status now dto.target_status loan) allowed)))
            ])

  -- Overrides keep that every completed loan is paid.
  pub override_loan-AllPaidUp :
      (now : ℕ) (by_uuid : Bool) (id : ℕ) (dto : OverrideLoanRequest) (wallet : ℕ) (s : AdminStore)
      → AllPaidUp s.repo
      → AllPaidUp (override_loan tables now by_uuid id dto wallet s).1.repo
  override_loan-AllPaidUp now by_uuid id dto wallet s h =
      override_loan_lem AllPaidUp now dto wallet by_uuid id s h (λ loan only allowed.
        elim (apply_loan_override-writes now loan dto.target_status (named by_uuid id) s.repo
          only) [
            | inl kept ↦ rw kept h
            | inr (one, wrote) ↦ rw wrote (
                All-change_one IsPaidUp (λ l. l.id == loan.id)
                  (write_override now dto.target_status) s.repo.loans one
                  (λ before. write_override-IsPaidUp now dto.target_status loan) h)
          ])
