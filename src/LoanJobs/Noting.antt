-- ===== src/LoanJobs/Noting.antt =====
-- The rounds of the yield distribution that note the interest of loans as distributed.
use trust_up_api.Base.{
  ℕ, ◌==◌, ◌&&◌, leb, ◌≡◌, ◌<◌, refl, subst, ◌∙◌, inl, inr, ◌⊎◌, Bool-cases, Bool, true,
  if◌then◌else◌, List, [], ◌∷◌, keep, change, change_same, Result-cases, update-ok, Each, Each-refl,
  Each-mono, DistinctBy, is_hit, Rounds, Writes, Rounds-Writes, arith,
}
use trust_up_api.Loans.Defs.{Loan}
use trust_up_api.LoanJobs.Defs.{JobStore, JobSources, loan_key}
use trust_up_api.LoanJobs.Crediting.{always, and_true}
use trust_up_api.LoanJobs.Yield.{
  bears_interest, pending_of, write_checkpoint, checkpoint, checkpoint_all,
}

-- As it was, or with its pending interest, above 0, noted as distributed.
abbrev pub Checkpoints : ℕ → Loan → Loan → Type 0
Checkpoints now l l' = (l' ≡ l) ⊎ ((0 < pending_of l) × (l' ≡ write_checkpoint now l l))

module _ (src : JobSources) (now : ℕ) where
  abbrev noted_row : Loan → Loan → Loan
  noted_row m l = if leb (pending_of m) 0 then l else write_checkpoint now m l

  noted_row-id : (m l : Loan) → (noted_row m l).id ≡ l.id
  noted_row-id m l = ground arith

  noted_row-Checkpoints :
      (l l' : Loan) → Writes loan_key always noted_row noted_row-id l l' → Checkpoints now l l'
  noted_row-Checkpoints l l' (inl e) = inl e
  noted_row-Checkpoints l l' (inr (hit, e)) = elim (Bool-cases (leb (pending_of l) 0)) [
    | inl none_due ↦ inl (rw none_due at e)
    | inr due ↦ inr (ground arith, rw due at e)
  ]

  abbrev Noted : List Loan → List Loan → List Loan → Type 0
  Noted = Rounds loan_key always noted_row noted_row-id

  checkpoint_cases :
      (m : Loan) (s : JobStore)
      → ((checkpoint src now m s).loans ≡ s.loans)
        ⊎ ((checkpoint src now m s).loans
            ≡ change (is_hit loan_key always noted_row noted_row-id m) (noted_row m) s.loans)
  unfolding checkpoint
  checkpoint_cases m s =
      let p : Loan → Bool = λ x. x.id == m.id in
      elim (Bool-cases (leb (pending_of m) 0)) [
        | inl none_due ↦ inl (ground arith)
        | inr due ↦
            elim (Result-cases (src.loans_table.update p (write_checkpoint now m) s.loans)) [
              | inl (x, failed) ↦ inl (ground arith)
              | inr (rows, done) ↦
                  let wrote =
                    update-ok src.loans_table p (write_checkpoint now m) s.loans rows done in
                  let same =
                    change_same p (λ x. p x && true) (write_checkpoint now m) (noted_row m)
                      (λ x. and_true (p x)) (λ x. rw due refl) s.loans in
                  inr (ground arith)
            ]
      ]

  checkpoint_all-Noted :
      (loans : List Loan) (s : JobStore)
      → Noted loans s.loans (checkpoint_all src now loans s).loans
  unfolding checkpoint_all
  checkpoint_all-Noted [] s = refl
  checkpoint_all-Noted (m ∷ loans) s =
      let step = checkpoint src now m s in
      let after = (checkpoint_all src now loans step).loans in
      let rest = checkpoint_all-Noted loans step in
      elim (checkpoint_cases m s) [
        | inl same ↦ inl (subst (λ xs. Noted loans xs after) same rest)
        | inr wrote ↦ inr (subst (λ xs. Noted loans xs after) wrote rest)
      ]

  pub checkpoint_all-keeps_positions :
      (loans : List Loan) (s : JobStore) → (checkpoint_all src now loans s).positions ≡ s.positions
  unfolding checkpoint_all checkpoint
  checkpoint_all-keeps_positions [] s = refl
  checkpoint_all-keeps_positions (m ∷ loans) s =
      let here : (checkpoint src now m s).positions ≡ s.positions = ground arith in
      checkpoint_all-keeps_positions loans (checkpoint src now m s) ∙ here

  pub unnoted : (s : JobStore) → Each (Checkpoints now) s.loans s.loans
  unnoted s = Each-refl (Checkpoints now) (λ l. inl refl) s.loans

  pub checkpoint_all-Checkpoints :
      (s : JobStore)
      → DistinctBy loan_key s.loans
      → Each
          (Checkpoints now)
          s.loans
          (checkpoint_all src now (keep bears_interest s.loans) s).loans
  checkpoint_all-Checkpoints s distinct =
      let after = (checkpoint_all src now (keep bears_interest s.loans) s).loans in
      Each-mono noted_row-Checkpoints s.loans after (
        Rounds-Writes loan_key always noted_row noted_row-id bears_interest s.loans after distinct
          (checkpoint_all-Noted (keep bears_interest s.loans) s))
