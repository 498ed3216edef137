-- ===== src/LoanJobs/Crediting.antt =====
-- What the credits of the yield distribution do to the positions.
use trust_up_api.Base.{
  ℕ, ◌==◌, ◌&&◌, leb, ◌≡◌, ◌<◌, refl, sym, ap, subst, ◌∙◌, inl, inr, ◌⊎◌, Bool-cases, Bool, true,
  false, if◌then◌else◌, List, [], ◌∷◌, keep, change, change_same, Result-cases, update-ok, Each,
  Each-mono, DistinctBy, is_hit, Rounds, Writes, Rounds-Writes, arith,
}
use trust_up_api.LoanJobs.Defs.{LiquidityPosition, JobStore, JobSources, position_key}
use trust_up_api.LoanJobs.Yield.{share_of_pool, write_credit, credit_lp, credit_all}

-- As it was, or with its share of the pool, above 0, added.
abbrev pub Credits : ℕ → ℕ → ℕ → LiquidityPosition → LiquidityPosition → Type 0
Credits now total pool p p' =
    (p' ≡ p)
    ⊎ ((0 < share_of_pool p.shares total pool)
        × (p' ≡ write_credit now (share_of_pool p.shares total pool) p p))

abbrev pub always {ℓ} : {A : Type ℓ} → A → Bool
always x = true

pub keep-always {ℓ} : {A : Type ℓ} (xs : List A) → keep always xs ≡ xs
keep-always [] = refl
keep-always (x ∷ xs) = ap (λ rest. x ∷ rest) (keep-always xs)

pub and_true : (b : Bool) → b ≡ (b && true)
and_true true = refl
and_true false = refl

module _ (src : JobSources) (now : ℕ) where
  module _ (total pool : ℕ) where
    abbrev credited_row : LiquidityPosition → LiquidityPosition → LiquidityPosition
    credited_row m p =
        if leb (share_of_pool m.shares total pool) 0
        then p
        else write_credit now (share_of_pool m.shares total pool) m p

    credited_row-id : (m p : LiquidityPosition) → (credited_row m p).id ≡ p.id
    credited_row-id m p = ground arith

    credited_row-Credits :
        (p p' : LiquidityPosition)
        → Writes position_key always credited_row credited_row-id p p'
        → Credits now total pool p p'
    credited_row-Credits p p' (inl e) = inl e
    credited_row-Credits p p' (inr (hit, e)) =
        elim (Bool-cases (leb (share_of_pool p.shares total pool) 0)) [
          | inl no_share ↦ inl (rw no_share at e)
          | inr share ↦ inr (ground arith, rw share at e)
        ]

    abbrev Credited :
        List LiquidityPosition → List LiquidityPosition → List LiquidityPosition → Type 0
    Credited = Rounds position_key always credited_row credited_row-id

    credit_cases :
        (m : LiquidityPosition) (paid : ℕ) (s : JobStore)
        → let t = (credit_lp src now total pool m paid s).1 in
          (t.positions ≡ s.positions)
          ⊎ (t.positions
              ≡ change
                  (is_hit position_key always credited_row credited_row-id m)
                  (credited_row m)
                  s.positions)
    unfolding credit_lp
    credit_cases m paid s =
        let amount = share_of_pool m.shares total pool in
        let p : LiquidityPosition → Bool = λ x. x.id == m.id in
        elim (Bool-cases (leb amount 0)) [
          | inl no_share ↦ inl (ground arith)
          | inr share ↦
              elim (Result-cases
                (src.positions_table.update p (write_credit now amount m) s.positions)) [
                  | inl (x, failed) ↦ inl (ground arith)
                  | inr (rows, done) ↦
                      let wrote =
                        update-ok src.positions_table p (write_credit now amount m) s.positions rows
                          done in
                      let same =
                        change_same p (λ x. p x && true) (write_credit now amount m)
                          (credited_row m) (λ x. and_true (p x)) (λ x. rw share refl) s.positions in
                      inr (ground arith)
                ]
        ]

    credit_all-Credited :
        (positions : List LiquidityPosition) (paid : ℕ) (s : JobStore)
        → Credited positions s.positions
            (credit_all src now total pool positions paid s).1.positions
    unfolding credit_all
    credit_all-Credited [] paid s = refl
    credit_all-Credited (m ∷ positions) paid s =
        let step = credit_lp src now total pool m paid s in
        let after = (credit_all src now total pool positions step.0 step.1).1.positions in
        let rest = credit_all-Credited positions step.0 step.1 in
        elim (credit_cases m paid s) [
          | inl same ↦ inl (subst (λ xs. Credited positions xs after) same rest)
          | inr wrote ↦ inr (subst (λ xs. Credited positions xs after) wrote rest)
        ]

    pub credit_all-Credits :
        (paid : ℕ) (s : JobStore)
        → DistinctBy position_key s.positions
        → Each
            (Credits now total pool)
            s.positions
            (credit_all src now total pool s.positions paid s).1.positions
    credit_all-Credits paid s distinct =
        let after = (credit_all src now total pool s.positions paid s).1.positions in
        let done = credit_all-Credited s.positions paid s in
        Each-mono credited_row-Credits s.positions after (
          Rounds-Writes position_key always credited_row credited_row-id always s.positions after
            distinct
            (subst (λ xs. Credited xs s.positions after) (sym (keep-always s.positions)) done))

    pub credit_all-keeps_loans :
        (positions : List LiquidityPosition) (paid : ℕ) (s : JobStore)
        → (credit_all src now total pool positions paid s).1.loans ≡ s.loans
    unfolding credit_all credit_lp
    credit_all-keeps_loans [] paid s = refl
    credit_all-keeps_loans (m ∷ positions) paid s =
        let step = credit_lp src now total pool m paid s in
        let here : step.1.loans ≡ s.loans = ground arith in
        credit_all-keeps_loans positions step.0 step.1 ∙ here
