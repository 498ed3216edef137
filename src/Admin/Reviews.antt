-- ===== src/Admin/Reviews.antt =====
-- What a review does to the merchant applications, on every path.
use trust_up_api.Base.{
  ℕ, sym, ◌∙◌, ◌≡◌, ◌==◌, ==_refl, not, Bool, true, false, Option, none, some, [], ◌∷◌, ok, refl,
  subst, ◌⊎◌, inl, inr, arith, keep, change, ◌>>=◌, ◌>>◌, pure, Result-cases, Bool-cases,
  update_one-some, update_one-none, maybe_single-some, keep-agrees, Each, Each-refl,
  Each-change_one, after_step, after_reading, after_throw_if, if◌then◌else◌,
}
use trust_up_api.Auth.Defs.{User}
use trust_up_api.Admin.Defs.{
  ApplicationStatus, MerchantApplication, MerchantRow, AdminStore, AdminTables, AdminError,
}
use trust_up_api.Admin.Applications.{
  is_pending, ApproveMerchantRequest, review, application_where, update_role, update_application,
  upsert_merchant, pending_of, application_or_fallback, reviewer_of, target_user, promote,
  after_approval, decide, review_found, approve_merchant,
}

-- As it was, or a pending application of the wallet, decided.
abbrev pub Reviews : MerchantApplication → MerchantApplication → Type 0
Reviews a b =
    (b ≡ a)
    ⊎ ((is_pending a.status ≡ true)
        × (is_pending b.status ≡ false)
        × (b.id ≡ a.id)
        × (b.wallet ≡ a.wallet))

module _ (tables : AdminTables) where
  promote-keeps_applications :
      (u : Option User) (s : AdminStore) → (promote tables u s).1.applications ≡ s.applications
  unfolding update_role
  promote-keeps_applications none s = refl
  promote-keeps_applications (some u) s = ground arith

  target_user-keeps : (a : MerchantApplication) (s : AdminStore) → (target_user tables a s).1 ≡ s
  target_user-keeps a s = ground arith

  upsert_merchant-keeps_applications :
      (fresh : ℕ) (a : MerchantApplication) (s : AdminStore)
      → (upsert_merchant tables fresh a s).1.applications ≡ s.applications
  unfolding upsert_merchant
  upsert_merchant-keeps_applications fresh a s = ground arith

  after_approval-keeps_applications :
      (fresh : ℕ) (a : MerchantApplication) (s : AdminStore)
      → (after_approval tables fresh a s).1.applications ≡ s.applications
  unfolding after_approval
  after_approval-keeps_applications fresh a s =
      let Q : AdminStore → Type 0 = λ s'. s'.applications ≡ s.applications in
      let t = (upsert_merchant tables fresh a s).1 in
      let stored : Q t = upsert_merchant-keeps_applications fresh a s in
      after_step Q (upsert_merchant tables fresh a)
        (λ m.
          target_user tables a >>= λ user. promote tables user >> pure ApplicationStatus.approved)
        s
        (λ m e.
          after_reading Q (target_user tables a)
            (λ user. promote tables user >> pure ApplicationStatus.approved) t
            (target_user-keeps a t)
            (λ user found.
              let promoted : Q (promote tables user t).1 =
                promote-keeps_applications user t ∙ stored in
              after_step Q (promote tables user) (λ _. pure ApplicationStatus.approved) t
                (λ x y. promoted) promoted)
            stored)
        stored

  update_application-Reviews :
      (p : MerchantApplication → Bool) (a : MerchantApplication) (status : ApplicationStatus)
      (reviewer reason : Option ℕ) (s : AdminStore)
      → keep p s.applications ≡ a ∷ []
      → is_pending a.status ≡ true
      → is_pending status ≡ false
      → Each Reviews s.applications
          (update_application tables a.id status reviewer reason s).1.applications
  unfolding update_application
  update_application-Reviews p a status reviewer reason s only pending final =
      let q : MerchantApplication → Bool = λ b. b.id == a.id in
      let f = review status reviewer reason in
      let same = Each-refl Reviews (λ b. inl refl) s.applications in
      elim (Result-cases (tables.applications_table.update_one q f s.applications)) [
        | inl (x, u) ↦
            let after : (update_application tables a.id status reviewer reason s).1.applications
                ≡ s.applications =
              ground arith in
            rw after same
        | inr ((none, rows), u) ↦
            let law = update_one-none tables.applications_table q f s.applications rows u in
            let after : (update_application tables a.id status reviewer reason s).1.applications
                ≡ s.applications =
              ground (arith, law) in
            rw after same
        | inr ((some r, rows), u) ↦
            let law = update_one-some tables.applications_table q f s.applications rows r u in
            let agrees : law.0 ≡ a = keep-agrees p q s.applications law.1 only (==_refl a.id) in
            let after : (update_application tables a.id status reviewer reason s).1.applications
                ≡ change q f s.applications =
              ground (arith, law.3) in
            rw after (
              Each-change_one Reviews q f (λ b. inl refl) s.applications
                (subst (λ b. keep q s.applications ≡ b ∷ []) agrees law.1)
                (inr (pending, final, refl, refl)))
      ]

  decide-Reviews :
      (p : MerchantApplication → Bool) (fresh : ℕ) (dto : ApproveMerchantRequest)
      (a : MerchantApplication) (reviewer : Option ℕ) (s : AdminStore)
      → keep p s.applications ≡ a ∷ []
      → is_pending a.status ≡ true
      → Each Reviews s.applications (decide tables fresh dto a reviewer s).1.applications
  unfolding decide
  decide-Reviews p fresh dto a reviewer s only pending =
      let Q : AdminStore → Type 0 = λ s'. Each Reviews s.applications s'.applications in
      let approved = update_application tables a.id ApplicationStatus.approved reviewer none in
      let rejected =
        update_application tables a.id ApplicationStatus.rejected reviewer
          (some dto.rejection_reason) in
      let yes : Q (approved s).1 =
        update_application-Reviews p a ApplicationStatus.approved reviewer none s only pending
          refl in
      let no : Q (rejected s).1 =
        update_application-Reviews p a ApplicationStatus.rejected reviewer
          (some dto.rejection_reason) s only pending refl in
      elim (Bool-cases dto.approved) [
        | inl agreed ↦ rw agreed (
            after_step Q approved (after_approval tables fresh) s
              (λ updated e. rw (after_approval-keeps_applications fresh updated (approved s).1) yes)
              yes)
        | inr refused ↦
            rw refused
              (after_step Q rejected (λ _. pure ApplicationStatus.rejected) s (λ x y. no) no)
      ]

  reviewer_of-keeps : (wallet : Option ℕ) (s : AdminStore) → (reviewer_of tables wallet s).1 ≡ s
  reviewer_of-keeps none s = refl
  reviewer_of-keeps (some wallet) s = ground arith

  review_found-Reviews :
      (p : MerchantApplication → Bool) (fresh : ℕ) (dto : ApproveMerchantRequest) (admin : Option ℕ)
      (a : MerchantApplication) (s : AdminStore)
      → keep p s.applications ≡ a ∷ []
      → Each Reviews s.applications (review_found tables fresh dto admin (some a) s).1.applications
  unfolding review_found
  review_found-Reviews p fresh dto admin a s only =
      let Q : AdminStore → Type 0 = λ s'. Each Reviews s.applications s'.applications in
      let same : Q s = Each-refl Reviews (λ b. inl refl) s.applications in
      after_throw_if Q AdminError.merchant_application_already_processed
        (reviewer_of tables admin >>= decide tables fresh dto a) s (not (is_pending a.status))
        (λ pending.
          after_reading Q (reviewer_of tables admin) (decide tables fresh dto a) s
            (reviewer_of-keeps admin s)
            (λ reviewer e. decide-Reviews p fresh dto a reviewer s only (ground arith)) same)
        same

  fallback-keeps :
      (id : ℕ) (direct : Option MerchantApplication) (s : AdminStore)
      → (application_or_fallback tables id direct s).1 ≡ s
  fallback-keeps id (some a) s = refl
  fallback-keeps id none s = ground arith

  -- What is reviewed is the only application that some test selects.
  IsFound : AdminStore → MerchantApplication → Type 0
  IsFound s a = (p : MerchantApplication → Bool) × (keep p s.applications ≡ a ∷ [])

  application_where-IsFound :
      (p : MerchantApplication → Bool) (a : MerchantApplication) (s : AdminStore)
      → (application_where tables p s).0 ≡ ok (some a)
      → keep p s.applications ≡ a ∷ []
  application_where-IsFound p a s e =
      elim (Result-cases (tables.applications_table.maybe_single p s.applications)) [
        | inl (x, q) ↦ ground arith
        | inr (none, q) ↦ ground arith
        | inr (some b, q) ↦
            let law = maybe_single-some tables.applications_table p s.applications b q in
            ground (arith, law)
      ]

  fallback-IsFound :
      (id : ℕ) (direct : Option MerchantApplication) (a : MerchantApplication) (s : AdminStore)
      → (application_where tables (λ b. b.id == id) s).0 ≡ ok direct
      → (application_or_fallback tables id direct s).0 ≡ ok (some a)
      → IsFound s a
  unfolding IsFound
  fallback-IsFound id (some b) a s found e =
      let same : b ≡ a = ground arith in
      ((λ b. b.id == id), application_where-IsFound (λ b. b.id == id) a s (rw (sym same) found))
  fallback-IsFound id none a s found e =
      let p : MerchantRow → Bool =
        λ m. if tables.is_wallet id then m.wallet == id else m.id == id in
      elim (Result-cases (tables.merchants_table.maybe_single p s.merchants)) [
        | inl (x, q) ↦ ground arith
        | inr (none, q) ↦ ground arith
        | inr (some m, q) ↦ (
          pending_of m.wallet,
          application_where-IsFound (pending_of m.wallet) a s (ground arith),
        )
      ]

  review-Reviews :
      (fresh id : ℕ) (dto : ApproveMerchantRequest) (admin : Option ℕ)
      (direct found : Option MerchantApplication) (s : AdminStore)
      → (application_where tables (λ b. b.id == id) s).0 ≡ ok direct
      → (application_or_fallback tables id direct s).0 ≡ ok found
      → Each Reviews s.applications (review_found tables fresh dto admin found s).1.applications
  unfolding IsFound review_found
  review-Reviews fresh id dto admin direct none s d e =
      Each-refl Reviews (λ b. inl refl) s.applications
  review-Reviews fresh id dto admin direct (some a) s d e =
      let it = fallback-IsFound id direct a s d e in
      review_found-Reviews it.0 fresh dto admin a s it.1

  -- A review, whatever comes of it, leaves every merchant application as it was, or decides a
  -- pending one, which keeps its identifier and wallet; what was decided is not decided again.
  pub approve_merchant-Reviews :
      (fresh id : ℕ) (dto : ApproveMerchantRequest) (admin : Option ℕ) (s : AdminStore)
      → Each Reviews s.applications (approve_merchant tables fresh id dto admin s).1.applications
  unfolding approve_merchant
  approve_merchant-Reviews fresh id dto admin s =
      let Q : AdminStore → Type 0 = λ s'. Each Reviews s.applications s'.applications in
      let same : Q s = Each-refl Reviews (λ b. inl refl) s.applications in
      after_reading Q (application_where tables (λ b. b.id == id))
        (λ direct. application_or_fallback tables id direct >>= review_found tables fresh dto admin)
        s refl
        (λ direct d.
          after_reading Q (application_or_fallback tables id direct)
            (review_found tables fresh dto admin) s (fallback-keeps id direct s)
            (λ found e. review-Reviews fresh id dto admin direct found s d e) same)
        same
