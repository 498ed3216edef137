-- ===== src/Admin/Pending.antt =====
-- At most one application of a wallet is pending.
use trust_up_api.Base.{
  ℕ, ◌+◌, ◌≤◌, ◌≡◌, ◌==◌, refl, subst, sym, inl, inr, ==_iff, Bool, Bool-cases, true, false, Option,
  none, some, is_some, List, [], ◌∷◌, ◌++◌, keep, length, Each, ok, Result-cases, insert-ok,
  maybe_single-none, after_reading, after_throw_if, throw_if, ◌>>=◌, ◌>>◌, arith,
}
use trust_up_api.Auth.Defs.{User}
use trust_up_api.Admin.Service.{id_of}
use trust_up_api.Admin.Defs.{
  MerchantApplication, MerchantRow, AdminStore, AdminTables, AdminError, Admin,
}
use trust_up_api.Admin.Applications.{
  ApproveMerchantRequest, pending_of, application_where, merchant_where, user_where,
  approve_merchant,
}
use trust_up_api.Admin.Reviews.{Reviews, approve_merchant-Reviews}
use trust_up_api.Admin.Applying.{
  is_merchant, is_active_merchant, new_application, create_application, apply_for, apply,
}

-- Every wallet has at most one pending application.
abbrev pub OnePending : List MerchantApplication → Type 0
OnePending rows = (wallet : ℕ) → length (keep (pending_of wallet) rows) ≤ 1

-- Related lists in which the second has what passes a test only where the first has it.
length-keep-Each :
    {A : Type 0} (R : A → A → Type 0) (p : A → Bool)
    → ((x y : A) → R x y → p y ≡ true → p x ≡ true)
    → (xs ys : List A) → Each R xs ys
    → length (keep p ys) ≤ length (keep p xs)
length-keep-Each R p back [] [] h = omega arith
length-keep-Each R p back [] (y ∷ ys) h = absurd h
length-keep-Each R p back (x ∷ xs) [] h = absurd h
length-keep-Each R p back (x ∷ xs) (y ∷ ys) h =
    ground (arith, length-keep-Each R p back xs ys h.1, back x y h.0)

Reviews-pending :
    (wallet : ℕ) (a b : MerchantApplication)
    → Reviews a b
    → pending_of wallet b ≡ true
    → pending_of wallet a ≡ true
Reviews-pending wallet a b (inl same) h = rw (sym same) h
Reviews-pending wallet a b (inr (was, decided, id, w)) h = absurd (ground arith)

length-keep-append_one :
    {A : Type 0} (p : A → Bool) (xs : List A) (x : A)
    → length (keep p (xs ++ x ∷ [])) ≡ length (keep p xs) + length (keep p (x ∷ []))
length-keep-append_one p [] x = omega arith
length-keep-append_one p (y ∷ ys) x = ground (arith, length-keep-append_one p ys x)

module _ (tables : AdminTables) where
  unfound :
      (wallet : ℕ) (s : AdminStore) (pending : Option MerchantApplication)
      → (application_where tables (pending_of wallet) s).0 ≡ ok pending
      → is_some pending ≡ false
      → keep (pending_of wallet) s.applications ≡ []
  unfound wallet s none found h =
      maybe_single-none tables.applications_table (pending_of wallet) s.applications (ground arith)
  unfound wallet s (some a) found h = absurd (ground arith)

  created-OnePending :
      (a : MerchantApplication) (s : AdminStore)
      → keep (pending_of a.wallet) s.applications ≡ []
      → OnePending s.applications
      → OnePending (create_application tables a s).1.applications
  unfolding create_application
  created-OnePending a s free one wallet =
      let p = pending_of wallet in
      let t = (create_application tables a s).1 in
      elim (Result-cases (tables.applications_table.insert a s.applications)) [
        | inl (x, failed) ↦
            let left : t.applications ≡ s.applications = ground arith in rw left (one wallet)
        | inr (rows, done) ↦
            let after = insert-ok tables.applications_table a s.applications rows done in
            let left : t.applications ≡ s.applications ++ a ∷ [] = ground arith in
            let more = length-keep-append_one p s.applications a in
            rw left (elim (Bool-cases (a.wallet == wallet)) [
              | inl mine ↦
                  let same : a.wallet ≡ wallet = (==_iff a.wallet wallet).0 mine in
                  let empty : keep p s.applications ≡ [] =
                    subst (λ w. keep (pending_of w) s.applications ≡ []) same free in
                  ground (arith, more, empty)
              | inr other ↦ let few = one wallet in ground (arith, more, few)
            ])
      ]

  apply_for-OnePending :
      (fresh wallet details : ℕ) (user : Option User) (s : AdminStore)
      → OnePending s.applications
      → OnePending (apply_for tables fresh wallet details user s).1.applications
  apply_for-OnePending fresh wallet details user s one =
      let Q : AdminStore → Type 0 = λ t. OnePending t.applications in
      let new = new_application fresh (id_of user) wallet details in
      let create : Option MerchantApplication → Admin MerchantApplication = λ pending.
        throw_if (is_some pending) AdminError.merchant_application_pending
        >> create_application tables new in
      let look : Option MerchantRow → Admin MerchantApplication = λ existing.
        throw_if (is_active_merchant existing) AdminError.merchant_already_active
        >> (application_where tables (pending_of wallet) >>= create) in
      after_throw_if Q AdminError.merchant_already_exists
        (merchant_where tables (λ m. m.wallet == wallet) >>= look) s (is_merchant user)
        (λ passed.
          after_reading Q (merchant_where tables (λ m. m.wallet == wallet)) look s refl
            (λ existing e.
              after_throw_if Q AdminError.merchant_already_active
                (application_where tables (pending_of wallet) >>= create) s
                (is_active_merchant existing)
                (λ passed.
                  after_reading Q (application_where tables (pending_of wallet)) create s refl
                    (λ pending found.
                      after_throw_if Q AdminError.merchant_application_pending
                        (create_application tables new) s (is_some pending)
                        (λ none_is.
                          created-OnePending new s (unfound wallet s pending found none_is) one)
                        one)
                    one)
                one)
            one)
        one

-- At most one application of a wallet is pending: this is kept by every submission of an application
-- and by every review, whatever comes of them.
pub apply-OnePending :
    (tables : AdminTables) (fresh wallet details id : ℕ) (dto : ApproveMerchantRequest)
    (admin : Option ℕ) (s : AdminStore)
    → OnePending s.applications
    → OnePending (apply tables fresh wallet details s).1.applications
      × OnePending (approve_merchant tables fresh id dto admin s).1.applications
unfolding apply
apply-OnePending tables fresh wallet details id dto admin s one = (
  after_reading (λ t. OnePending t.applications)
      (user_where tables (λ u. u.wallet_address == wallet)) (apply_for tables fresh wallet details)
      s refl (λ user found. apply_for-OnePending tables fresh wallet details user s one) one,
  λ w.
      let t = (approve_merchant tables fresh id dto admin s).1 in
      let le =
        length-keep-Each Reviews (pending_of w) (Reviews-pending w) s.applications t.applications
          (approve_merchant-Reviews tables fresh id dto admin s) in
      let few = one w in omega (arith, le, few),
)
