-- ===== src/Reminders/Totals.antt =====
-- The reminders that a run sends, and its summary.
use mathlib.Core.List.{append-nil, append_assoc}
use trust_up_api.Base.{
  ℕ, suc, ◌+◌, ◌≡◌, refl, sym, ap, subst, ◌∙◌, inl, inr, Bool-cases, Bool, true, Option, List, [],
  ◌∷◌, ◌++◌, length, length-append, keep, any, any-keep, All, All-append, keep-All, Result, ok, err,
  DbError, insert-ok, select-ok, arith,
}
use trust_up_api.Loans.Defs.{Loan}
use trust_up_api.Reminders.Defs.{
  ReminderType, MerchantInfo, ReminderCandidate, Reminder, ReminderSummary, ReminderStore,
  ReminderSources, count_created,
}
use trust_up_api.Reminders.Process.{
  is_remindable, identify_candidates, reminder_of, Cache, get_merchant, is_duplicate_reminder,
  inserted, no_reminders, create_reminder, remind, remind_all, remind_found, remind_run,
}
use trust_up_api.Reminders.Sent.{is_reminder_for, identify_candidates-IsFrom}

-- The reminders that were sent.
abbrev pub sent : ReminderSummary → ℕ
sent r = r.sent_3d + r.sent_1d + r.sent_overdue

abbrev pub handled : ReminderSummary → ℕ
handled r = r.created + r.skipped + r.failed

-- Rounds for a number of candidates, from one summary and store to another: reminders that satisfy
-- a predicate are added, and counted.
abbrev pub Sends :
    (Reminder → Type 0)
    → ℕ
    → ReminderSummary × ReminderStore
    → ReminderSummary × ReminderStore
    → Type 0
Sends Q n (a, s) (b, t) =
    (new : List Reminder) × (t.notifications ≡ s.notifications ++ new)
    × All Q new
    × (b.created ≡ a.created + length new)
    × (sent b + a.created ≡ sent a + b.created)
    × (handled b ≡ handled a + n)
    × (b.total ≡ a.total)

one_more : (n : ℕ) → 1 + n ≡ suc n
one_more n = omega arith

module _ (Q : Reminder → Type 0) where
  Sends-refl : (r : ReminderSummary × ReminderStore) → Sends Q 0 r r
  Sends-refl (a, s) =
      ([], sym (append-nil s.notifications), tt, omega arith, refl, omega arith, refl)

  Sends-trans :
      (n k : ℕ) (r q p : ReminderSummary × ReminderStore)
      → Sends Q n r q
      → Sends Q k q p
      → Sends Q (n + k) r p
  Sends-trans n k (a, s) (b, t) (c, u) (new, e, all, made, bd, h, tot)
        (new', e', all', made', bd', h', tot') =
      let long = length-append new new' in
      (
        new ++ new',
        e' ∙ ap (λ xs. xs ++ new') e ∙ append_assoc s.notifications new new',
        All-append Q new new' all all',
        omega arith,
        omega arith,
        omega arith,
        tot' ∙ tot,
      )

  counted-created :
      (type : ReminderType) (a : ReminderSummary)
      → ((count_created type a).created ≡ a.created + 1)
        × (sent (count_created type a) + a.created ≡ sent a + (count_created type a).created)
        × (handled (count_created type a) ≡ handled a + 1)
        × ((count_created type a).total ≡ a.total)
  counted-created ReminderType.payment_reminder_3d a = (refl, omega arith, omega arith, refl)
  counted-created ReminderType.payment_reminder_1d a = (refl, omega arith, omega arith, refl)
  counted-created ReminderType.payment_overdue a = (refl, omega arith, omega arith, refl)

  module _ (src : ReminderSources) (now : ℕ) where
    inserted-Sends :
        (type : ReminderType) (r : Reminder) (a : ReminderSummary) (s : ReminderStore)
        (done : Result DbError (List Reminder))
        → src.notifications_table.insert r s.notifications ≡ done
        → Q r
        → Sends Q 1 (a, s) (inserted src now type a s done)
    inserted-Sends type r a s (ok rows) e q =
        let (made, bd, h, tot) = counted-created type a in
        (
          r ∷ [],
          insert-ok src.notifications_table r s.notifications rows e,
          (q, tt),
          made,
          bd,
          h,
          tot,
        )
    inserted-Sends type r a s (err x) e q =
        ([], sym (append-nil s.notifications), tt, omega arith, refl, omega arith, refl)

    remind-Sends :
        (c : ReminderCandidate) (m : Option MerchantInfo) (a : ReminderSummary) (s : ReminderStore)
        → Q (reminder_of now c m)
        → Sends Q 1 (a, s) (remind src now c m a s)
    unfolding remind create_reminder
    remind-Sends c m a s q = elim (Bool-cases (is_duplicate_reminder src now c s)) [
      | inl known ↦
          rw known ([], sym (append-nil s.notifications), tt, omega arith, refl, omega arith, refl)
      | inr new ↦ rw new (inserted-Sends c.reminder_type (reminder_of now c m) a s _ refl q)
    ]

    pub remind_all-Sends :
        (cs : List ReminderCandidate) (cache : Cache) (a : ReminderSummary) (s : ReminderStore)
        → All (λ c. (m : Option MerchantInfo) → Q (reminder_of now c m)) cs
        → Sends Q (length cs) (a, s) (remind_all src now cs cache a s)
    unfolding remind_all
    remind_all-Sends [] cache a s h = Sends-refl (a, s)
    remind_all-Sends (c ∷ cs) cache a s h =
        let found = get_merchant src now c.loan.merchant_id cache s in
        let step = remind src now c found.0 a s in
        subst (λ n. Sends Q n (a, s) (remind_all src now cs found.1 step.0 step.1))
          (one_more (length cs))
          (Sends-trans 1 (length cs) (a, s) step (remind_all src now cs found.1 step.0 step.1)
            (remind-Sends c found.0 a s (h.0 found.0))
            (remind_all-Sends cs found.1 step.0 step.1 h.1))

All-any-keep :
    (now : ℕ) (p : Loan → Bool) (loans : List Loan) (new : List Reminder)
    → All (λ r. any (is_reminder_for now r) (keep p loans) ≡ true) new
    → All (λ r. any (is_reminder_for now r) loans ≡ true) new
All-any-keep now p loans [] h = tt
All-any-keep now p loans (r ∷ new) h =
    (any-keep (is_reminder_for now r) p loans h.0, All-any-keep now p loans new h.1)

module _ (src : ReminderSources) (now : ℕ) where
  -- All reminders of a run, from an empty summary.
  abbrev pub Reports : List Loan → ReminderStore → ReminderSummary × ReminderStore → Type 0
  Reports loans s done =
      (new : List Reminder) × (done.1.notifications ≡ s.notifications ++ new)
      × All (λ r. any (is_reminder_for now r) loans ≡ true) new
      × (done.0.created ≡ length new)
      × (sent done.0 ≡ length new)
      × (handled done.0 ≡ done.0.total)

  remind_loaded-Reports :
      (s : ReminderStore)
      → Reports s.loans s (remind_found src now s (ok (keep is_remindable s.loans)))
  unfolding remind_found
  remind_loaded-Reports s =
      let loans = keep is_remindable s.loans in
      let cs = identify_candidates now loans in
      let (new, added, all, made, bd, h, tot) =
        remind_all-Sends (λ r. any (is_reminder_for now r) loans ≡ true) src now cs []
          (no_reminders src now (length cs)) s
          (identify_candidates-IsFrom now loans (keep-All is_remindable s.loans)) in
      (
        new,
        added,
        All-any-keep now is_remindable s.loans new all,
        omega arith,
        omega arith,
        omega arith,
      )

  remind_found-Reports :
      (s : ReminderStore) (found : Result DbError (List Loan))
      → src.loans_table.select is_remindable s.loans ≡ found
      → Reports s.loans s (remind_found src now s found)
  unfolding remind_found
  remind_found-Reports s (err x) e = ([], sym (append-nil s.notifications), tt, refl, refl, refl)
  remind_found-Reports s (ok loans) e =
      subst (λ ls. Reports s.loans s (remind_found src now s (ok ls)))
        (sym (select-ok src.loans_table is_remindable s.loans loans e)) (remind_loaded-Reports s)

  -- A run of the reminder job, whatever fails in it, only adds notifications, each a reminder of the
  -- next payment of an active loan: due in three calendar days, due tomorrow, or due before today,
  -- as its type says. The summary counts them, altogether and by type, and created, skipped and
  -- failed make the total.
  pub remind_run-Reports : (s : ReminderStore) → Reports s.loans s (remind_run src now s)
  unfolding remind_run
  remind_run-Reports s = remind_found-Reports s (src.loans_table.select is_remindable s.loans) refl
