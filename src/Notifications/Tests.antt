-- ===== src/Notifications/Tests.antt =====
-- Two notifications of a wallet and one of another.
use trust_up_api.Base.{
  ℕ, ◌≡◌, refl, false, none, [], ◌∷◌, length, keep, change, ok, err, reliable, Bool,
}
use trust_up_api.Notifications.Defs.{
  NotificationRow, NotificationStore, NotificationError, NotificationSources,
}
use trust_up_api.Notifications.Service.{
  updated, find_by_id, mark_found, write_read, mark_as_read, mark_all_as_read,
}
use trust_up_api.Notifications.Unread.{Accounts, Clears, mark_as_read-counts}

abbrev note : ℕ → ℕ → Bool → NotificationRow
note id wallet read = record {
  id = id;
  user_wallet = wallet;
  type = 1;
  title = 2;
  message = 3;
  details = none;
  is_read = read;
  created_at = 10;
  read_at = none;
  updated_at = 10;
}

abbrev sources : NotificationSources
sources = record {
  notifications_table = reliable;
  update_counting = λ p f rows. ok (length (keep p rows), change p f rows);
  counts = λ p f rows. (refl, refl);
}

abbrev notes : NotificationStore
notes = record { notifications = note 1 7 false ∷ note 2 8 false ∷ note 3 7 false ∷ [] }

marks_one : (mark_as_read sources 20 7 3 notes).0 ≡ ok (updated 1)
unfolding mark_as_read find_by_id mark_found write_read
marks_one = refl

forbids : (mark_as_read sources 20 7 2 notes).0 ≡ err NotificationError.notification_forbidden
unfolding mark_as_read find_by_id mark_found write_read
forbids = refl

marks_all : (mark_all_as_read sources 20 7 notes).0 ≡ ok (updated 2)
unfolding mark_all_as_read
marks_all = refl

mark_as_read-counts_example :
    Accounts 7 notes (mark_as_read sources 20 7 3 notes)
    × Clears 7 notes (mark_all_as_read sources 20 7 notes)
mark_as_read-counts_example = mark_as_read-counts sources 20 7 3 notes
