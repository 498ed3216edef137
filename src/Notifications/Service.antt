-- ===== src/Notifications/Service.antt =====
-- NotificationsService (modules/notifications/notifications.service.ts) with the statements of
-- database/repositories/notifications.repository.ts that it sends.
use trust_up_api.Base.{
  ℕ, ◌==◌, ◌&&◌, not, Bool, true, false, Option, none, some, length, ok, err, ◌>>=◌, ◌>>◌, pure,
  throw, throw_if, reading, writing,
}
use trust_up_api.Notifications.Defs.{
  NotificationRow, NotificationError, Notifications, NotificationSources, put_notifications,
}

pub record MarkAsReadResponse : Type 0 where
  pub success : Bool
  pub updated_count : ℕ

-- `.eq('user_wallet', …).eq('is_read', false)`
abbrev pub is_unread_of : ℕ → NotificationRow → Bool
is_unread_of wallet n = (n.user_wallet == wallet) && not n.is_read

abbrev pub mark_read : ℕ → NotificationRow → NotificationRow
mark_read now n = record n { is_read = true; read_at = some now; updated_at = now }

abbrev pub updated : ℕ → MarkAsReadResponse
updated n = record { success = true; updated_count = n }

module _ (src : NotificationSources) where
  unfoldable pub find_by_id : ℕ → Notifications (Option NotificationRow)
  find_by_id id =
      reading (λ s. src.notifications_table.maybe_single (λ n. n.id == id) s.notifications)
        NotificationError.database_error

  -- `countUnread`, which getNotifications answers with
  unfoldable pub count_unread : ℕ → Notifications ℕ
  count_unread wallet s = (
    elim (src.notifications_table.select (is_unread_of wallet) s.notifications) [
      | ok found ↦ ok (length found)
      | err _ ↦ err NotificationError.database_error
    ],
    s,
  )

  abbrev pub found_or_throw : Option NotificationRow → Notifications NotificationRow
  found_or_throw none = throw NotificationError.notification_not_found
  found_or_throw (some n) = pure n

  unfoldable pub write_read : ℕ → ℕ → Notifications (Unit {0})
  write_read now id =
      writing put_notifications
        (λ s. src.notifications_table.update (λ n. n.id == id) (mark_read now) s.notifications)
        NotificationError.database_error

  abbrev pub mark_unread : ℕ → ℕ → Bool → Notifications MarkAsReadResponse
  mark_unread now id true = pure (updated 0)
  mark_unread now id false = do write_read now id; pure (updated 1)

  unfoldable pub mark_found : ℕ → ℕ → ℕ → NotificationRow → Notifications MarkAsReadResponse
  unfolding write_read
  mark_found now wallet id n = do
    throw_if (not (n.user_wallet == wallet)) NotificationError.notification_forbidden
    mark_unread now id n.is_read

  unfoldable pub mark_as_read : ℕ → ℕ → ℕ → Notifications MarkAsReadResponse
  unfolding find_by_id mark_found
  mark_as_read now wallet id = do
    found ← find_by_id id
    n ← found_or_throw found
    mark_found now wallet id n

  unfoldable pub mark_all_as_read : ℕ → ℕ → Notifications MarkAsReadResponse
  mark_all_as_read now wallet s =
      elim (src.update_counting (is_unread_of wallet) (mark_read now) s.notifications) [
        | ok (n, rows) ↦ (ok (updated n), put_notifications s rows)
        | err _ ↦ (err NotificationError.database_error, s)
      ]
