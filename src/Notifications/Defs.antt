-- ===== src/Notifications/Defs.antt =====
-- The table `notifications` as NotificationsService sees it, and the statements it is sent.
use trust_up_api.Base.{
  ℕ, ◌≡◌, Bool, Option, List, length, keep, change, Table, DbError, Result, ok, err, Action,
}

pub record NotificationRow : Type 0 where
  pub id : ℕ
  pub user_wallet : ℕ
  pub type : ℕ
  pub title : ℕ
  pub message : ℕ
  -- the JSON in `data`
  pub details : Option ℕ
  pub is_read : Bool
  pub created_at : ℕ
  pub read_at : Option ℕ
  pub updated_at : ℕ

pub record NotificationStore : Type 0 where
  pub notifications : List NotificationRow

pub data NotificationError : Type 0 where
  notification_not_found notification_forbidden database_error : NotificationError

abbrev pub Notifications : Type 0 → Type 0
Notifications A = Action NotificationStore NotificationError A

-- An answered `.update(…).eq(…).select('id')` answers with as many rows as it wrote.
abbrev pub Counted :
    (NotificationRow → Bool)
    → (NotificationRow → NotificationRow)
    → List NotificationRow
    → Result DbError (ℕ × List NotificationRow)
    → Type 0
Counted p f rows (ok (n, after)) = (n ≡ length (keep p rows)) × (after ≡ change p f rows)
Counted p f rows (err e) = Unit

pub record NotificationSources : Type 0 where
  pub notifications_table : Table NotificationRow
  -- an update that selects the rows it wrote: their number, and the table
  pub update_counting :
      (NotificationRow → Bool)
      → (NotificationRow → NotificationRow)
      → List NotificationRow
      → Result DbError (ℕ × List NotificationRow)
  pub counts :
      (p : NotificationRow → Bool) (f : NotificationRow → NotificationRow)
      (rows : List NotificationRow)
      → Counted p f rows (update_counting p f rows)

abbrev pub put_notifications : NotificationStore → List NotificationRow → NotificationStore
put_notifications s rows = record s { notifications = rows }
