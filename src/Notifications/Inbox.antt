-- ===== src/Notifications/Inbox.antt =====
-- app/services/notification_service.py: the notifications and what each user has done with them.
-- A notification without a user goes to all of them; what a user did with such a broadcast stands in
-- a row of its own, the read state, joined by an outer join.
pub mod Rows
pub mod Actions
pub mod States
pub mod Upsert
pub mod View
pub mod Isolation
pub mod Cleared
pub mod Emptied
mod Tests
use metroflow_ai_backend.Common.{
  ℕ, ◌+◌, ◌*◌, Bool, true, false, ◌&&◌, ◌||◌, not, Option, none, some, List, [], ◌∷◌, map, ltb, leb,
  if◌then◌else◌, ◌==◌, is_some, or_else, ite, select, length, min, Text, ℤ, at_least, or_default,
  order_by, page,
}
use metroflow_ai_backend.Common.Dict.{Dict}
use metroflow_ai_backend.Geo.{cities_for_state, is_in}
use metroflow_ai_backend.Websocket.Events.{Event}

pub data NotificationSource : Type 0 where
  email operator system system_failure : NotificationSource

unfoldable pub NotificationSource-discrete : Discrete NotificationSource
NotificationSource-discrete = hlevel

-- A row of `notifications`, but for its id.
pub record Notification (User : Type 0) : Type 0 where
  pub user_id : Option User
  pub source : NotificationSource
  pub title : Text
  pub message : Text
  pub related_alert_id : Option ℕ
  pub state : Option Text
  pub is_read : Bool
  pub binned_at : Option ℕ
  pub created_at : ℕ

-- A row of `notification_read_states`.
pub record NotificationReadState (User : Type 0) : Type 0 where
  pub user_id : User
  pub notification_id : ℕ
  pub read_at : Option ℕ
  pub binned_at : Option ℕ
  pub deleted_at : Option ℕ

-- What a notification's event carries.
pub data Payload (User : Type 0) : Type 0 where
  whole : ℕ → Notification User → Payload User
  only_id : ℕ → Payload User
  empty : Payload User

-- A call of `manager.notify` or `manager.notify_user`.
pub data Notice (User : Type 0) : Type 0 where
  notify : Event → Payload User → Notice User
  notify_user : User → Event → Payload User → Notice User

-- The two tables, the next id, and the calls of the connection manager, the last first.
pub record Inbox (User : Type 0) : Type 0 where
  pub notifications : Dict ℕ (Notification User)
  pub read_states : List (NotificationReadState User)
  pub next_id : ℕ
  pub notices : List (Notice User)

-- Seven days, and the setting NOTIFICATION_BIN_RETENTION_HOURS, in milliseconds.
abbrev pub notification_retention : ℕ
notification_retention = 7 * 24 * 3600 * 1000

abbrev pub default_notifications_limit : ℕ
default_notifications_limit = 100

abbrev pub max_notifications_limit : ℕ
max_notifications_limit = 500

-- `created_at >= _retention_cutoff()`, with both sides moved by the retention.
abbrev pub is_retained : ℕ → ℕ → Bool
is_retained now created_at = leb now (created_at + notification_retention)

-- `min(max(limit or DEFAULT, 1), MAX)`
abbrev pub notifications_limit : ℤ → ℕ
notifications_limit limit =
    min (at_least 1 (or_default default_notifications_limit limit)) max_notifications_limit

module _ {User : Type 0} (dec : Discrete User) where
  -- `ON user_id = … AND notification_id = …`
  abbrev pub is_state_of : User → ℕ → NotificationReadState User → Bool
  is_state_of user id row = ite (dec row.user_id user) (row.notification_id == id) false

  -- The row of the outer join; the unique constraint allows one.
  unfoldable pub state_of :
      User → ℕ → List (NotificationReadState User) → Option (NotificationReadState User)
  state_of user id [] = none
  state_of user id (row ∷ rows) =
      let rest = state_of user id rows in if is_state_of user id row then some row else rest

  abbrev pub read_at_of : Option (NotificationReadState User) → Option ℕ
  read_at_of none = none
  read_at_of (some row) = row.read_at

  abbrev pub binned_at_of : Option (NotificationReadState User) → Option ℕ
  binned_at_of none = none
  binned_at_of (some row) = row.binned_at

  abbrev pub deleted_at_of : Option (NotificationReadState User) → Option ℕ
  deleted_at_of none = none
  deleted_at_of (some row) = row.deleted_at

  -- `_effective_binned_at`: SQL's coalesce.
  abbrev pub effective_binned_at :
      Option (NotificationReadState User) → Notification User → Option ℕ
  effective_binned_at row n = or_else (binned_at_of row) n.binned_at

  -- `or_(user_id IS NOT NULL, deleted_at IS NULL), or_(user_id IS NULL, user_id = current_user.id)`
  abbrev pub is_addressed : User → Option (NotificationReadState User) → Notification User → Bool
  is_addressed user row n = elim n.user_id [
    | none ↦ not (is_some (deleted_at_of row))
    | some owner ↦ ite (dec owner user) true false
  ]

  abbrev pub is_unread : Option (NotificationReadState User) → Notification User → Bool
  is_unread row n = elim n.user_id [
    | none ↦ not (is_some (read_at_of row))
    | some owner ↦ not n.is_read
  ]

  abbrev pub has_source : Option NotificationSource → Notification User → Bool
  has_source none n = true
  has_source (some s) n = ite (NotificationSource-discrete n.source s) true false

  -- `state IS NULL OR state IN (cities)`
  abbrev pub in_cities : Option (List Text) → Notification User → Bool
  in_cities none n = true
  in_cities (some cities) n = elim n.state [ none ↦ true | some city ↦ is_in city cities ]

  -- The filters of `_notifications_query`.
  abbrev pub matches :
      ℕ
      → User
      → Option NotificationSource
      → Bool
      → Option (List Text)
      → Option (NotificationReadState User)
      → Notification User
      → Bool
  matches now user source unread_only cities row n =
      is_retained now n.created_at
      && not (is_some (effective_binned_at row n))
      && is_addressed user row n
      && has_source source n
      && (if unread_only then is_unread row n else true)
      && in_cities cities n

  unfoldable pub notifications_query :
      ℕ
      → User
      → Option NotificationSource
      → Bool
      → Option Text
      → Inbox User
      → Dict ℕ (Notification User)
  notifications_query now user source unread_only state inbox =
      let cities = cities_for_state state in
      select
        (λ e. matches now user source unread_only cities (state_of user e.0 inbox.read_states) e.1)
        inbox.notifications

  -- The filters of `list_binned_notifications`.
  abbrev pub is_in_bin :
      ℕ → ℕ → User → Option (NotificationReadState User) → Notification User → Bool
  is_in_bin retention now user row n = elim (effective_binned_at row n) [
    | none ↦ false
    | some binned_at ↦ leb now (binned_at + retention) && is_addressed user row n
  ]

  unfoldable pub binned_query : ℕ → ℕ → User → Inbox User → Dict ℕ (Notification User)
  binned_query retention now user inbox =
      select (λ e. is_in_bin retention now user (state_of user e.0 inbox.read_states) e.1)
        inbox.notifications

  -- `_overlay_broadcast_state` of one notification.
  abbrev pub overlaid : Option (NotificationReadState User) → Notification User → Notification User
  overlaid row n = elim n.user_id [
    | none ↦ record n { is_read = is_some (read_at_of row); binned_at = binned_at_of row }
    | some owner ↦ n
  ]

  abbrev pub overlay_broadcast_state :
      User → Inbox User → Dict ℕ (Notification User) → Dict ℕ (Notification User)
  overlay_broadcast_state user inbox =
      map (λ e. (e.0, overlaid (state_of user e.0 inbox.read_states) e.1))

  -- `ORDER BY created_at DESC`
  abbrev pub newest : ℕ × Notification User → ℕ × Notification User → Bool
  newest e f = ltb f.1.created_at e.1.created_at

  abbrev pub binned_time_of : Option (NotificationReadState User) → Notification User → ℕ
  binned_time_of row n = elim (effective_binned_at row n) [ none ↦ 0 | some binned_at ↦ binned_at ]

  -- `ORDER BY coalesce(…) DESC`; a row of the bin has a time.
  abbrev pub last_binned : User → Inbox User → ℕ × Notification User → ℕ × Notification User → Bool
  last_binned user inbox e f =
      ltb (binned_time_of (state_of user f.0 inbox.read_states) f.1)
        (binned_time_of (state_of user e.0 inbox.read_states) e.1)

  unfoldable pub list_notifications :
      ℕ
      → User
      → Option NotificationSource
      → Bool
      → Option Text
      → ℤ
      → ℤ
      → Inbox User
      → Dict ℕ (Notification User)
  unfolding notifications_query
  list_notifications now user source unread_only state limit offset inbox =
      overlay_broadcast_state user inbox (
        page (notifications_limit limit) (at_least 0 (or_default 0 offset))
          (order_by newest (notifications_query now user source unread_only state inbox)))

  unfoldable pub list_binned_notifications :
      ℕ → ℕ → User → ℤ → ℤ → Inbox User → Dict ℕ (Notification User)
  unfolding binned_query
  list_binned_notifications retention now user limit offset inbox =
      overlay_broadcast_state user inbox (
        page (notifications_limit limit) (at_least 0 (or_default 0 offset))
          (order_by (last_binned user inbox) (binned_query retention now user inbox)))

  unfoldable pub unread_count : ℕ → User → Option Text → Inbox User → ℕ
  unfolding notifications_query
  unread_count now user state inbox = length (notifications_query now user none true state inbox)
