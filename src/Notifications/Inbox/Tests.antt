-- ===== src/Notifications/Inbox/Tests.antt =====
-- Runs of the inbox at concrete inputs.
use metroflow_ai_backend.Common.{
  ℕ, ◌≡◌, refl, false, none, some, [], ◌∷◌, arith, ℕ_discrete, Text-discrete, pos, codes,
}
use metroflow_ai_backend.Common.Dict.{lookup, insert}
use metroflow_ai_backend.Geo.{cities_for_state, state_for_city}
use metroflow_ai_backend.Notifications.Inbox.{
  Notification, Inbox, system, state_of, notifications_query, binned_query, list_notifications,
  list_binned_notifications, unread_count, NotificationSource-discrete,
}
use metroflow_ai_backend.Notifications.Inbox.Rows.{
  mark_broadcast_state, insert_states, upsert_states,
}
use metroflow_ai_backend.Notifications.Inbox.Actions.{
  find_mine, mark_read, mark_all_read, delete_notification, delete_all_notifications,
  create_notification,
}
use metroflow_ai_backend.Notifications.Inbox.Isolation
use metroflow_ai_backend.Notifications.Inbox.View
use metroflow_ai_backend.Notifications.Inbox.Cleared
use metroflow_ai_backend.Notifications.Inbox.Emptied

program : Unit {0}
unfolding lookup insert state_of notifications_query binned_query list_notifications
    list_binned_notifications unread_count mark_broadcast_state insert_states upsert_states
    find_mine mark_read mark_all_read delete_notification delete_all_notifications
    create_notification cities_for_state state_for_city ℕ_discrete Text-discrete
    NotificationSource-discrete
program = tt

abbrev for_all : Notification ℕ
for_all = record {
  user_id = none;
  source = system;
  title = [];
  message = [];
  related_alert_id = none;
  state = none;
  is_read = false;
  binned_at = none;
  created_at = 1000;
}

abbrev for_seven : Notification ℕ
for_seven = record for_all { user_id = some 7; state = some (codes "Pune") }

abbrev inbox : Inbox ℕ
inbox = record {
  notifications = (1, for_all) ∷ (2, for_seven) ∷ [];
  read_states = [];
  next_id = 3;
  notices = [];
}

two_unread : unread_count ℕ_discrete 2000 7 (some (codes " Maharashtra ")) inbox ≡ 2
unfolding program
two_unread = refl

one_for_others : unread_count ℕ_discrete 2000 8 none inbox ≡ 1
unfolding program
one_for_others = refl

state_of_pune : state_for_city (codes "Pune") ≡ some (codes "Maharashtra")
unfolding program
state_of_pune = refl

unread_count-mark_all_read_example :
    unread_count ℕ_discrete 3000 7 none (mark_all_read ℕ_discrete 2000 7 inbox).1 ≡ 0
unread_count-mark_all_read_example =
    Cleared.unread_count-mark_all_read ℕ_discrete 2000 3000 7 none inbox (omega arith)

delete_all_clears_example :
    (list_notifications ℕ_discrete 3000 7 none false none
        (pos 10)
        (pos 0)
        (delete_all_notifications ℕ_discrete 2000 7 inbox).1
      ≡ [])
    × (list_binned_notifications ℕ_discrete 500 3000 7
          (pos 10)
          (pos 0)
          (delete_all_notifications ℕ_discrete 2000 7 inbox).1
        ≡ [])
delete_all_clears_example =
    Emptied.delete_all_clears ℕ_discrete 2000 3000 500 7 none false none (pos 10) (pos 0) inbox

perform-SamePages_example :
    View.SamePages ℕ_discrete 8 inbox
      (Isolation.perform ℕ_discrete 2000 7 Isolation.deletes_all inbox)
perform-SamePages_example =
    Isolation.perform-SamePages ℕ_discrete 7 8 2000 Isolation.deletes_all inbox (omega arith)

-- A broadcast that a user has in the bin is taken by `mark_all_read` again.
abbrev binned : Inbox ℕ
binned = (delete_notification ℕ_discrete 1500 1 8 inbox).1

binned_counted : (mark_all_read ℕ_discrete 2000 8 binned).0 ≡ 1
unfolding program
binned_counted = refl
