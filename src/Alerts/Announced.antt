-- ===== src/Alerts/Announced.antt =====
-- What users are told of an alert: the broadcasts of its changes, and the notification of its
-- creation.
use metroflow_ai_backend.Common.{
  select-append_one, ℕ, ◌+◌, ◌≡◌, refl, ◌∙◌, true, false, Option, none, some, [], ◌∷◌, ◌++◌,
  is_some, Text, arith, ℕ_discrete,
}
use metroflow_ai_backend.Common.Dict.{lookup, lookup-insert, lookup-insert_self}
use metroflow_ai_backend.Notifications.Inbox.{state_of, notifications_query, unread_count}
use metroflow_ai_backend.Notifications.Inbox.Actions.{create_notification}
use metroflow_ai_backend.Geo.{cities_for_state}
use metroflow_ai_backend.Alerts.{Alert, AlertCreate, AlertDb, StationAlert}
use metroflow_ai_backend.Alerts.Actions.{
  commit_acknowledged, create_alert, resolve_alert, acknowledge_alert,
}

module _ {User : Type 0} (dec : Discrete User) where
  resolve_closes :
      (now id : ℕ) (resolver : Option User) (db : AlertDb User) (alert : Alert User)
      → lookup ℕ_discrete id db.alerts ≡ some alert
      → alert.is_resolved ≡ false
      → (row : Alert User) × (lookup ℕ_discrete id
            (resolve_alert dec now id resolver db db).1.alerts
          ≡ some row)
        × (row.is_resolved ≡ true)
  unfolding resolve_alert
  resolve_closes now id resolver db alert found active =
      let closed : Alert User = record alert { is_resolved = true; resolved_at = some now } in
      (closed, ground (arith, found, active, lookup-insert ℕ_discrete id id closed db.alerts), refl)

  acknowledge_commits :
      (later id : ℕ) (actor : User) (remark : Option Text) (seen db : AlertDb User)
      (stale : Alert User)
      → lookup ℕ_discrete id seen.alerts ≡ some stale
      → stale.is_resolved ≡ false
      → is_some stale.acknowledged_at ≡ false
      → (acknowledge_alert dec later id actor remark seen db).1
        ≡ (commit_acknowledged dec later id actor remark stale db).1
  unfolding acknowledge_alert
  acknowledge_commits later id actor remark seen db stale found active unread =
      ground (arith, found, active, unread)

  acknowledge_closed :
      (later id : ℕ) (actor : User) (remark : Option Text) (seen db : AlertDb User)
      (stale row : Alert User)
      → lookup ℕ_discrete id seen.alerts ≡ some stale
      → stale.is_resolved ≡ false
      → is_some stale.acknowledged_at ≡ false
      → lookup ℕ_discrete id db.alerts ≡ some row
      → row.is_resolved ≡ true
      → let after : AlertDb User = (acknowledge_alert dec later id actor remark seen db).1 in
        (r : Alert User) × (lookup ℕ_discrete id after.alerts ≡ some r)
        × (r.is_resolved ≡ true)
        × (last : StationAlert) × (after.broadcasts ≡ db.broadcasts ++ last ∷ [])
        × (last.alert_id ≡ id)
        × (last.is_resolved ≡ false)
  acknowledge_closed later id actor remark seen db stale row found active unread look closed =
      rw (acknowledge_commits later id actor remark seen db stale found active unread, look)
        (_, lookup-insert_self ℕ_discrete id _ db.alerts, closed, _, refl, refl, refl)

  -- An acknowledgement that read an open alert before it was resolved, and commits after that: the
  -- alert stays resolved, but the last broadcast of it says that it is not.
  pub acknowledge-resolve :
      (now later id : ℕ) (resolver : Option User) (actor : User) (remark : Option Text)
      (db : AlertDb User) (alert : Alert User)
      → lookup ℕ_discrete id db.alerts ≡ some alert
      → alert.is_resolved ≡ false
      → is_some alert.acknowledged_at ≡ false
      → let closed : AlertDb User = (resolve_alert dec now id resolver db db).1 in
        let after : AlertDb User = (acknowledge_alert dec later id actor remark db closed).1 in
        (row : Alert User) × (lookup ℕ_discrete id after.alerts ≡ some row)
        × (row.is_resolved ≡ true)
        × (last : StationAlert) × (after.broadcasts ≡ closed.broadcasts ++ last ∷ [])
        × (last.alert_id ≡ id)
        × (last.is_resolved ≡ false)
  acknowledge-resolve now later id resolver actor remark db alert found active unread =
      let (row, look, closed) = resolve_closes now id resolver db alert found active in
      acknowledge_closed later id actor remark db _ alert row found active unread look closed

  -- The notification of a new alert is unread for every user, of whom no read state has its id.
  pub unread_count-create_alert :
      (now : ℕ) (payload : AlertCreate) (by : Option User) (user : User) (db : AlertDb User)
      → state_of dec user db.inbox.next_id db.inbox.read_states ≡ none
      → unread_count dec now user none (create_alert dec now payload by db).1.inbox
        ≡ unread_count dec now user none db.inbox + 1
  unfolding unread_count notifications_query create_alert create_notification cities_for_state
  unread_count-create_alert now payload by user db fresh =
      select-append_one _ _ db.inbox.notifications ∙ rw fresh (ground arith)
