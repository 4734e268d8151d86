-- ===== src/Alerts/Actions.antt =====
-- The requests of app/services/alert_service.py that change an alert. Each reads the tables and
-- commits later: what it read may be stale, so it is given both.
use metroflow_ai_backend.Common.{
  ℕ, ◌+◌, Bool, true, false, not, Option, none, some, [], ◌∷◌, ◌++◌, ◌⊎◌, inl, inr, if◌then◌else◌,
  is_some, ite, Text, codes, ℕ_discrete,
}
use metroflow_ai_backend.Common.Dict.{lookup, insert}
use metroflow_ai_backend.Notifications.Inbox.{operator as by_operator}
use metroflow_ai_backend.Notifications.Inbox.Actions.{create_notification}
use metroflow_ai_backend.Alerts.{
  alert_type_value, Alert, IncidentAction, UserProfile, AlertCreate, AlertDb, Refusal, title_case,
  station_label, city_of, name_of, note_of, may_be_assigned, created, resolved, acknowledged,
  assigned, unassigned, not_found, conflict, unprocessable,
}

module _ {User : Type 0} (dec : Discrete User) where
  -- `_broadcast_alert`
  abbrev pub broadcast_alert : ℕ → Alert User → Bool → AlertDb User → AlertDb User
  broadcast_alert id alert is_resolved db = record db {
    broadcasts =
        db.broadcasts
        ++ record {
          alert_id = id;
          station_id = alert.station_id;
          station_name = name_of (lookup ℕ_discrete alert.station_id db.stations);
          alert_type = alert.alert_type;
          message = alert.message;
          available_until = alert.available_until;
          is_resolved = is_resolved;
          created_at = alert.created_at;
        }
          ∷ [];
  }

  abbrev pub add_event :
      ℕ → ℕ → Option User → IncidentAction → Option Text → AlertDb User → AlertDb User
  add_event now id actor action note db = record db {
    events =
        db.events
        ++ record {
          alert_id = id;
          actor_id = actor;
          action = action;
          note = note;
          created_at = now;
        }
          ∷ [];
  }

  abbrev pub with_alert : ℕ → Alert User → AlertDb User → AlertDb User
  with_alert id alert db = record db { alerts = insert ℕ_discrete id alert db.alerts }

  -- `Alert(**payload.model_dump(), created_by=created_by)`, with the columns' defaults.
  abbrev pub new_alert : ℕ → AlertCreate → Option User → Alert User
  new_alert now payload created_by = record {
    station_id = payload.station_id;
    alert_type = payload.alert_type;
    message = payload.message;
    created_by = created_by;
    is_resolved = false;
    resolved_at = none;
    available_until = payload.available_until;
    notify_email = payload.notify_email;
    notify_sms = payload.notify_sms;
    acknowledged_at = none;
    acknowledged_by_id = none;
    assigned_to_id = none;
    created_at = now;
  }

  -- `create_alert`: the new id, and the tables.
  unfoldable pub create_alert : ℕ → AlertCreate → Option User → AlertDb User → ℕ × AlertDb User
  create_alert now payload created_by db =
      let id = db.next_id in
      let alert = new_alert now payload created_by in
      let added : AlertDb User = record db {
        alerts = db.alerts ++ (id, alert) ∷ [];
        next_id = id + 1;
      } in
      let announced =
        broadcast_alert id alert false (add_event now id created_by created none added) in
      let station = lookup ℕ_discrete alert.station_id db.stations in
      (
        id,
        record announced {
          inbox =
              (create_notification dec now by_operator
                (title_case (alert_type_value alert.alert_type)
                  ++ codes " alert - "
                  ++ station_label alert.station_id station)
                alert.message none (some id) (city_of station) announced.inbox).1;
        },
      )

  -- `resolve_alert`, from a read and at its commit: whether this call resolved the alert. The update
  -- tests the row again.
  unfoldable pub resolve_alert :
      ℕ → ℕ → Option User → AlertDb User → AlertDb User → (Refusal ⊎ Bool) × AlertDb User
  resolve_alert now id actor seen db = elim (lookup ℕ_discrete id seen.alerts) [
    | none ↦ (inl not_found, db)
    | some stale ↦ elim (lookup ℕ_discrete id db.alerts) [
      | none ↦ (inr false, db)
      | some alert ↦
          if alert.is_resolved
          then (inr false, db)
          else let closed : Alert User = record alert {
            is_resolved = true;
            resolved_at = some now;
          } in
            (
              inr true,
              broadcast_alert id closed true
                  (add_event now id actor resolved none (with_alert id closed db)),
            )
    ]
  ]

  -- What `acknowledge_alert` commits: its two columns, over the row that is there by then.
  abbrev pub commit_acknowledged :
      ℕ → ℕ → User → Option Text → Alert User → AlertDb User → Alert User × AlertDb User
  commit_acknowledged now id actor note seen db =
      let row : Alert User = elim (lookup ℕ_discrete id db.alerts) [
        | none ↦ seen
        | some alert ↦ alert
      ] in
      let alert : Alert User = record row {
        acknowledged_at = some now;
        acknowledged_by_id = some actor;
      } in
      (
        alert,
        broadcast_alert id alert false
            (add_event now id (some actor) acknowledged (note_of note) (with_alert id alert db)),
      )

  unfoldable pub acknowledge_alert :
      ℕ
      → ℕ
      → User
      → Option Text
      → AlertDb User
      → AlertDb User
      → (Refusal ⊎ Alert User) × AlertDb User
  acknowledge_alert now id actor note seen db = elim (lookup ℕ_discrete id seen.alerts) [
    | none ↦ (inl not_found, db)
    | some alert ↦
        if alert.is_resolved
        then (inl conflict, db)
        else if is_some alert.acknowledged_at
        then (inr alert, db)
        else let (row, db') = commit_acknowledged now id actor note alert db in (inr row, db')
  ]

  abbrev pub same_user : Option User → Option User → Bool
  same_user none none = true
  same_user none (some v) = false
  same_user (some u) none = false
  same_user (some u) (some v) = ite (dec u v) true false

  abbrev pub assignment_note : Option UserProfile → Text
  assignment_note none = codes "Assignment cleared"
  assignment_note (some user) = codes "Assigned to " ++ user.full_name

  -- What `assign_alert` commits.
  abbrev pub commit_assigned :
      ℕ
      → ℕ
      → Option User
      → Option UserProfile
      → User
      → Alert User
      → AlertDb User
      → Alert User × AlertDb User
  commit_assigned now id assigned_to assignee actor seen db =
      let row : Alert User = elim (lookup ℕ_discrete id db.alerts) [
        | none ↦ seen
        | some alert ↦ alert
      ] in
      let alert : Alert User = record row { assigned_to_id = assigned_to } in
      (
        alert,
        broadcast_alert id alert false (
            add_event now id (some actor) (if is_some assigned_to then assigned else unassigned)
              (some (assignment_note assignee)) (with_alert id alert db)),
      )

  -- `db.get(UserProfile, assigned_to_id) if assigned_to_id else None`
  abbrev pub assignee_of : Option User → AlertDb User → Option UserProfile
  assignee_of none db = none
  assignee_of (some user) db = lookup dec user db.users

  abbrev pub is_refused_assignee : Option User → Option UserProfile → Bool
  is_refused_assignee none assignee = false
  is_refused_assignee (some user) none = true
  is_refused_assignee (some user) (some profile) = not (may_be_assigned profile)

  unfoldable pub assign_alert :
      ℕ
      → ℕ
      → Option User
      → User
      → AlertDb User
      → AlertDb User
      → (Refusal ⊎ Alert User) × AlertDb User
  assign_alert now id assigned_to actor seen db = elim (lookup ℕ_discrete id seen.alerts) [
    | none ↦ (inl not_found, db)
    | some alert ↦
        let assignee = assignee_of assigned_to seen in
        if alert.is_resolved
        then (inl conflict, db)
        else if is_refused_assignee assigned_to assignee
        then (inl unprocessable, db)
        else if same_user alert.assigned_to_id assigned_to
        then (inr alert, db)
        else let (row, db') = commit_assigned now id assigned_to assignee actor alert db in
          (inr row, db')
  ]
