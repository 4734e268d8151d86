-- ===== src/Alerts/History.antt =====
-- What the history of an alert says of its row, and the requests that change both, as a relation.
pub mod Change
pub mod Creation
pub mod Requests
use metroflow_ai_backend.Common.{
  ℕ, ◌+◌, ◌≤◌, ◌<◌, ◌≡◌, ◌≢◌, refl, sym, ap, ◌∙◌, Bool, true, false, ◌&&◌, Option, none, some, List,
  [], ◌∷◌, ◌++◌, if◌then◌else◌, ◌==◌, is_some, ite, ◌⊎◌, inl, inr, Option-cases, Bool-cases, Text,
  arith, ℕ_discrete,
}
use metroflow_ai_backend.Common.Dict.{lookup, insert, lookup-insert}
use metroflow_ai_backend.Common.Dict.Order.{
  insert-found, insert-missing, insert_keeps_missing, insert_new,
}
use metroflow_ai_backend.Alerts.{
  StationAlert, Alert, AlertCreate, AlertDb, AlertIncidentEvent, IncidentAction,
  IncidentAction-discrete, created, resolved, acknowledged, assigned, unassigned, note_of,
}
use metroflow_ai_backend.Alerts.Actions.{
  create_alert, resolve_alert, acknowledge_alert, assign_alert, new_alert, assignment_note,
  is_refused_assignee, assignee_of, same_user,
}

module _ {User : Type 0} (dec : Discrete User) where
  abbrev pub is_event : IncidentAction → ℕ → AlertIncidentEvent User → Bool
  is_event action id e = ite (IncidentAction-discrete e.action action) (e.alert_id == id) false

  -- How many events of an action an alert has.
  abbrev pub count_events : IncidentAction → ℕ → List (AlertIncidentEvent User) → ℕ
  count_events action id [] = 0
  count_events action id (e ∷ es) =
      count_events action id es + (if is_event action id e then 1 else 0)

  pub count_events-append :
      (action : IncidentAction) (id : ℕ) (es : List (AlertIncidentEvent User))
      (e : AlertIncidentEvent User)
      → count_events action id (es ++ e ∷ [])
        ≡ count_events action id es + (if is_event action id e then 1 else 0)
  count_events-append action id [] e = refl
  count_events-append action id (f ∷ es) e = omega (arith, count_events-append action id es e)

  -- The events of an alert and its row.
  pub record Agrees (id : ℕ) (alert : Alert User) (db : AlertDb User) : Type 0 where
    pub created_once : count_events created id db.events ≡ 1
    pub resolved_once : count_events resolved id db.events ≡ (if alert.is_resolved then 1 else 0)
    pub resolved_when : is_some alert.resolved_at ≡ alert.is_resolved
    pub acknowledged_when :
        is_some alert.acknowledged_at ≡ true → 1 ≤ count_events acknowledged id db.events
    pub not_acknowledged :
        is_some alert.acknowledged_at ≡ false → count_events acknowledged id db.events ≡ 0
    pub acknowledged_by : is_some alert.acknowledged_by_id ≡ is_some alert.acknowledged_at

  pub record IsRecorded (db : AlertDb User) : Type 0 where
    pub agrees :
        (id : ℕ) (alert : Alert User)
        → lookup ℕ_discrete id db.alerts ≡ some alert
        → Agrees id alert db
    pub absent :
        (id : ℕ)
        → lookup ℕ_discrete id db.alerts ≡ none
        → (action : IncidentAction) → count_events action id db.events ≡ 0
    pub fresh : (id : ℕ) → db.next_id ≤ id → lookup ℕ_discrete id db.alerts ≡ none

  -- What a request read: every alert of it is there still.
  abbrev pub IsEarlier : AlertDb User → AlertDb User → Type 0
  IsEarlier seen db =
      (id : ℕ) → lookup ℕ_discrete id db.alerts ≡ none → lookup ℕ_discrete id seen.alerts ≡ none

  pub data Step (db : AlertDb User) : AlertDb User → Type 0 where
    creates :
        (now : ℕ) (payload : AlertCreate) (by : Option User)
        → Step db (create_alert dec now payload by db).1
    resolves :
        (now id : ℕ) (actor : Option User) (seen : AlertDb User)
        → IsEarlier seen db
        → Step db (resolve_alert dec now id actor seen db).1
    acknowledges :
        (now id : ℕ) (actor : User) (note : Option Text) (seen : AlertDb User)
        → IsEarlier seen db
        → Step db (acknowledge_alert dec now id actor note seen db).1
    assigns :
        (now id : ℕ) (to : Option User) (actor : User) (seen : AlertDb User)
        → IsEarlier seen db
        → Step db (assign_alert dec now id to actor seen db).1

  -- The tables after some requests.
  pub data Reach (start : AlertDb User) : AlertDb User → Type 0 where
    here : Reach start start
    next : {db db' : AlertDb User} → Reach start db → Step db db' → Reach start db'
