-- ===== src/Alerts/History/Change.antt =====
-- A request that writes one alert and one event keeps the tables in agreement.
use metroflow_ai_backend.Common.{
  ℕ, ◌≡◌, ◌≢◌, sym, ◌∙◌, some, List, [], ◌∷◌, ◌++◌, inl, inr, arith, ℕ_discrete,
}
use metroflow_ai_backend.Common.Dict.{lookup, insert}
use metroflow_ai_backend.Common.Dict.Order.{insert-found, insert-missing, insert_keeps_missing}
use metroflow_ai_backend.Alerts.{
  StationAlert, Alert, AlertDb, AlertIncidentEvent, IncidentAction, created, resolved, acknowledged,
}
use metroflow_ai_backend.Alerts.History.{Agrees, IsRecorded, count_events, count_events-append}

module _ {User : Type 0} (dec : Discrete User) where
  pub Agrees-same :
      (id : ℕ) (alert : Alert User) (old new : AlertDb User)
      → ((action : IncidentAction)
          → count_events dec action id new.events ≡ count_events dec action id old.events)
      → Agrees dec id alert old
      → Agrees dec id alert new
  Agrees-same id alert old new same h = record {
    created_once = omega (arith, same created, h.created_once);
    resolved_once = ground (arith, same resolved, h.resolved_once);
    resolved_when = h.resolved_when;
    acknowledged_when = λ e. omega (arith, same acknowledged, h.acknowledged_when e);
    not_acknowledged = λ e. omega (arith, same acknowledged, h.not_acknowledged e);
    acknowledged_by = h.acknowledged_by;
  }

  -- An event of another alert.
  pub count_events_other :
      (action : IncidentAction) (id : ℕ) (es : List (AlertIncidentEvent User))
      (e : AlertIncidentEvent User)
      → e.alert_id ≢ id
      → count_events dec action id (es ++ e ∷ []) ≡ count_events dec action id es
  count_events_other action id es e ne = ground (arith, ne, count_events-append dec action id es e)

  -- A request that writes one alert and one event of it.
  pub changed-IsRecorded :
      (id : ℕ) (old row : Alert User) (e : AlertIncidentEvent User) (broadcasts : List StationAlert)
      (db : AlertDb User)
      → IsRecorded dec db
      → lookup ℕ_discrete id db.alerts ≡ some old
      → e.alert_id ≡ id
      → let db' : AlertDb User = record db {
        alerts = insert ℕ_discrete id row db.alerts;
        events = db.events ++ e ∷ [];
        broadcasts = broadcasts;
      } in
        Agrees dec id row db' → IsRecorded dec db'
  changed-IsRecorded id old row e broadcasts db c found own h = record {
    agrees = λ i r look. elim (insert-found ℕ_discrete id i row r db.alerts look) [
      | inl (p, q) ↦ rw (← p, q) h
      | inr (ne, look') ↦
          Agrees-same i r db _
            (λ action. count_events_other action i db.events e (λ q. ne (sym own ∙ q)))
            (c.agrees i r look')
    ];
    absent = λ i look action.
        let (ne, look') = insert-missing ℕ_discrete id i row db.alerts look in
        count_events_other action i db.events e (λ q. ne (sym own ∙ q)) ∙ c.absent i look' action;
    fresh = λ i le. insert_keeps_missing ℕ_discrete id i row old db.alerts found (c.fresh i le);
  }
