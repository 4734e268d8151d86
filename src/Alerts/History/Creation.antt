-- ===== src/Alerts/History/Creation.antt =====
-- A new alert and its first event.
use metroflow_ai_backend.Common.{
  ℕ, ◌≡◌, refl, sym, ap, ◌∙◌, Option, none, [], ◌∷◌, ◌++◌, inl, inr, arith, ℕ_discrete,
}
use metroflow_ai_backend.Common.Dict.{lookup, lookup-insert}
use metroflow_ai_backend.Common.Dict.Order.{insert-found, insert-missing, insert_new}
use metroflow_ai_backend.Alerts.{
  AlertCreate, AlertDb, AlertIncidentEvent, IncidentAction, IncidentAction-discrete, created,
  resolved, acknowledged,
}
use metroflow_ai_backend.Alerts.Actions.{create_alert, new_alert}
use metroflow_ai_backend.Alerts.History.{IsRecorded, count_events, count_events-append, Agrees}
use metroflow_ai_backend.Alerts.History.Change.{Agrees-same, count_events_other}

module _ {User : Type 0} (dec : Discrete User) where
  new_event : ℕ → ℕ → Option User → AlertIncidentEvent User
  new_event id now by = record {
    alert_id = id;
    actor_id = by;
    action = created;
    note = none;
    created_at = now;
  }

  -- The first event of an alert agrees with its row.
  new_alert-Agrees :
      (now id : ℕ) (payload : AlertCreate) (by : Option User) (old new : AlertDb User)
      → IsRecorded dec old
      → lookup ℕ_discrete id old.alerts ≡ none
      → new.events ≡ old.events ++ new_event id now by ∷ []
      → Agrees dec id (new_alert dec now payload by) new
  unfolding new_event IncidentAction-discrete
  new_alert-Agrees now id payload by old new c unused e =
      let counts = λ (action : IncidentAction). ap (count_events dec action id) e in
      let event = new_event id now by in
      record {
        created_once = ground (
          arith,
          counts created,
          c.absent id unused created,
          count_events-append dec created id old.events event,
        );
        resolved_once = ground (
          arith,
          counts resolved,
          c.absent id unused resolved,
          count_events-append dec resolved id old.events event,
        );
        resolved_when = refl;
        acknowledged_when = λ k. ground (arith, k);
        not_acknowledged = λ k. ground (
          arith,
          counts acknowledged,
          c.absent id unused acknowledged,
          count_events-append dec acknowledged id old.events event,
        );
        acknowledged_by = refl;
      }

  pub create-IsRecorded :
      (now : ℕ) (payload : AlertCreate) (by : Option User) (db : AlertDb User)
      → IsRecorded dec db
      → IsRecorded dec (create_alert dec now payload by db).1
  unfolding create_alert new_event IncidentAction-discrete
  create-IsRecorded now payload by db c =
      let id = db.next_id in
      let unused = c.fresh id (omega arith) in
      let row = new_alert dec now payload by in
      let new = insert_new ℕ_discrete id row db.alerts unused in
      let e = new_event id now by in
      record {
        agrees = λ i r look.
            elim (insert-found ℕ_discrete id i _ r db.alerts
              (ap (lookup ℕ_discrete i) new ∙ look)) [
                | inl (p, q) ↦ rw (← p, q) (new_alert-Agrees now id payload by db _ c unused refl)
                | inr (ne, look') ↦
                    Agrees-same dec i r db _
                      (λ action. count_events_other dec action i db.events e ne)
                      (c.agrees i r look')
              ];
        absent = λ i look action.
            let (ne, look') =
              insert-missing ℕ_discrete id i _ db.alerts (ap (lookup ℕ_discrete i) new ∙ look) in
            count_events_other dec action i db.events e ne ∙ c.absent i look' action;
        fresh = λ i le.
            sym (ap (lookup ℕ_discrete i) new)
            ∙ ground (
              arith,
              c.fresh i (omega (arith, le)),
              lookup-insert ℕ_discrete id i row db.alerts,
              le,
            );
      }
