-- ===== src/Alerts/History/Requests.antt =====
-- The history of an alert agrees with its row after any requests, on stale reads too.
use metroflow_ai_backend.Common.{
  ℕ, ◌≡◌, refl, ◌∙◌, Bool, Option, none, some, List, [], ◌∷◌, ◌++◌, if◌then◌else◌, is_some, ◌⊎◌,
  inl, inr, Option-cases, Bool-cases, Text, arith, ℕ_discrete,
}
use metroflow_ai_backend.Common.Dict.{lookup}
use metroflow_ai_backend.Alerts.{
  Alert, AlertDb, AlertIncidentEvent, IncidentAction, IncidentAction-discrete, created, resolved,
  acknowledged, assigned, unassigned, note_of,
}
use metroflow_ai_backend.Alerts.Actions.{
  resolve_alert, acknowledge_alert, assign_alert, assignment_note, is_refused_assignee, assignee_of,
  same_user,
}
use metroflow_ai_backend.Alerts.History.{
  IsRecorded, IsEarlier, Step, creates, resolves, acknowledges, assigns, Reach, here, next,
  count_events, count_events-append,
}
use metroflow_ai_backend.Alerts.History.Creation.{create-IsRecorded}
use metroflow_ai_backend.Alerts.History.Change.{changed-IsRecorded}

module _ {User : Type 0} (dec : Discrete User) where
  resolve-IsRecorded :
      (now id : ℕ) (actor : Option User) (seen db : AlertDb User)
      → IsRecorded dec db
      → IsRecorded dec (resolve_alert dec now id actor seen db).1
  unfolding resolve_alert IncidentAction-discrete
  resolve-IsRecorded now id actor seen db c =
      elim (Option-cases (lookup ℕ_discrete id seen.alerts)) [
        | inl a ↦ rw (resolve_alert, a) c
        | inr (stale, a) ↦ elim (Option-cases (lookup ℕ_discrete id db.alerts)) [
          | inl b ↦ rw (resolve_alert, a, b) c
          | inr (alert, b) ↦ elim (Bool-cases alert.is_resolved) [
            | inl r ↦ rw (resolve_alert, a, b, r) c
            | inr r ↦
                let h = c.agrees id alert b in
                let e : AlertIncidentEvent User = record {
                  alert_id = id;
                  actor_id = actor;
                  action = resolved;
                  note = none;
                  created_at = now;
                } in
                rw (resolve_alert, a, b, r)
                  (changed-IsRecorded dec id alert _ e _ db c b refl (record {
                    created_once =
                        ground
                          (arith, h.created_once, count_events-append dec created id db.events e);
                    resolved_once = ground (
                      arith,
                      r,
                      h.resolved_once,
                      count_events-append dec resolved id db.events e,
                    );
                    resolved_when = refl;
                    acknowledged_when = λ k. ground (
                      arith,
                      h.acknowledged_when k,
                      count_events-append dec acknowledged id db.events e,
                    );
                    not_acknowledged = λ k. ground (
                      arith,
                      h.not_acknowledged k,
                      count_events-append dec acknowledged id db.events e,
                    );
                    acknowledged_by = h.acknowledged_by;
                  }))
          ]
        ]
      ]

  -- An alert of an earlier read is there still.
  still_there :
      (id : ℕ) (stale : Alert User) (seen db : AlertDb User)
      → IsEarlier dec seen db
      → lookup ℕ_discrete id seen.alerts ≡ some stale
      → (alert : Alert User) × (lookup ℕ_discrete id db.alerts ≡ some alert)
  still_there id stale seen db earlier a = elim (Option-cases (lookup ℕ_discrete id db.alerts)) [
    | inl b ↦ absurd (ground (arith, a, earlier id b))
    | inr found ↦ found
  ]

  acknowledge-IsRecorded :
      (now id : ℕ) (actor : User) (note : Option Text) (seen db : AlertDb User)
      → IsEarlier dec seen db
      → IsRecorded dec db
      → IsRecorded dec (acknowledge_alert dec now id actor note seen db).1
  unfolding acknowledge_alert IncidentAction-discrete
  acknowledge-IsRecorded now id actor note seen db earlier c =
      elim (Option-cases (lookup ℕ_discrete id seen.alerts)) [
        | inl a ↦ rw (acknowledge_alert, a) c
        | inr (stale, a) ↦ elim (Bool-cases stale.is_resolved) [
          | inl r ↦ rw (acknowledge_alert, a, r) c
          | inr r ↦ elim (Bool-cases (is_some stale.acknowledged_at)) [
            | inl k ↦ rw (acknowledge_alert, a, r, k) c
            | inr k ↦
                let (alert, b) = still_there id stale seen db earlier a in
                let h = c.agrees id alert b in
                let e : AlertIncidentEvent User = record {
                  alert_id = id;
                  actor_id = some actor;
                  action = acknowledged;
                  note = note_of note;
                  created_at = now;
                } in
                rw (acknowledge_alert, a, r, k, b)
                  (changed-IsRecorded dec id alert _ e _ db c b refl (record {
                    created_once =
                        ground
                          (arith, h.created_once, count_events-append dec created id db.events e);
                    resolved_once =
                        ground
                          (arith, h.resolved_once, count_events-append dec resolved id db.events e);
                    resolved_when = h.resolved_when;
                    acknowledged_when =
                        λ k. ground (arith, count_events-append dec acknowledged id db.events e);
                    not_acknowledged = λ k. ground (arith, k);
                    acknowledged_by = refl;
                  }))
          ]
        ]
      ]

  assignment_uncounted :
      (id now : ℕ) (actor : Option User) (given : Bool) (note : Option Text)
      (es : List (AlertIncidentEvent User)) (counted : IncidentAction)
      → (counted ≡ created) ⊎ (counted ≡ resolved) ⊎ (counted ≡ acknowledged)
      → count_events dec counted id (
          es
          ++ record {
            alert_id = id;
            actor_id = actor;
            action = if given then assigned else unassigned;
            note = note;
            created_at = now;
          }
            ∷ [])
        ≡ count_events dec counted id es
  unfolding IncidentAction-discrete
  assignment_uncounted id now actor given note es counted h = ground (
    arith,
    h,
    Bool-cases given,
    count_events-append dec counted id es (record {
      alert_id = id;
      actor_id = actor;
      action = if given then assigned else unassigned;
      note = note;
      created_at = now;
    }),
  )

  assign-IsRecorded :
      (now id : ℕ) (to : Option User) (actor : User) (seen db : AlertDb User)
      → IsEarlier dec seen db
      → IsRecorded dec db
      → IsRecorded dec (assign_alert dec now id to actor seen db).1
  unfolding assign_alert IncidentAction-discrete
  assign-IsRecorded now id to actor seen db earlier c =
      elim (Option-cases (lookup ℕ_discrete id seen.alerts)) [
        | inl a ↦ rw (assign_alert, a) c
        | inr (stale, a) ↦ elim (Bool-cases stale.is_resolved) [
          | inl r ↦ rw (assign_alert, a, r) c
          | inr r ↦ elim (Bool-cases (is_refused_assignee dec to (assignee_of dec to seen))) [
            | inl k ↦ rw (assign_alert, a, r, k) c
            | inr k ↦ elim (Bool-cases (same_user dec stale.assigned_to_id to)) [
              | inl m ↦ rw (assign_alert, a, r, k, m) c
              | inr m ↦
                  let (alert, b) = still_there id stale seen db earlier a in
                  let h = c.agrees id alert b in
                  let uncounted =
                    assignment_uncounted id now (some actor) (is_some to)
                      (some (assignment_note dec (assignee_of dec to seen))) db.events in
                  rw (assign_alert, a, r, k, m, b)
                    (changed-IsRecorded dec id alert _ _ _ db c b refl (record {
                      created_once = uncounted created (inl refl) ∙ h.created_once;
                      resolved_once = uncounted resolved (inr (inl refl)) ∙ h.resolved_once;
                      resolved_when = h.resolved_when;
                      acknowledged_when =
                          λ k. rw (uncounted acknowledged (inr (inr refl))) (h.acknowledged_when k);
                      not_acknowledged =
                          λ k. uncounted acknowledged (inr (inr refl)) ∙ h.not_acknowledged k;
                      acknowledged_by = h.acknowledged_by;
                    }))
            ]
          ]
        ]
      ]

  Step-IsRecorded :
      {db db' : AlertDb User} → Step dec db db' → IsRecorded dec db → IsRecorded dec db'
  Step-IsRecorded {db} (creates now payload by) c = create-IsRecorded dec now payload by db c
  Step-IsRecorded {db} (resolves now id actor seen earlier) c =
      resolve-IsRecorded now id actor seen db c
  Step-IsRecorded {db} (acknowledges now id actor note seen earlier) c =
      acknowledge-IsRecorded now id actor note seen db earlier c
  Step-IsRecorded {db} (assigns now id to actor seen earlier) c =
      assign-IsRecorded now id to actor seen db earlier c

  -- After any requests, whatever each of them read: an alert has one event of its creation, and one
  -- of its resolution exactly if it is resolved; it is acknowledged exactly if it has an event of it.
  -- The requests start from tables of which this holds, as of empty ones.
  pub Reach-IsRecorded :
      {start db : AlertDb User} → IsRecorded dec start → Reach dec start db → IsRecorded dec db
  Reach-IsRecorded c here = c
  Reach-IsRecorded c (next r s) = Step-IsRecorded s (Reach-IsRecorded c r)
