-- ===== src/Alerts/Dispatch/Jobs.antt =====
-- A job of app/services/notification_dispatch_queue.py with the dispatch that it runs.
use metroflow_ai_backend.Common.{
  ℕ, Bool, Option, none, some, List, Text, ℕ_discrete, Option-cases, inl, inr,
}
use metroflow_ai_backend.Common.Dict.{Dict, lookup}
use metroflow_ai_backend.Notifications.Queue.{
  NotificationDispatchJob, NotificationDispatchKind, alert_created, alert_resolved, Queue,
  begin_job, end_job, crash, recover_pending_jobs, enqueue_and_submit,
}
use metroflow_ai_backend.Alerts.{AlertDb}
use metroflow_ai_backend.Alerts.Outcomes.{IsSender}
use metroflow_ai_backend.Alerts.Dispatch.{LogDb, Cut, Ending, returned, raised, gone, dispatch}
use metroflow_ai_backend.Alerts.Dispatch.Once.{IsSentOnce, dispatch-IsSentOnce}

-- What smtplib and the provider of texts do in one dispatch.
pub record Senders : Type 0 where
  pub send_emails : List Text → Dict Text Text
  pub send_sms : List Text → Dict Text Text
  pub emails_law : IsSender send_emails
  pub sms_law : IsSender send_sms

-- The queue and the tables of the dispatch. The ids of users and the texts of errors are one type, as
-- both are texts in the rows of the queue.
pub record System (User : Type 0) : Type 0 where
  pub queue : Queue User
  pub db : LogDb User

module _ {User : Type 0} (dec : Discrete User) where
  -- `dispatch_alert_resolution_notifications`: the alert's own flags.
  abbrev pub dispatch_alert_resolution_notifications :
      ℕ → ℕ → Option User → Option ℕ → Senders → Cut → LogDb User → Ending × LogDb User
  dispatch_alert_resolution_notifications now alert resolved_by job s cut db =
      elim (lookup ℕ_discrete alert db.alert_db.alerts) [
        | none ↦ (returned, db)
        | some row ↦
            dispatch dec now alert resolved_by row.notify_email row.notify_sms job s.send_emails
              s.send_sms cut db
      ]

  -- `dispatch_alert_notifications`
  abbrev pub dispatch_alert_notifications :
      ℕ
      → ℕ
      → Option User
      → Bool
      → Bool
      → Option ℕ
      → Senders
      → Cut
      → LogDb User
      → Ending × LogDb User
  dispatch_alert_notifications now alert created_by notify_email notify_sms job s cut db =
      dispatch dec now alert created_by notify_email notify_sms job s.send_emails s.send_sms cut db

  -- The dispatch that `run_job` chooses by the kind of the job.
  abbrev pub dispatch_job :
      NotificationDispatchKind
      → ℕ
      → ℕ
      → NotificationDispatchJob User
      → Senders
      → Cut
      → LogDb User
      → Ending × LogDb User
  dispatch_job alert_created now id job s cut db =
      dispatch_alert_notifications now job.alert_id job.actor_id job.notify_email job.notify_sms
        (some id) s cut db
  dispatch_job alert_resolved now id job s cut db =
      dispatch_alert_resolution_notifications now job.alert_id job.actor_id (some id) s cut db

  -- The end of `run_job`, of which the process may have gone.
  abbrev pub finish_job : ℕ → ℕ → User → Ending → Queue User → Queue User
  finish_job now id text returned q = end_job now id none q
  finish_job now id text raised q = end_job now id (some text) q
  finish_job now id text gone q = q

  -- `run_job`, with the text of what the dispatch raises.
  unfoldable pub run_job : ℕ → ℕ → User → Senders → Cut → System User → System User
  run_job now id text s cut system =
      let begun : Option (NotificationDispatchJob User) × Queue User = begin_job id system.queue in
      elim begun.0 [
        | none ↦ record system { queue = begun.1 }
        | some job ↦
            let done : Ending × LogDb User = dispatch_job job.kind now id job s cut system.db in
            record { queue = finish_job now id text done.0 begun.1; db = done.1 }
      ]

  -- What happens to the system: a job is enqueued, one is run, up to its end or to the end of its
  -- process, the process starts again, or requests change the alerts, users and notifications.
  pub data Step (system : System User) : System User → Type 0 where
    enqueues :
        (accepts : Bool) (kind : NotificationDispatchKind) (alert : ℕ) (actor : Option User)
        (notify_email notify_sms : Bool)
        → Step system (record system {
          queue = enqueue_and_submit accepts kind alert actor notify_email notify_sms system.queue;
        })
    runs :
        (now id : ℕ) (text : User) (s : Senders) (cut : Cut)
        → Step system (run_job now id text s cut system)
    restarts :
        (now max : ℕ)
        → Step system (record system { queue = recover_pending_jobs now max (crash system.queue) })
    changes :
        (alerts : AlertDb User)
        → Step system (record system { db = record system.db { alert_db = alerts } })

  pub data Reach (start : System User) : System User → Type 0 where
    here : Reach start start
    next : {before after : System User} → Reach start before → Step before after → Reach start after

  resolution-IsSentOnce :
      (now alert : ℕ) (by : Option User) (job : Option ℕ) (s : Senders) (cut : Cut)
      (db : LogDb User)
      → IsSentOnce db.logs
      → IsSentOnce (dispatch_alert_resolution_notifications now alert by job s cut db).1.logs
  resolution-IsSentOnce now alert by job s cut db once =
      elim (Option-cases (lookup ℕ_discrete alert db.alert_db.alerts)) [
        | inl a ↦ rw (dispatch_alert_resolution_notifications, a) once
        | inr (row, a) ↦
            rw (dispatch_alert_resolution_notifications, a)
              (dispatch-IsSentOnce dec now alert by row.notify_email row.notify_sms job
                s.send_emails s.send_sms cut db s.emails_law s.sms_law once)
      ]

  dispatch_job-IsSentOnce :
      (kind : NotificationDispatchKind) (now id : ℕ) (job : NotificationDispatchJob User)
      (s : Senders) (cut : Cut) (db : LogDb User)
      → IsSentOnce db.logs
      → IsSentOnce (dispatch_job kind now id job s cut db).1.logs
  dispatch_job-IsSentOnce alert_created now id job s cut db once =
      dispatch-IsSentOnce dec now job.alert_id job.actor_id job.notify_email job.notify_sms
        (some id) s.send_emails s.send_sms cut db s.emails_law s.sms_law once
  dispatch_job-IsSentOnce alert_resolved now id job s cut db once =
      resolution-IsSentOnce now job.alert_id job.actor_id (some id) s cut db once

  run_job-IsSentOnce :
      (now id : ℕ) (text : User) (s : Senders) (cut : Cut) (system : System User)
      → IsSentOnce system.db.logs
      → IsSentOnce (run_job now id text s cut system).db.logs
  unfolding run_job
  run_job-IsSentOnce now id text s cut system once =
      elim (Option-cases (begin_job id system.queue).0) [
        | inl a ↦ rw (run_job, a) once
        | inr (job, a) ↦
            rw (run_job, a) (dispatch_job-IsSentOnce job.kind now id job s cut system.db once)
      ]

  Step-IsSentOnce :
      {before after : System User}
      → Step before after
      → IsSentOnce before.db.logs
      → IsSentOnce after.db.logs
  Step-IsSentOnce (enqueues accepts kind alert actor e m) once = once
  Step-IsSentOnce {before} (runs now id text s cut) once =
      run_job-IsSentOnce now id text s cut before once
  Step-IsSentOnce (restarts now max) once = once
  Step-IsSentOnce (changes alerts) once = once

  -- However often the job of an alert is run, after failures and restarts of the process in the
  -- middle of it, no recipient is logged as sent twice for the job over a channel. The runs come one
  -- after the other.
  pub Reach-IsSentOnce :
      {start system : System User}
      → IsSentOnce start.db.logs
      → Reach start system
      → IsSentOnce system.db.logs
  Reach-IsSentOnce once here = once
  Reach-IsSentOnce once (next r s) = Step-IsSentOnce s (Reach-IsSentOnce once r)
