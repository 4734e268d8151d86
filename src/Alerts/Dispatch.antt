-- ===== src/Alerts/Dispatch.antt =====
-- The dispatch of an alert's notifications, of app/services/alert_service.py: the recipients, without
-- those that a log has as sent for the job, the senders, and the logs of what they did. The process
-- may end at the points where this can be seen in the tables.
pub mod Count
pub mod Once
pub mod Jobs
use metroflow_ai_backend.Common.{
  ℕ, ◌+◌, ◌≤◌, Bool, true, false, ◌&&◌, ◌||◌, not, Option, none, some, List, [], ◌∷◌, ◌++◌, map,
  leb, ltb, if◌then◌else◌, ◌==◌, is_some, ite, length, select, Text, Text-discrete, codes, decimal,
  ℕ_discrete,
}
use metroflow_ai_backend.Common.Dict.{Dict, lookup, values}
use metroflow_ai_backend.Geo.{is_in}
use metroflow_ai_backend.Notifications.Inbox.{email as email_source}
use metroflow_ai_backend.Notifications.Inbox.Actions.{create_notification}
use metroflow_ai_backend.Notifications.Queue.{
  NotificationDispatchJob, NotificationDispatchKind, alert_created, alert_resolved, Queue,
  begin_job, end_job,
}
use metroflow_ai_backend.Alerts.{Alert, AlertDb, UserProfile, city_of}

pub data NotificationChannel : Type 0 where
  email sms : NotificationChannel

unfoldable pub NotificationChannel-discrete : Discrete NotificationChannel
NotificationChannel-discrete = hlevel

pub data NotificationStatus : Type 0 where
  sent failed : NotificationStatus

-- A row of `notification_logs`.
pub record NotificationLog : Type 0 where
  pub alert_id : ℕ
  pub job_id : Option ℕ
  pub channel : NotificationChannel
  pub recipient : Text
  pub status : NotificationStatus
  pub error_message : Option Text
  pub sent_at : Option ℕ

-- The tables of the alerts, and the logs, in the order of their ids.
pub record LogDb (User : Type 0) : Type 0 where
  pub alert_db : AlertDb User
  pub logs : List NotificationLog

abbrev pub is_job : Option ℕ → ℕ → Bool
is_job none job = false
is_job (some id) job = id == job

abbrev pub is_sent : NotificationStatus → Bool
is_sent sent = true
is_sent failed = false

-- The filter of `_already_sent_recipients`.
abbrev pub is_sent_for : ℕ → NotificationChannel → NotificationLog → Bool
is_sent_for job channel log =
    is_job log.job_id job
    && ite (NotificationChannel-discrete log.channel channel) true false
    && is_sent log.status

-- `_already_sent_recipients`
abbrev pub already_sent_recipients :
    Option ℕ → NotificationChannel → List NotificationLog → List Text
already_sent_recipients none channel logs = []
already_sent_recipients (some job) channel logs =
    map (λ log. log.recipient) (select (is_sent_for job channel) logs)

-- What `_log_results` adds for a result.
abbrev pub log_of : ℕ → ℕ → NotificationChannel → Option ℕ → Text × Text → NotificationLog
log_of now alert channel job result =
    let done = ite (Text-discrete result.1 (codes "sent")) true false in
    record {
      alert_id = alert;
      job_id = job;
      channel = channel;
      recipient = result.0;
      status = if done then sent else failed;
      error_message = if done then none else some result.1;
      sent_at = if done then some now else none;
    }

-- The columns `recipient` and `error_message` have 255 and 500 characters.
abbrev pub fits : NotificationLog → Bool
fits log =
    leb (length log.recipient) 255
    && (elim log.error_message [ none ↦ true | some text ↦ leb (length text) 500 ])

abbrev pub all_fit : List NotificationLog → Bool
all_fit [] = true
all_fit (log ∷ logs) = fits log && all_fit logs

abbrev pub sent_count : List NotificationLog → ℕ
sent_count [] = 0
sent_count (log ∷ logs) = sent_count logs + (if is_sent log.status then 1 else 0)

-- A set of texts, from the values that are there and not empty.
abbrev pub add_text : Option Text → List Text → List Text
add_text none texts = texts
add_text (some []) texts = texts
add_text (some (c ∷ s)) texts = if is_in (c ∷ s) texts then texts else (c ∷ s) ∷ texts

abbrev pub add_texts : (UserProfile → Option Text) → List UserProfile → List Text
add_texts field [] = []
add_texts field (user ∷ users) = add_text (field user) (add_texts field users)

-- `text.endswith(suffix)`
abbrev pub ends_with : Text → Text → Bool
ends_with suffix [] = ite (Text-discrete [] suffix) true false
ends_with suffix (c ∷ s) = ite (Text-discrete (c ∷ s) suffix) true (ends_with suffix s)

-- `is_active` and not of SIMULATED_EMAIL_DOMAIN.
abbrev pub is_recipient : UserProfile → Bool
is_recipient user = user.is_active && (elim user.email [
  | none ↦ true
  | some address ↦ not (ends_with (codes "@sim.metroflow.internal") address)
])

-- The recipients that are left.
abbrev pub without : List Text → List Text → List Text
without taken = select (λ text. not (is_in text taken))

-- Where the process of a dispatch ends, if it does not reach its own end.
pub data Cut : Type 0 where
  nowhere before_logs between_logs : Cut

-- How a dispatch ends: it returns, it raises, or its process is gone.
pub data Ending : Type 0 where
  returned raised gone : Ending

module _ {User : Type 0} (dec : Discrete User) where
  -- `_log_results`: nothing is kept where a row does not fit its columns.
  unfoldable pub log_results :
      ℕ
      → ℕ
      → NotificationChannel
      → Dict Text Text
      → Option Text
      → Option ℕ
      → LogDb User
      → Option (LogDb User)
  log_results now alert channel results city job db =
      let rows = map (log_of now alert channel job) results in
      let logged : LogDb User = record db { logs = db.logs ++ rows } in
      if not (all_fit rows)
      then none
      else if ite (NotificationChannel-discrete channel email) (ltb 0 (sent_count rows)) false
      then some (record logged {
        alert_db = record db.alert_db {
          inbox =
              (create_notification dec now email_source (codes "Email notifications sent")
                (codes "Email notification sent to "
                  ++ decimal (sent_count rows)
                  ++ codes " recipient(s) for alert #"
                  ++ decimal alert
                  ++ codes ".")
                none (some alert) city db.alert_db.inbox).1;
        };
      })
      else some logged

  -- The creator's address is added, whether the creator is active or not.
  abbrev pub recipients_of :
      (UserProfile → Option Text)
      → NotificationChannel
      → Option User
      → Option ℕ
      → LogDb User
      → List Text
  recipients_of field channel created_by job db =
      let active = add_texts field (select is_recipient (values db.alert_db.users)) in
      let creator : Option UserProfile = elim created_by [
        | none ↦ none
        | some id ↦ lookup dec id db.alert_db.users
      ] in
      without (already_sent_recipients job channel db.logs)
        (elim creator [ none ↦ active | some user ↦ add_text (field user) active ])

  -- A sender is called where it is wanted and has recipients.
  abbrev pub results_of : Bool → List Text → (List Text → Dict Text Text) → Option (Dict Text Text)
  results_of wanted recipients send =
      if wanted then (elim recipients [ [] ↦ none | r ∷ rs ↦ some (send (r ∷ rs)) ]) else none

  abbrev pub log_if :
      ℕ
      → ℕ
      → NotificationChannel
      → Option (Dict Text Text)
      → Option Text
      → Option ℕ
      → LogDb User
      → Option (LogDb User)
  log_if now alert channel none city job db = some db
  log_if now alert channel (some results) city job db =
      log_results now alert channel results city job db

  -- The part of `_dispatch` after the senders.
  unfoldable pub write_logs :
      ℕ
      → ℕ
      → Option (Dict Text Text)
      → Option (Dict Text Text)
      → Option Text
      → Option ℕ
      → Cut
      → LogDb User
      → Ending × LogDb User
  write_logs now alert email_results sms_results city job before_logs db = (gone, db)
  write_logs now alert email_results sms_results city job between_logs db =
      elim (log_if now alert email email_results city job db) [
        | none ↦ (raised, db)
        | some logged ↦ (gone, logged)
      ]
  write_logs now alert email_results sms_results city job nowhere db =
      elim (log_if now alert email email_results city job db) [
        | none ↦ (raised, db)
        | some logged ↦ elim (log_if now alert sms sms_results city job logged) [
          | none ↦ (raised, logged)
          | some all ↦ (returned, all)
        ]
      ]

  -- `_dispatch`, with the two senders.
  unfoldable pub dispatch :
      ℕ
      → ℕ
      → Option User
      → Bool
      → Bool
      → Option ℕ
      → (List Text → Dict Text Text)
      → (List Text → Dict Text Text)
      → Cut
      → LogDb User
      → Ending × LogDb User
  unfolding write_logs
  dispatch now id created_by notify_email notify_sms job send_emails send_sms cut db =
      if not notify_email && not notify_sms
      then (returned, db)
      else elim (lookup ℕ_discrete id db.alert_db.alerts) [
        | none ↦ (returned, db)
        | some alert ↦
            write_logs now id
              (results_of notify_email (recipients_of (λ user. user.email) email created_by job db)
                send_emails)
              (results_of notify_sms (recipients_of (λ user. user.phone) sms created_by job db)
                send_sms)
              (city_of (lookup ℕ_discrete alert.station_id db.alert_db.stations)) job cut db
      ]
