-- ===== src/Alerts/Tests.antt =====
-- Runs of the alerts and of their dispatch at concrete inputs.
use metroflow_ai_backend.Common.{
  ℕ, zero, suc, ◌≡◌, refl, ◌++◌, true, false, none, some, [], ◌∷◌, arith, ℕ_discrete, Text-discrete,
  codes, decimal,
}
use metroflow_ai_backend.Common.Dict.{lookup, insert}
use metroflow_ai_backend.Geo.{cities_for_state}
use metroflow_ai_backend.Notifications.Inbox.{Inbox, state_of, notifications_query, unread_count}
use metroflow_ai_backend.Notifications.Inbox.Actions.{create_notification}
use metroflow_ai_backend.Notifications.Queue.{
  alert_created, enqueue_and_submit, begin_job, mark, end_job,
}
use metroflow_ai_backend.Alerts.{
  Alert, AlertCreate, AlertDb, StationAlert, IncidentAction-discrete, delay, operator, UserProfile,
  title_case,
}
use metroflow_ai_backend.Alerts.Actions.{
  create_alert, resolve_alert, acknowledge_alert, assign_alert,
}
use metroflow_ai_backend.Alerts.History
use metroflow_ai_backend.Alerts.History.Requests
use metroflow_ai_backend.Alerts.Announced
use metroflow_ai_backend.Alerts.Email.{
  SendSettings, smtp, MailServer, Session, send_attempts, send_alert_emails, sms_attempts,
  send_alert_sms,
}
use metroflow_ai_backend.Alerts.Outcomes
use metroflow_ai_backend.Alerts.Dispatch.{
  NotificationChannel-discrete, email, log_results, write_logs, dispatch, between_logs, nowhere,
}
use metroflow_ai_backend.Alerts.Dispatch.Count.{count_sent}
use metroflow_ai_backend.Alerts.Dispatch.Once
use metroflow_ai_backend.Alerts.Dispatch.Jobs
use metroflow_ai_backend.Alerts.Dispatch.Jobs.{run_job}

program : Unit {0}
unfolding lookup insert state_of notifications_query unread_count create_notification create_alert
    resolve_alert acknowledge_alert assign_alert send_attempts send_alert_emails sms_attempts
    send_alert_sms log_results write_logs dispatch run_job enqueue_and_submit begin_job mark end_job
    cities_for_state decimal ℕ_discrete Text-discrete IncidentAction-discrete
    NotificationChannel-discrete
program = tt

abbrev person : UserProfile
person = record {
  email = some (codes "a@b.c");
  phone = none;
  full_name = codes "Ann";
  role = operator;
  is_active = true;
}

abbrev no_notifications : Inbox ℕ
no_notifications = record { notifications = []; read_states = []; next_id = 1; notices = [] }

abbrev empty_db : AlertDb ℕ
empty_db = record {
  alerts = [];
  next_id = 1;
  events = [];
  stations = (5, record { station_name = codes "Dadar"; city = codes "Mumbai" }) ∷ [];
  users = (7, person) ∷ [];
  inbox = no_notifications;
  broadcasts = [];
}

abbrev payload : AlertCreate
payload = record {
  station_id = 5;
  alert_type = delay;
  message = codes "late";
  notify_email = true;
  notify_sms = false;
  available_until = none;
}

abbrev open_db : AlertDb ℕ
open_db = (create_alert ℕ_discrete 100 payload (some 7) empty_db).1

title_of_delay : title_case (codes "delay") ≡ codes "Delay"
title_of_delay = refl

empty_db-IsRecorded : History.IsRecorded ℕ_discrete empty_db
unfolding program
empty_db-IsRecorded = record {
  agrees = λ id alert e. absurd (ground (arith, e));
  absent = λ id e action. refl;
  fresh = λ id le. refl;
}

abbrev resolved_db : AlertDb ℕ
resolved_db = (resolve_alert ℕ_discrete 200 1 (some 7) open_db open_db).1

visited : History.Reach ℕ_discrete empty_db resolved_db
visited =
    History.next (History.next History.here (History.creates 100 payload (some 7)))
      (History.resolves 200 1 (some 7) open_db (λ id e. e))

Reach-IsRecorded_example : History.IsRecorded ℕ_discrete resolved_db
Reach-IsRecorded_example = Requests.Reach-IsRecorded ℕ_discrete empty_db-IsRecorded visited

abbrev row : Alert ℕ
row = record {
  station_id = 5;
  alert_type = delay;
  message = codes "late";
  created_by = some 7;
  is_resolved = false;
  resolved_at = none;
  available_until = none;
  notify_email = true;
  notify_sms = false;
  acknowledged_at = none;
  acknowledged_by_id = none;
  assigned_to_id = none;
  created_at = 100;
}

abbrev acknowledged_late : AlertDb ℕ
acknowledged_late = (acknowledge_alert ℕ_discrete 300 1 7 none open_db resolved_db).1

acknowledge-resolve_example :
    (r : Alert ℕ) × (lookup ℕ_discrete 1 acknowledged_late.alerts ≡ some r)
    × (r.is_resolved ≡ true)
    × (last : StationAlert) × (acknowledged_late.broadcasts ≡ resolved_db.broadcasts ++ last ∷ [])
    × (last.alert_id ≡ 1)
    × (last.is_resolved ≡ false)
unfolding program
acknowledge-resolve_example =
    Announced.acknowledge-resolve ℕ_discrete 200 300 1 (some 7) 7 none open_db row refl refl refl

-- A server that answers the first message with a transient error.
abbrev server : MailServer
server = record {
  connect = λ n. none;
  sendmail = λ n r. elim n [
    | zero ↦ some (record { kind = smtp (some 451); text = codes "busy" })
    | suc m ↦ none
  ];
}

abbrev settings : SendSettings
settings = record { max_attempts = 3; backoff_floor = 500; backoff_cap = 4000 }

abbrev session : Session
session = record { connects = 0; sends = []; sleeps = []; connected = false }

sent_on_retry :
    (send_alert_emails settings server true (codes "a@b.c" ∷ []) session).0
    ≡ (codes "a@b.c", codes "sent") ∷ []
unfolding program
sent_on_retry = refl

abbrev senders : Jobs.Senders
senders = record {
  send_emails = λ rs. (send_alert_emails settings server true rs session).0;
  send_sms = λ rs. (send_alert_sms settings (λ n r. none) false rs session).0;
  emails_law = Outcomes.send_alert_emails-IsSender settings server true session;
  sms_law = Outcomes.send_alert_sms-IsSender settings (λ n r. none) false session;
}

abbrev started : Jobs.System ℕ
started = record {
  queue = record { jobs = []; next_id = 1; pool = [] };
  db = record { alert_db = open_db; logs = [] };
}

abbrev queued : Jobs.System ℕ
queued = record started {
  queue = enqueue_and_submit true alert_created 1 (some 7) true false started.queue;
}

-- The process ends after the e-mails are logged, and the job is run again.
abbrev cut_off : Jobs.System ℕ
cut_off = run_job ℕ_discrete 400 1 0 senders between_logs queued

abbrev rerun : Jobs.System ℕ
rerun = run_job ℕ_discrete 500 1 0 senders nowhere cut_off

sent_once : count_sent 1 email (codes "a@b.c") rerun.db.logs ≡ 1
unfolding program
sent_once = refl

rerun-Reach : Jobs.Reach ℕ_discrete started rerun
rerun-Reach =
    Jobs.next
      (Jobs.next (Jobs.next Jobs.here (Jobs.enqueues true alert_created 1 (some 7) true false))
        (Jobs.runs 400 1 0 senders between_logs))
      (Jobs.runs 500 1 0 senders nowhere)

Reach-IsSentOnce_example : Once.IsSentOnce rerun.db.logs
Reach-IsSentOnce_example =
    Jobs.Reach-IsSentOnce ℕ_discrete (λ job channel r. omega arith) rerun-Reach
