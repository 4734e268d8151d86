-- ===== src/Alerts/Dispatch/Once.antt =====
-- A recipient is sent at most once for a job, over all its runs.
use metroflow_ai_backend.Common.{
  ℕ, ◌≤◌, ◌≡◌, refl, Bool, true, false, ◌&&◌, not, Option, none, some, List, [], ◌∷◌, ◌++◌, map,
  ltb, ite, inl, inr, Bool-cases, Option-cases, Text, Text-discrete, arith, ℕ_discrete,
}
use metroflow_ai_backend.Common.Dict.{Dict, lookup, HasDistinct}
use metroflow_ai_backend.Geo.{is_in}
use metroflow_ai_backend.Alerts.{UserProfile}
use metroflow_ai_backend.Alerts.Outcomes.{IsSender}
use metroflow_ai_backend.Alerts.Dispatch.{
  NotificationChannel, NotificationChannel-discrete, email, sms, NotificationLog, LogDb, is_job,
  already_sent_recipients, log_of, all_fit, sent_count, recipients_of, results_of, log_results,
  log_if, write_logs, dispatch, Cut, nowhere, before_logs, between_logs,
}
use metroflow_ai_backend.Alerts.Dispatch.Count.{
  count_sent, count_sent-append, not_sent_before, other_rows, rows_absent, rows_bound, in_without,
}

-- No recipient has two rows as sent for a job over a channel.
abbrev pub IsSentOnce : List NotificationLog → Type 0
IsSentOnce logs =
    (job : ℕ) (channel : NotificationChannel) (r : Text) → count_sent job channel r logs ≤ 1

-- The results name nobody who is logged as sent for the job.
abbrev IsNew :
    NotificationChannel → Option ℕ → Option (Dict Text Text) → List NotificationLog → Type 0
IsNew channel job none logs = Unit
IsNew channel job (some results) logs =
    HasDistinct Text-discrete results
    × ((r : Text)
        → is_in r (already_sent_recipients job channel logs) ≡ true
        → lookup Text-discrete r results ≡ none)

same_job :
    (job : Option ℕ) (j : ℕ) (channel c : NotificationChannel)
    → (is_job job j && ite (NotificationChannel-discrete channel c) true false) ≡ true
    → (job ≡ some j) × (channel ≡ c)
same_job none j channel c h = absurd (ground (arith, h))
same_job (some i) j channel c h = ground (arith, h)

rows-IsSentOnce :
    (now alert : ℕ) (channel : NotificationChannel) (job : Option ℕ) (results : Dict Text Text)
    (logs : List NotificationLog)
    → IsNew channel job (some results) logs
    → IsSentOnce logs
    → IsSentOnce (logs ++ map (log_of now alert channel job) results)
rows-IsSentOnce now alert channel job results logs new once j c r =
    rw (count_sent-append j c r logs (map (log_of now alert channel job) results))
      (elim (Bool-cases (is_job job j && ite (NotificationChannel-discrete channel c) true false)) [
        | inr b ↦ omega (arith, other_rows now alert channel c job j r results b, once j c r)
        | inl b ↦ elim (Bool-cases (is_in r (already_sent_recipients (some j) c logs))) [
          | inl a ↦
              let (own, same) = same_job job j channel c b in
              omega (
                arith,
                once j c r,
                rows_absent now alert channel c job j r results (new.1 r (rw (own, same) a)),
              )
          | inr a ↦ omega (
            arith,
            not_sent_before j c r logs a,
            rows_bound now alert channel c job j r results new.0,
          )
        ]
      ])

-- Rows of e-mails change nothing for the recipients of texts.
sms_already_sent :
    (now alert : ℕ) (job : Option ℕ) (results : Dict Text Text) (logs : List NotificationLog)
    → already_sent_recipients job sms (logs ++ map (log_of now alert email job) results)
      ≡ already_sent_recipients job sms logs
unfolding NotificationChannel-discrete
sms_already_sent now alert none results logs = refl
sms_already_sent now alert (some j) [] [] = refl
sms_already_sent now alert (some j) (e ∷ results) [] =
    ground (arith, sms_already_sent now alert (some j) results [])
sms_already_sent now alert (some j) results (log ∷ logs) =
    ground (arith, sms_already_sent now alert (some j) results logs)

new_lookup :
    (rs : List Text) (send : List Text → Dict Text Text) (r : Text)
    → IsSender send
    → is_in r rs ≡ false
    → lookup Text-discrete r (send rs) ≡ none
new_lookup rs send r s h =
    ground (arith, h, s.outcomes rs r, Option-cases (lookup Text-discrete r (send rs)))

module _ {User : Type 0} (dec : Discrete User) where
  log_results_lem :
      (now alert : ℕ) (channel : NotificationChannel) (results : Dict Text Text)
      (city : Option Text) (job : Option ℕ) (db logged : LogDb User)
      → log_results dec now alert channel results city job db ≡ some logged
      → logged.logs ≡ db.logs ++ map (log_of now alert channel job) results
  unfolding log_results
  log_results_lem now alert channel results city job db logged e = ground (
    arith,
    e,
    Bool-cases (not (all_fit (map (log_of now alert channel job) results))),
    Bool-cases (
        ite (NotificationChannel-discrete channel email)
          (ltb 0 (sent_count (map (log_of now alert channel job) results))) false),
  )

  chosen-IsNew :
      (wanted : Bool) (channel : NotificationChannel) (job : Option ℕ) (rs : List Text)
      (logs : List NotificationLog) (send : List Text → Dict Text Text)
      → IsSender send
      → ((r : Text)
          → is_in r rs ≡ true
          → is_in r (already_sent_recipients job channel logs) ≡ false)
      → IsNew channel job (results_of dec wanted rs send) logs
  chosen-IsNew false channel job rs logs send s h = tt
  chosen-IsNew true channel job [] logs send s h = tt
  chosen-IsNew true channel job (r ∷ rs) logs send s h = (
    s.distinct (r ∷ rs),
    λ q taken. new_lookup (r ∷ rs) send q s (elim (Bool-cases (is_in q (r ∷ rs))) [
      | inl b ↦ absurd (ground (arith, taken, h q b))
      | inr b ↦ b
    ]),
  )

  ap_logs : {db logged : LogDb User} → some db ≡ some logged → db.logs ≡ logged.logs
  ap_logs e = cc (e)

  log_if-IsSentOnce :
      (now alert : ℕ) (channel : NotificationChannel) (results : Option (Dict Text Text))
      (city : Option Text) (job : Option ℕ) (db logged : LogDb User)
      → IsNew channel job results db.logs
      → IsSentOnce db.logs
      → log_if dec now alert channel results city job db ≡ some logged
      → IsSentOnce logged.logs
  unfolding log_results
  log_if-IsSentOnce now alert channel none city job db logged new once e = rw (← ap_logs e) once
  log_if-IsSentOnce now alert channel (some results) city job db logged new once e =
      rw (log_results_lem now alert channel results city job db logged e)
        (rows-IsSentOnce now alert channel job results db.logs new once)

  -- Rows of the other channel change nothing for the second.
  log_if-IsNew :
      (now alert : ℕ) (results later : Option (Dict Text Text)) (city : Option Text)
      (job : Option ℕ) (db logged : LogDb User)
      → IsNew sms job later db.logs
      → log_if dec now alert email results city job db ≡ some logged
      → IsNew sms job later logged.logs
  unfolding log_results
  log_if-IsNew now alert results none city job db logged new e = tt
  log_if-IsNew now alert none (some later) city job db logged new e = rw (← ap_logs e) new
  log_if-IsNew now alert (some results) (some later) city job db logged new e =
      rw
        (
          log_results_lem now alert email results city job db logged e,
          sms_already_sent now alert job results db.logs,
        )
        new

  results-IsNew :
      (field : UserProfile → Option Text) (wanted : Bool) (channel : NotificationChannel)
      (created_by : Option User) (job : Option ℕ) (db : LogDb User)
      (send : List Text → Dict Text Text)
      → IsSender send
      → IsNew channel job
          (results_of dec wanted (recipients_of dec field channel created_by job db) send)
          db.logs
  results-IsNew field wanted channel created_by job db send s =
      chosen-IsNew wanted channel job (recipients_of dec field channel created_by job db) db.logs
        send s (λ r. in_without r (already_sent_recipients job channel db.logs) _)

  write_logs-IsSentOnce :
      (now alert : ℕ) (email_results sms_results : Option (Dict Text Text)) (city : Option Text)
      (job : Option ℕ) (cut : Cut) (db : LogDb User)
      → IsNew email job email_results db.logs
      → IsNew sms job sms_results db.logs
      → IsSentOnce db.logs
      → IsSentOnce (write_logs dec now alert email_results sms_results city job cut db).1.logs
  unfolding write_logs
  write_logs-IsSentOnce now alert es ss city job before_logs db new new' once = once
  write_logs-IsSentOnce now alert es ss city job between_logs db new new' once =
      elim (Option-cases (log_if dec now alert email es city job db)) [
        | inl a ↦ rw (write_logs, a) once
        | inr (logged, a) ↦
            rw (write_logs, a) (log_if-IsSentOnce now alert email es city job db logged new once a)
      ]
  write_logs-IsSentOnce now alert es ss city job nowhere db new new' once =
      elim (Option-cases (log_if dec now alert email es city job db)) [
        | inl a ↦ rw (write_logs, a) once
        | inr (logged, a) ↦
            let first = log_if-IsSentOnce now alert email es city job db logged new once a in
            let new'' = log_if-IsNew now alert es ss city job db logged new' a in
            elim (Option-cases (log_if dec now alert sms ss city job logged)) [
              | inl b ↦ rw (write_logs, a, b) first
              | inr (all, b) ↦
                  rw (write_logs, a, b)
                    (log_if-IsSentOnce now alert sms ss city job logged all new'' first b)
            ]
      ]

  -- A dispatch keeps that nobody is logged as sent twice for a job.
  pub dispatch-IsSentOnce :
      (now id : ℕ) (created_by : Option User) (notify_email notify_sms : Bool) (job : Option ℕ)
      (send_emails send_sms : List Text → Dict Text Text) (cut : Cut) (db : LogDb User)
      → IsSender send_emails
      → IsSender send_sms
      → IsSentOnce db.logs
      → IsSentOnce
          (dispatch dec now id created_by notify_email notify_sms job send_emails send_sms cut
            db).1.logs
  unfolding dispatch
  dispatch-IsSentOnce now id by e m job send_emails send_sms cut db se ss once =
      elim (Bool-cases (not e && not m)) [
        | inl b ↦ rw (dispatch, b) once
        | inr b ↦ elim (Option-cases (lookup ℕ_discrete id db.alert_db.alerts)) [
          | inl a ↦ rw (dispatch, b, a) once
          | inr (alert, a) ↦
              rw (dispatch, b, a)
                (write_logs-IsSentOnce now id _ _ _ job cut db
                  (results-IsNew (λ user. user.email) e email by job db send_emails se)
                  (results-IsNew (λ user. user.phone) m sms by job db send_sms ss) once)
        ]
      ]
