-- ===== src/Alerts/Dispatch/Count.antt =====
-- How often a recipient is logged as sent for a job.
use metroflow_ai_backend.Common.{
  ℕ, ◌+◌, ◌≤◌, ◌≡◌, refl, true, false, ◌&&◌, Option, none, some, List, [], ◌∷◌, ◌++◌, map,
  if◌then◌else◌, ite, Bool-cases, Text, Text-discrete, arith,
}
use metroflow_ai_backend.Common.Dict.{Dict, lookup, HasDistinct}
use metroflow_ai_backend.Geo.{is_in}
use metroflow_ai_backend.Alerts.Dispatch.{
  NotificationChannel, NotificationChannel-discrete, NotificationLog, is_job, is_sent_for,
  already_sent_recipients, log_of, without,
}

-- The rows of a recipient that are sent for a job over a channel.
abbrev pub count_sent : ℕ → NotificationChannel → Text → List NotificationLog → ℕ
count_sent job channel r [] = 0
count_sent job channel r (log ∷ logs) =
    count_sent job channel r logs
    + (if is_sent_for job channel log && ite (Text-discrete log.recipient r) true false
        then 1
        else 0)

pub count_sent-append :
    (job : ℕ) (channel : NotificationChannel) (r : Text) (logs more : List NotificationLog)
    → count_sent job channel r (logs ++ more)
      ≡ count_sent job channel r logs + count_sent job channel r more
count_sent-append job channel r [] more = omega arith
count_sent-append job channel r (log ∷ logs) more =
    omega (arith, count_sent-append job channel r logs more)

-- A recipient that is not among those sent has no row.
pub not_sent_before :
    (job : ℕ) (channel : NotificationChannel) (r : Text) (logs : List NotificationLog)
    → is_in r (already_sent_recipients (some job) channel logs) ≡ false
    → count_sent job channel r logs ≡ 0
not_sent_before job channel r [] h = refl
not_sent_before job channel r (log ∷ logs) h = ground (arith, h, not_sent_before job channel r logs)

-- The rows of other jobs or channels.
pub other_rows :
    (now alert : ℕ) (channel c : NotificationChannel) (job : Option ℕ) (j : ℕ) (r : Text)
    (results : Dict Text Text)
    → (is_job job j && ite (NotificationChannel-discrete channel c) true false) ≡ false
    → count_sent j c r (map (log_of now alert channel job) results) ≡ 0
other_rows now alert channel c job j r [] h = refl
other_rows now alert channel c job j r (e ∷ results) h =
    ground (arith, h, other_rows now alert channel c job j r results h)

-- The rows of the results: none for who is not among them, and one at most.
pub rows_absent :
    (now alert : ℕ) (channel c : NotificationChannel) (job : Option ℕ) (j : ℕ) (r : Text)
    (results : Dict Text Text)
    → lookup Text-discrete r results ≡ none
    → count_sent j c r (map (log_of now alert channel job) results) ≡ 0
unfolding lookup
rows_absent now alert channel c job j r [] h = refl
rows_absent now alert channel c job j r ((q, v) ∷ results) h =
    ground (arith, h, rows_absent now alert channel c job j r results)

pub rows_bound :
    (now alert : ℕ) (channel c : NotificationChannel) (job : Option ℕ) (j : ℕ) (r : Text)
    (results : Dict Text Text)
    → HasDistinct Text-discrete results
    → count_sent j c r (map (log_of now alert channel job) results) ≤ 1
unfolding lookup
rows_bound now alert channel c job j r [] h = omega arith
rows_bound now alert channel c job j r ((q, v) ∷ results) h = elim (Text-discrete q r) [
  | yes e ↦ ground (
    arith,
    rows_absent now alert channel c job j r results (rw (← e) h.0),
    Bool-cases (is_sent_for j c (log_of now alert channel job (q, v))),
  )
  | no ne ↦ ground (
    arith,
    ne,
    rows_bound now alert channel c job j r results h.1,
    Bool-cases (is_sent_for j c (log_of now alert channel job (q, v))),
  )
]

pub in_without :
    (r : Text) (taken texts : List Text)
    → is_in r (without taken texts) ≡ true
    → is_in r taken ≡ false
in_without r taken [] h = absurd (ground (arith, h))
in_without r taken (t ∷ ts) h = ground (arith, h, in_without r taken ts)
