-- ===== src/Notifications/Queue.antt =====
-- app/services/notification_dispatch_queue.py and app/core/notification_executor.py: the jobs that
-- send an alert's notifications, in a table, and the pool of the process that runs them. The pool is
-- lost when the process restarts.
pub mod Attempts
pub mod Recovery
use metroflow_ai_backend.Common.{
  ℕ, ◌+◌, Bool, true, false, ◌&&◌, not, Option, none, some, List, [], ◌∷◌, ◌++◌, map, ltb, leb,
  if◌then◌else◌, ite, select, remove, ℕ_discrete,
}
use metroflow_ai_backend.Common.Dict.{Dict, keys, lookup, insert}

pub data NotificationDispatchKind : Type 0 where
  alert_created alert_resolved : NotificationDispatchKind

pub data NotificationDispatchStatus : Type 0 where
  queued in_progress done failed : NotificationDispatchStatus

-- Why a job failed: the text of an exception, or too many attempts.
pub data LastError (Text : Type 0) : Type 0 where
  raised : Text → LastError Text
  exceeded_attempts : LastError Text

-- A row of `notification_dispatch_jobs`, but for its id.
pub record NotificationDispatchJob (Text : Type 0) : Type 0 where
  pub kind : NotificationDispatchKind
  pub alert_id : ℕ
  pub actor_id : Option Text
  pub notify_email : Bool
  pub notify_sms : Bool
  pub status : NotificationDispatchStatus
  pub attempts : ℕ
  pub last_error : Option (LastError Text)
  pub completed_at : Option ℕ

-- The table by id, the next id, and the ids that the pool of the process still has to run.
pub record Queue (Text : Type 0) : Type 0 where
  pub jobs : Dict ℕ (NotificationDispatchJob Text)
  pub next_id : ℕ
  pub pool : List ℕ

abbrev pub is_done : NotificationDispatchStatus → Bool
is_done s = elim s [ queued ↦ false | in_progress ↦ false | done ↦ true | failed ↦ false ]

module _ {Text : Type 0} where
  -- `status.in_([QUEUED, IN_PROGRESS])`
  abbrev pub is_pending : NotificationDispatchJob Text → Bool
  is_pending job = elim job.status [
    | queued ↦ true
    | in_progress ↦ true
    | done ↦ false
    | failed ↦ false
  ]

  -- `notification_executor.submit`, which drops the job where the executor is shut down.
  abbrev pub submit : Bool → ℕ → Queue Text → Queue Text
  submit accepts id q = if accepts then record q { pool = q.pool ++ id ∷ [] } else q

  abbrev pub new_job :
      NotificationDispatchKind → ℕ → Option Text → Bool → Bool → NotificationDispatchJob Text
  new_job kind alert_id actor_id notify_email notify_sms = record {
    kind = kind;
    alert_id = alert_id;
    actor_id = actor_id;
    notify_email = notify_email;
    notify_sms = notify_sms;
    status = queued;
    attempts = 0;
    last_error = none;
    completed_at = none;
  }

  -- The job that a worker has begun.
  abbrev pub begun : NotificationDispatchJob Text → NotificationDispatchJob Text
  begun job = record job { status = in_progress; attempts = job.attempts + 1 }

  -- `enqueue_and_submit`
  unfoldable pub enqueue_and_submit :
      Bool → NotificationDispatchKind → ℕ → Option Text → Bool → Bool → Queue Text → Queue Text
  enqueue_and_submit accepts kind alert_id actor_id notify_email notify_sms q =
      submit accepts q.next_id (record q {
        jobs =
            insert ℕ_discrete q.next_id (new_job kind alert_id actor_id notify_email notify_sms)
              q.jobs;
        next_id = q.next_id + 1;
      })

  -- `_mark`, to a status that ends a job, or not.
  abbrev pub marked :
      ℕ
      → NotificationDispatchStatus
      → Option (LastError Text)
      → NotificationDispatchJob Text
      → NotificationDispatchJob Text
  marked now s error job = record job {
    status = s;
    last_error = error;
    completed_at = elim s [
      | queued ↦ job.completed_at
      | in_progress ↦ job.completed_at
      | done ↦ some now
      | failed ↦ some now
    ];
  }

  unfoldable pub mark :
      ℕ → ℕ → NotificationDispatchStatus → Option (LastError Text) → Queue Text → Queue Text
  mark now id s error q = elim (lookup ℕ_discrete id q.jobs) [
    | none ↦ q
    | some job ↦ record q { jobs = insert ℕ_discrete id (marked now s error job) q.jobs }
  ]

  -- The first half of `run_job`, up to its commit: the job to dispatch, if any. A worker has taken
  -- the id from the pool.
  unfoldable pub begin_job : ℕ → Queue Text → Option (NotificationDispatchJob Text) × Queue Text
  begin_job id q =
      let taken = record q { pool = remove ℕ_discrete id q.pool } in
      elim (lookup ℕ_discrete id q.jobs) [
        | none ↦ (none, taken)
        | some job ↦
            if is_done job.status
            then (none, taken)
            else (some (begun job), record taken { jobs = insert ℕ_discrete id (begun job) q.jobs })
      ]

  -- The second half of `run_job`, with the exception of the dispatch, if any.
  unfoldable pub end_job : ℕ → ℕ → Option Text → Queue Text → Queue Text
  unfolding mark
  end_job now id (some exc) q = mark now id failed (some (raised exc)) q
  end_job now id none q = mark now id done none q

  -- What `recover_pending_jobs` does to a job.
  abbrev pub give_up : ℕ → ℕ → NotificationDispatchJob Text → NotificationDispatchJob Text
  give_up now max job =
      if is_pending job && leb max job.attempts
      then record job {
        status = failed;
        last_error = some exceeded_attempts;
        completed_at = some now;
      }
      else job

  abbrev pub is_resumable : ℕ → NotificationDispatchJob Text → Bool
  is_resumable max job = is_pending job && not (leb max job.attempts)

  -- `recover_pending_jobs`, where a process starts with an empty pool.
  unfoldable pub recover_pending_jobs : ℕ → ℕ → Queue Text → Queue Text
  recover_pending_jobs now max q = record q {
    jobs = map (λ e. (e.0, give_up now max e.1)) q.jobs;
    pool = q.pool ++ keys (select (λ e. is_resumable max e.1) q.jobs);
  }

  -- The end of the process: what its pool had is lost.
  abbrev pub crash : Queue Text → Queue Text
  crash q = record q { pool = [] }
