-- ===== src/Notifications/Tests.antt =====
-- Runs of the dispatch queue at concrete inputs.
use metroflow_ai_backend.Common.{ℕ, ◌≡◌, refl, true, false, none, some, [], ◌∷◌, arith, ℕ_discrete}
use metroflow_ai_backend.Common.Dict.{lookup, insert}
use metroflow_ai_backend.Notifications.Queue.{
  Queue, alert_created, failed, exceeded_attempts, new_job, enqueue_and_submit, begin_job, mark,
  end_job, recover_pending_jobs, crash, begun,
}
use metroflow_ai_backend.Notifications.Queue.Attempts
use metroflow_ai_backend.Notifications.Queue.Recovery

program : Unit {0}
unfolding lookup insert enqueue_and_submit begin_job mark end_job recover_pending_jobs ℕ_discrete
program = tt

abbrev empty : Queue ℕ
empty = record { jobs = []; next_id = 1; pool = [] }

empty-IsBounded : Attempts.IsBounded 5 empty
unfolding program
empty-IsBounded = record {
  distinct = tt;
  tried = λ id job e. cc (e);
  unused = λ id le. refl;
  fresh = λ id le. refl;
}

-- A job is begun, and the process restarts before it ends.
abbrev submitted : Queue ℕ
submitted = enqueue_and_submit true alert_created 40 none true false empty

abbrev running : Queue ℕ
running = (begin_job 1 submitted).1

abbrev restarted : Queue ℕ
restarted = recover_pending_jobs 900 5 (crash running)

resumed : restarted.pool ≡ 1 ∷ []
unfolding program
resumed = refl

visited : Attempts.Reach 5 empty restarted
unfolding program
visited =
    Attempts.next
      (Attempts.next
        (Attempts.next Attempts.here (Attempts.enqueues true alert_created 40 none true false refl))
        (Attempts.begins 1 (omega arith) refl))
      (Attempts.restarts 900 refl)

Reach-IsBounded_example : Attempts.IsBounded 5 restarted
Reach-IsBounded_example = Recovery.Reach-IsBounded 5 (omega arith) empty-IsBounded visited

-- A restart while the job is in progress, with one try allowed.
recover_leaves_none_example :
    (Attempts.count 1 (recover_pending_jobs 900 1 (crash running)).pool ≡ 0)
    × (lookup ℕ_discrete 1 (recover_pending_jobs 900 1 (crash running)).jobs
        ≡ some (record (begun (new_job alert_created 40 none true false)) {
          status = failed;
          last_error = some exceeded_attempts;
          completed_at = some 900;
        }))
unfolding program
recover_leaves_none_example =
    Recovery.recover_leaves_none 1 900 1 (begun (new_job alert_created 40 none true false)) running
      (refl, tt) refl
