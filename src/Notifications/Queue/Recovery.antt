-- ===== src/Notifications/Queue/Recovery.antt =====
-- Histories of the queue, and what a restart recovers.
use metroflow_ai_backend.Common.{
  ℕ, ◌≤◌, ◌≡◌, Option, none, some, if◌then◌else◌, arith, Option-cases, Bool-cases, inl, inr,
  ℕ_discrete, not, ltb, ◌&&◌,
}
use metroflow_ai_backend.Common.Dict.{lookup, HasDistinct}
use metroflow_ai_backend.Notifications.Queue.{
  failed, done, raised, exceeded_attempts, NotificationDispatchJob, Queue, is_pending, end_job,
  give_up, is_resumable, recover_pending_jobs, crash,
}
use metroflow_ai_backend.Notifications.Queue.Attempts.{
  count, lookup-map, count-select, IsBounded, Step, enqueues, begins, ends, restarts, Reach, here,
  next, enqueue-IsBounded, mark-IsBounded, begin-IsBounded, recover-IsBounded,
}

module _ {Text : Type 0} (max : ℕ) where
  end-IsBounded :
      (now id : ℕ) (exc : Option Text) (q : Queue Text)
      → IsBounded max q
      → IsBounded max (end_job now id exc q)
  unfolding end_job
  end-IsBounded now id none q h = mark-IsBounded max now id done none q h
  end-IsBounded now id (some exc) q h = mark-IsBounded max now id failed (some (raised exc)) q h

  Step-IsBounded :
      (q q' : Queue Text) → 1 ≤ max → Step max q q' → IsBounded max q → IsBounded max q'
  Step-IsBounded q q' some_try (enqueues accepts kind alert_id actor_id notify_email notify_sms e)
        h =
      rw e
        (enqueue-IsBounded max accepts kind alert_id actor_id notify_email notify_sms q some_try h)
  Step-IsBounded q q' some_try (begins id waiting e) h = rw e (begin-IsBounded max id q waiting h)
  Step-IsBounded q q' some_try (ends now id exc e) h = rw e (end-IsBounded now id exc q h)
  Step-IsBounded q q' some_try (restarts now e) h = rw e (recover-IsBounded max now q h)

  -- Where at least one attempt is allowed: after any sequence of new jobs, of jobs begun from the
  -- pool and ended with or without an exception, and of restarts at any point, no job has been tried
  -- more often than allowed, the tries that still wait in the pool included.
  pub Reach-IsBounded :
      {q q' : Queue Text} → 1 ≤ max → IsBounded max q → Reach max q q' → IsBounded max q'
  Reach-IsBounded some_try h here = h
  Reach-IsBounded some_try h (next {q'} {q''} r s) =
      Step-IsBounded q' q'' some_try s (Reach-IsBounded some_try h r)

  -- Of the jobs after a recovery, exactly those that are queued or in progress stand in the pool.
  recovered_pool :
      (now id : ℕ) (job : NotificationDispatchJob Text) (q : Queue Text)
      → HasDistinct ℕ_discrete q.jobs
      → lookup ℕ_discrete id (recover_pending_jobs now max (crash q)).jobs ≡ some job
      → count id (recover_pending_jobs now max (crash q)).pool ≡ (if is_pending job then 1 else 0)
  unfolding recover_pending_jobs
  recovered_pool now id job q h e = elim (Option-cases (lookup ℕ_discrete id q.jobs)) [
    | inl missing ↦ ground (arith, e, missing, lookup-map id (give_up now max) q.jobs)
    | inr (old, found) ↦ ground (
      arith,
      e,
      found,
      lookup-map id (give_up now max) q.jobs,
      count-select id (is_resumable max) q.jobs h,
    )
  ]

  -- A restart leaves no job behind and takes none twice: a job that was queued or in progress
  -- before it and has tries left is in the pool once and as it was, one without tries left has
  -- failed at the time of the restart, and every other job is as it was; neither of these is in
  -- the pool. The ids of the jobs are distinct.
  pub recover_leaves_none :
      (now id : ℕ) (job : NotificationDispatchJob Text) (q : Queue Text)
      → HasDistinct ℕ_discrete q.jobs
      → lookup ℕ_discrete id q.jobs ≡ some job
      → let q' = recover_pending_jobs now max (crash q) in
        let resumes = is_pending job && ltb job.attempts max in
        (count id q'.pool ≡ (if resumes then 1 else 0))
        × (lookup ℕ_discrete id q'.jobs
            ≡ some (
                if is_pending job && not resumes
                then record job {
                  status = failed;
                  last_error = some exceeded_attempts;
                  completed_at = some now;
                }
                else job))
  unfolding recover_pending_jobs
  recover_leaves_none now id job q h found = elim (Bool-cases (is_pending job)) [
    | inl pending ↦ (
      ground (arith, found, pending, count-select id (is_resumable max) q.jobs h),
      ground (arith, found, pending, lookup-map id (give_up now max) q.jobs),
    )
    | inr settled ↦ (
      ground (arith, found, settled, count-select id (is_resumable max) q.jobs h),
      ground (arith, found, settled, lookup-map id (give_up now max) q.jobs),
    )
  ]
