-- ===== src/Notifications/Queue/Attempts.antt =====
-- How often a job is tried, over restarts of its process.
use metroflow_ai_backend.Common.{
  ℕ, ◌+◌, ◌-◌, ◌≤◌, ◌≡◌, refl, Bool, Option, none, some, List, [], ◌∷◌, ◌++◌, map, if◌then◌else◌,
  ite, arith, Option-cases, Bool-cases, inl, inr, ℕ_discrete, select, remove,
}
use metroflow_ai_backend.Common.Dict.{
  Dict, keys, lookup, lookup-insert, HasDistinct, insert-HasDistinct,
}
use metroflow_ai_backend.Notifications.Queue.{
  NotificationDispatchKind, NotificationDispatchStatus, LastError, new_job, begun,
  NotificationDispatchJob, Queue, is_done, enqueue_and_submit, marked, mark, begin_job, end_job,
  give_up, is_resumable, recover_pending_jobs, crash,
}

-- How often an id stands in a list.
abbrev pub count : ℕ → List ℕ → ℕ
count id [] = 0
count id (x ∷ xs) = ite (ℕ_discrete x id) 1 0 + count id xs

count-append_one :
    (id x : ℕ) (xs : List ℕ) → count id (xs ++ x ∷ []) ≡ count id xs + ite (ℕ_discrete x id) 1 0
count-append_one id x [] = ground arith
count-append_one id x (y ∷ xs) = omega (arith, count-append_one id x xs)

count-remove :
    (id x : ℕ) (xs : List ℕ)
    → count id (remove ℕ_discrete x xs) ≡ count id xs - ite (ℕ_discrete x id) 1 0
count-remove id x [] = ground arith
count-remove id x (y ∷ xs) = ground (arith, count-remove id x xs)

module _ {V : Type 0} where
  pub lookup-map :
      (id : ℕ) (f : V → V) (d : Dict ℕ V)
      → lookup ℕ_discrete id (map (λ e. (e.0, f e.1)) d)
        ≡ elim (lookup ℕ_discrete id d) [ none ↦ none | some v ↦ some (f v) ]
  unfolding lookup
  lookup-map id f [] = refl
  lookup-map id f ((j, v) ∷ d) = ground (arith, lookup-map id f d)

  map-HasDistinct :
      (f : V → V) (d : Dict ℕ V)
      → HasDistinct ℕ_discrete d
      → HasDistinct ℕ_discrete (map (λ e. (e.0, f e.1)) d)
  map-HasDistinct f [] h = tt
  map-HasDistinct f ((j, v) ∷ d) h = ground (arith, h.0, lookup-map j f d, map-HasDistinct f d h.1)

  count_absent :
      (id : ℕ) (p : V → Bool) (d : Dict ℕ V)
      → lookup ℕ_discrete id d ≡ none
      → count id (keys (select (λ e. p e.1) d)) ≡ 0
  unfolding lookup
  count_absent id p [] h = refl
  count_absent id p ((j, v) ∷ d) h = ground (arith, h, count_absent id p d)

  pub count-select :
      (id : ℕ) (p : V → Bool) (d : Dict ℕ V)
      → HasDistinct ℕ_discrete d
      → count id (keys (select (λ e. p e.1) d))
        ≡ elim (lookup ℕ_discrete id d) [ none ↦ 0 | some v ↦ if p v then 1 else 0 ]
  unfolding lookup
  count-select id p [] h = refl
  count-select id p ((j, v) ∷ d) h =
      ground (arith, h.0, count-select id p d h.1, count_absent id p d)

module _ {Text : Type 0} (max : ℕ) where
  -- A job has been tried no more often than allowed, what the pool is still to try included; and
  -- neither the table nor the pool has an id that is not given out yet.
  pub record IsBounded (q : Queue Text) : Type 0 where
    pub distinct : HasDistinct ℕ_discrete q.jobs
    pub tried :
        (id : ℕ) (job : NotificationDispatchJob Text)
        → lookup ℕ_discrete id q.jobs ≡ some job
        → job.attempts + count id q.pool ≤ max
    pub unused : (id : ℕ) → q.next_id ≤ id → lookup ℕ_discrete id q.jobs ≡ none
    pub fresh : (id : ℕ) → q.next_id ≤ id → count id q.pool ≡ 0

  -- The steps of the process and of its workers. A restart empties the pool and recovers the jobs.
  pub data Step (q q' : Queue Text) : Type 0 where
    enqueues :
        (accepts : Bool) (kind : NotificationDispatchKind) (alert_id : ℕ) (actor_id : Option Text)
        (notify_email notify_sms : Bool)
        → q' ≡ enqueue_and_submit accepts kind alert_id actor_id notify_email notify_sms q
        → Step q q'
    begins : (id : ℕ) → 1 ≤ count id q.pool → q' ≡ (begin_job id q).1 → Step q q'
    ends : (now id : ℕ) (exc : Option Text) → q' ≡ end_job now id exc q → Step q q'
    restarts : (now : ℕ) → q' ≡ recover_pending_jobs now max (crash q) → Step q q'

  pub data Reach (q : Queue Text) : Queue Text → Type 0 where
    here : Reach q q
    next : {q' q'' : Queue Text} → Reach q q' → Step q' q'' → Reach q q''

  pub enqueue-IsBounded :
      (accepts : Bool) (kind : NotificationDispatchKind) (alert_id : ℕ) (actor_id : Option Text)
      (notify_email notify_sms : Bool) (q : Queue Text)
      → 1 ≤ max
      → IsBounded q
      → IsBounded (enqueue_and_submit accepts kind alert_id actor_id notify_email notify_sms q)
  unfolding enqueue_and_submit
  enqueue-IsBounded accepts kind alert_id actor_id notify_email notify_sms q some_try h =
      let job = new_job kind alert_id actor_id notify_email notify_sms in
      record {
        distinct = ground (arith, insert-HasDistinct ℕ_discrete q.next_id job q.jobs h.distinct);
        tried = λ id k e. ground (
          arith,
          e,
          some_try,
          h.tried id k,
          h.fresh id,
          lookup-insert ℕ_discrete q.next_id id job q.jobs,
          count-append_one id q.next_id q.pool,
        );
        unused =
            λ id le. ground (arith, h.unused id, lookup-insert ℕ_discrete q.next_id id job q.jobs);
        fresh = λ id le. ground (arith, h.fresh id, count-append_one id q.next_id q.pool);
      }

  pub mark-IsBounded :
      (now id : ℕ) (s : NotificationDispatchStatus) (error : Option (LastError Text))
      (q : Queue Text)
      → IsBounded q
      → IsBounded (mark now id s error q)
  unfolding mark
  mark-IsBounded now id s error q h = elim (Option-cases (lookup ℕ_discrete id q.jobs)) [
    | inl missing ↦ rw (missing, mark) h
    | inr (job, found) ↦
        rw (found, mark)
          (record {
            distinct = insert-HasDistinct ℕ_discrete id (marked now s error job) q.jobs h.distinct;
            tried = λ other k e. ground (
              arith,
              e,
              found,
              h.tried other k,
              h.tried id job found,
              lookup-insert ℕ_discrete id other (marked now s error job) q.jobs,
            );
            unused = λ other le. ground (
              arith,
              found,
              h.unused other,
              lookup-insert ℕ_discrete id other (marked now s error job) q.jobs,
            );
            fresh = h.fresh;
          })
  ]

  taken :
      (id : ℕ) (q : Queue Text)
      → IsBounded q
      → IsBounded (record q { pool = remove ℕ_discrete id q.pool })
  taken id q h = record {
    distinct = h.distinct;
    tried = λ other k e. omega (arith, h.tried other k e, count-remove other id q.pool);
    unused = h.unused;
    fresh = λ other le. omega (arith, h.fresh other le, count-remove other id q.pool);
  }

  pub begin-IsBounded :
      (id : ℕ) (q : Queue Text) → 1 ≤ count id q.pool → IsBounded q → IsBounded (begin_job id q).1
  unfolding begin_job
  begin-IsBounded id q waiting h = elim (Option-cases (lookup ℕ_discrete id q.jobs)) [
    | inl missing ↦ rw (missing, begin_job) (taken id q h)
    | inr (job, found) ↦ elim (Bool-cases (is_done job.status)) [
      | inl over ↦ rw (found, begin_job, over) (taken id q h)
      | inr open_job ↦
          rw (found, begin_job, open_job)
            (record {
              distinct = insert-HasDistinct ℕ_discrete id (begun job) q.jobs h.distinct;
              tried = λ other k e. ground (
                arith,
                e,
                waiting,
                h.tried other k,
                h.tried id job found,
                count-remove other id q.pool,
                lookup-insert ℕ_discrete id other (begun job) q.jobs,
              );
              unused = λ other le. ground (
                arith,
                found,
                h.unused other,
                lookup-insert ℕ_discrete id other (begun job) q.jobs,
              );
              fresh = λ other le. ground (arith, h.fresh other, count-remove other id q.pool);
            })
    ]
  ]

  recovered_tried :
      (now : ℕ) (q : Queue Text) (id : ℕ) (job : NotificationDispatchJob Text)
      → IsBounded q
      → lookup ℕ_discrete id (map (λ e. (e.0, give_up now max e.1)) q.jobs) ≡ some job
      → job.attempts + count id (keys (select (λ e. is_resumable max e.1) q.jobs)) ≤ max
  recovered_tried now q id job h e = elim (Option-cases (lookup ℕ_discrete id q.jobs)) [
    | inl missing ↦ ground (arith, e, missing, lookup-map id (give_up now max) q.jobs)
    | inr (old, found) ↦ ground (
      arith,
      e,
      found,
      h.tried id old found,
      lookup-map id (give_up now max) q.jobs,
      count-select id (is_resumable max) q.jobs h.distinct,
    )
  ]

  pub recover-IsBounded :
      (now : ℕ) (q : Queue Text) → IsBounded q → IsBounded (recover_pending_jobs now max (crash q))
  unfolding recover_pending_jobs
  recover-IsBounded now q h = record {
    distinct = map-HasDistinct (give_up now max) q.jobs h.distinct;
    tried = λ id job e. recovered_tried now q id job h e;
    unused = λ id le. ground (arith, lookup-map id (give_up now max) q.jobs, h.unused id le);
    fresh = λ id le. count_absent id (is_resumable max) q.jobs (h.unused id le);
  }
