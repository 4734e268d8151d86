-- ===== src/Election/LocalLock/Run.antt =====
-- Two processes of a host that use the local lock in any order.
use metroflow_ai_backend.Common.{
  ◌≡◌, ◌≢◌, false, ◌&&◌, Option, none, List, [], ◌∷◌, arith, inl, inr, Option-cases,
}
use metroflow_ai_backend.Common.Dict.{lookup}
use metroflow_ai_backend.Election.LocalLock.{
  Process, Host, Calls, open_and_lock, try_acquire, release, is_held,
}
use metroflow_ai_backend.Election.LocalLock.Exclusion.{
  IsValid, try_acquire-IsValid, try_acquire-other, release-IsValid, release-other,
}

-- An operation of one of two processes.
pub data Op (Name Holder : Type 0) : Type 0 where
  acquire_first acquire_second : Calls → Name → Option Holder → Op Name Holder
  release_first release_second : Name → Option Holder → Op Name Holder

abbrev pub Pair : Type 0 → Type 0 → Type 0
Pair Name Holder = Process Name Holder × Process Name Holder × Host Name

module _ {Name Holder : Type 0} (dec : Discrete Name) (dec_holder : Discrete Holder) where
  step : Op Name Holder → Pair Name Holder → Pair Name Holder
  step (acquire_first calls name holder) (p, q, host) =
      let (_, p', host') = try_acquire dec dec_holder calls name holder p host in (p', q, host')
  step (acquire_second calls name holder) (p, q, host) =
      let (_, q', host') = try_acquire dec dec_holder calls name holder q host in (p, q', host')
  step (release_first name holder) (p, q, host) =
      let (p', host') = release dec dec_holder name holder p host in (p', q, host')
  step (release_second name holder) (p, q, host) =
      let (q', host') = release dec dec_holder name holder q host in (p, q', host')

  unfoldable pub run : List (Op Name Holder) → Pair Name Holder → Pair Name Holder
  unfolding step
  run [] s = s
  run (op ∷ ops) s = run ops (step op s)

  pub record AreValid (s : Pair Name Holder) : Type 0 where
    pub first : IsValid dec dec_holder s.0 s.2
    pub second : IsValid dec dec_holder s.1 s.2
    pub apart : s.0.pid ≢ s.1.pid

  pid-try_acquire :
      (calls : Calls) (name : Name) (holder : Option Holder) (p : Process Name Holder)
      (host : Host Name)
      → (try_acquire dec dec_holder calls name holder p host).1.pid ≡ p.pid
  unfolding try_acquire open_and_lock
  pid-try_acquire calls name holder p host = ground arith

  pid-release :
      (name : Name) (holder : Option Holder) (p : Process Name Holder) (host : Host Name)
      → (release dec dec_holder name holder p host).0.pid ≡ p.pid
  unfolding release
  pid-release name holder p host = ground arith

  step-AreValid : (op : Op Name Holder) (s : Pair Name Holder) → AreValid s → AreValid (step op s)
  unfolding step
  step-AreValid (acquire_first calls name holder) (p, q, host) h = record {
    first = try_acquire-IsValid dec dec_holder calls name holder p host h.first;
    second = try_acquire-other dec dec_holder calls name holder p q host h.second;
    apart = rw (pid-try_acquire calls name holder p host) h.apart;
  }
  step-AreValid (acquire_second calls name holder) (p, q, host) h = record {
    first = try_acquire-other dec dec_holder calls name holder q p host h.first;
    second = try_acquire-IsValid dec dec_holder calls name holder q host h.second;
    apart = rw (pid-try_acquire calls name holder q host) h.apart;
  }
  step-AreValid (release_first name holder) (p, q, host) h = record {
    first = release-IsValid dec dec_holder name holder p host h.first;
    second = release-other dec dec_holder name holder p q host h.apart h.second;
    apart = rw (pid-release name holder p host) h.apart;
  }
  step-AreValid (release_second name holder) (p, q, host) h = record {
    first = release-other dec dec_holder name holder q p host (λ e. h.apart (cc)) h.first;
    second = release-IsValid dec dec_holder name holder q host h.second;
    apart = rw (pid-release name holder q host) h.apart;
  }

  run-AreValid :
      (ops : List (Op Name Holder)) (s : Pair Name Holder) → AreValid s → AreValid (run ops s)
  unfolding run
  run-AreValid [] s h = h
  run-AreValid (op ∷ ops) s h = run-AreValid ops (step op s) (step-AreValid op s h)

  not_both :
      (name : Name) (s : Pair Name Holder)
      → AreValid s
      → (is_held dec dec_holder name none s.0 && is_held dec dec_holder name none s.1) ≡ false
  unfolding is_held
  not_both name (p, q, host) h = elim (Option-cases (lookup dec name p.held_fds)) [
    | inl absent ↦ ground arith
    | inr ((fd, holder), first) ↦ elim (Option-cases (lookup dec name q.held_fds)) [
      | inl absent ↦ ground arith
      | inr ((fd', holder'), second) ↦ absurd (
          ground (
            arith,
            h.apart,
            h.first.held name fd holder first,
            h.second.held name fd' holder' second,
          ))
    ]
  ]

  -- Two different processes that start with only what the host has given them never both hold a
  -- lock of the same name, after any sequence of acquisitions and releases by either, for any
  -- holders, and with any failures to open or to lock the file.
  pub run_excludes :
      (ops : List (Op Name Holder)) (name : Name) (s : Pair Name Holder)
      → AreValid s
      → let (p, q, _) = run ops s in
        (is_held dec dec_holder name none p && is_held dec dec_holder name none q) ≡ false
  run_excludes ops name s h = not_both name (run ops s) (run-AreValid ops s h)
