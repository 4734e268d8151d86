-- ===== src/Election/LocalLock.antt =====
-- app/simulator/local_lock.py: an exclusive `flock` for each name, with the holder that took it.
-- The operating system grants a lock to one open file of the host at a time.
pub mod Exclusion
pub mod Run
use metroflow_ai_backend.Common.{
  ℕ, Bool, true, false, Option, none, some, if◌then◌else◌, ite, ℕ_discrete,
}
use metroflow_ai_backend.Common.Dict.{Dict, lookup, insert, erase}

-- The process id and the file descriptor of an open lock file.
abbrev pub File : Type 0
File = ℕ × ℕ

-- `_held_fds`, and whether `fcntl` can be imported.
pub record Process (Name Holder : Type 0) : Type 0 where
  pub pid : ℕ
  pub flock_available : Bool
  pub held_fds : Dict Name (ℕ × Option Holder)

-- The file that has each lock of the host.
abbrev pub Host : Type 0 → Type 0
Host Name = Name → Option File

-- What the calls of the operating system do: `os.open` gives a descriptor or fails, and `flock`
-- may fail for another reason than that the lock is taken.
pub record Calls : Type 0 where
  pub opened : Option ℕ
  pub flock_fails : Bool

module _ {Name Holder : Type 0} (dec : Discrete Name) (dec_holder : Discrete Holder) where
  abbrev pub put : Name → Option File → Host Name → Host Name
  put name file host j = ite (dec name j) file (host j)

  -- `current_holder == holder_id`, where either may be `None`.
  abbrev pub same_holder : Option Holder → Option Holder → Bool
  same_holder none none = true
  same_holder (some a) (some b) = ite (dec_holder a b) true false
  same_holder _ _ = false

  -- `os.open` and `flock(LOCK_EX | LOCK_NB)`.
  unfoldable pub open_and_lock :
      Calls
      → Name
      → Option Holder
      → Process Name Holder
      → Host Name
      → Bool × Process Name Holder × Host Name
  open_and_lock calls name holder p host = elim calls.opened [
    | none ↦ (false, p, host)
    | some fd ↦ if calls.flock_fails then (false, p, host) else elim (host name) [
      | some _ ↦ (false, p, host)
      | none ↦ (
        true,
        record p { held_fds = insert dec name (fd, holder) p.held_fds },
        put name (some (p.pid, fd)) host,
      )
    ]
  ]

  unfoldable pub try_acquire :
      Calls
      → Name
      → Option Holder
      → Process Name Holder
      → Host Name
      → Bool × Process Name Holder × Host Name
  unfolding open_and_lock
  try_acquire calls name holder p host =
      if p.flock_available
      then (elim (lookup dec name p.held_fds) [
        | none ↦ open_and_lock calls name holder p host
        | some (_, current) ↦
            if same_holder current holder
            then (true, p, host)
            else open_and_lock calls name holder p host
      ])
      else (false, p, host)

  -- `flock(LOCK_UN)` and `close` on a descriptor of this process.
  abbrev pub unlock : Name → File → Host Name → Host Name
  unlock name file host = elim (host name) [
    | none ↦ host
    | some (pid, fd) ↦
        ite (ℕ_discrete pid file.0) (ite (ℕ_discrete fd file.1) (put name none host) host) host
  ]

  unfoldable pub release :
      Name → Option Holder → Process Name Holder → Host Name → Process Name Holder × Host Name
  release name holder p host = elim (lookup dec name p.held_fds) [
    | none ↦ (p, host)
    | some (fd, current) ↦
        if same_holder current holder
        then (record p { held_fds = erase dec name p.held_fds }, unlock name (p.pid, fd) host)
        else (p, host)
  ]

  unfoldable pub is_held : Name → Option Holder → Process Name Holder → Bool
  is_held name holder p = elim (lookup dec name p.held_fds) [
    | none ↦ false
    | some (_, current) ↦ elim holder [ none ↦ true | some h ↦ same_holder current (some h) ]
  ]
