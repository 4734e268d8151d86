-- ===== src/Election/LocalLock/Exclusion.antt =====
-- Each operation of the local lock keeps what its process, and every other one, has.
use metroflow_ai_backend.Common.{ℕ, ◌≡◌, ◌≢◌, Option, some, arith, inl, inr, Option-cases}
use metroflow_ai_backend.Common.Dict.{
  lookup, lookup-insert, lookup-erase_ne, lookup-erase_self, HasDistinct, insert-HasDistinct,
  erase-HasDistinct,
}
use metroflow_ai_backend.Election.LocalLock.{
  Process, Host, Calls, open_and_lock, try_acquire, release,
}

module _ {Name Holder : Type 0} (dec : Discrete Name) (dec_holder : Discrete Holder) where
  -- What a process believes to hold, the host gave to its open file.
  pub record IsValid (p : Process Name Holder) (host : Host Name) : Type 0 where
    pub distinct : HasDistinct dec p.held_fds
    pub held :
        (name : Name) (fd : ℕ) (holder : Option Holder)
        → lookup dec name p.held_fds ≡ some (fd, holder)
        → host name ≡ some (p.pid, fd)

  open_and_lock-IsValid :
      (calls : Calls) (name : Name) (holder : Option Holder) (p : Process Name Holder)
      (host : Host Name)
      → IsValid p host
      → IsValid
          (open_and_lock dec dec_holder calls name holder p host).1
          (open_and_lock dec dec_holder calls name holder p host).2
  unfolding open_and_lock
  open_and_lock-IsValid calls name holder p host h = elim (Option-cases calls.opened) [
    | inl failed ↦ rw (failed, open_and_lock) h
    | inr (file, opened) ↦ record {
      distinct =
          ground
            (arith, h.distinct, insert-HasDistinct dec name (file, holder) p.held_fds h.distinct);
      held = λ j fd other e.
          ground (arith, h.held j fd other, lookup-insert dec name j (file, holder) p.held_fds);
    }
  ]

  -- Another process sees no change of a lock that it holds.
  open_and_lock-other :
      (calls : Calls) (name : Name) (holder : Option Holder) (p q : Process Name Holder)
      (host : Host Name)
      → IsValid q host
      → IsValid q (open_and_lock dec dec_holder calls name holder p host).2
  unfolding open_and_lock
  open_and_lock-other calls name holder p q host h = record {
    distinct = h.distinct;
    held = λ j fd other e. ground (arith, h.held j fd other e);
  }

  pub release-IsValid :
      (name : Name) (holder : Option Holder) (p : Process Name Holder) (host : Host Name)
      → IsValid p host
      → IsValid
          (release dec dec_holder name holder p host).0
          (release dec dec_holder name holder p host).1
  unfolding release
  release-IsValid name holder p host h = record {
    distinct = ground (arith, h.distinct, erase-HasDistinct dec name p.held_fds h.distinct);
    held = λ j fd other e. ground (
      arith,
      h.held j fd other,
      lookup-erase_self dec name p.held_fds h.distinct,
      lookup-erase_ne dec name j p.held_fds,
    );
  }

  pub release-other :
      (name : Name) (holder : Option Holder) (p q : Process Name Holder) (host : Host Name)
      → p.pid ≢ q.pid
      → IsValid q host
      → IsValid q (release dec dec_holder name holder p host).1
  unfolding release
  release-other name holder p q host ne h = record {
    distinct = h.distinct;
    held = λ j fd other e. ground (arith, h.held j fd other e);
  }

  pub try_acquire-IsValid :
      (calls : Calls) (name : Name) (holder : Option Holder) (p : Process Name Holder)
      (host : Host Name)
      → IsValid p host
      → IsValid
          (try_acquire dec dec_holder calls name holder p host).1
          (try_acquire dec dec_holder calls name holder p host).2
  unfolding try_acquire
  try_acquire-IsValid calls name holder p host h =
      ground (arith, h, open_and_lock-IsValid calls name holder p host h)

  pub try_acquire-other :
      (calls : Calls) (name : Name) (holder : Option Holder) (p q : Process Name Holder)
      (host : Host Name)
      → IsValid q host
      → IsValid q (try_acquire dec dec_holder calls name holder p host).2
  unfolding try_acquire
  try_acquire-other calls name holder p q host h =
      ground (arith, h, open_and_lock-other calls name holder p q host h)
