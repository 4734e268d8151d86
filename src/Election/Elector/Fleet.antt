-- ===== src/Election/Elector/Fleet.antt =====
-- Several processes and one Redis server: the processes that could run one background loop.
pub mod Guard
pub mod Single
use metroflow_ai_backend.Common.{ℕ, ◌≤◌, ◌≡◌, Option, ite, ℕ_discrete}
use metroflow_ai_backend.Cache.Redis.{Redis}
use metroflow_ai_backend.Cache.Json.{Env, World}
use metroflow_ai_backend.Election.LocalLock.{Calls, Host}
use metroflow_ai_backend.Election.Elector.{Elector, Node, election_round, stop, on_worker_done}

-- The processes by number, the one Redis server, and the time of the last step.
pub record Fleet (Name Holder Text Server : Type 0) : Type 0 where
  pub clock : ℕ
  pub server : Server
  pub node : ℕ → Node Name Holder Text Server

module _ {Name Holder Text Server : Type 0} where
  -- The process, with the server as it is now.
  abbrev pub at : Fleet Name Holder Text Server → ℕ → Node Name Holder Text Server
  at f i = let n = f.node i in record n { cache = record (n.cache) { server = f.server } }

  -- The fleet after process `i` has become `n` at a time.
  abbrev pub become :
      Fleet Name Holder Text Server
      → ℕ
      → ℕ
      → Node Name Holder Text Server
      → Fleet Name Holder Text Server
  become f i now n = record {
    clock = now;
    server = n.cache.server;
    node = λ j. ite (ℕ_discrete i j) n (f.node j);
  }

module _ {Name Holder Text : Type 0} (dec : Discrete Name) (dec_holder : Discrete Holder)
    (redis : Redis Name Holder) where
  open redis use {Server}

  -- One process makes a round of its election, by the lease or by the local lock, its worker ends,
  -- it is stopped, or other processes of its host change who has the local locks.
  pub data Step (f g : Fleet Name Holder Text Server) : Type 0 where
    round :
        (i : ℕ) (env : Env Text) (calls : Calls)
        → f.clock ≤ env.now
        → g ≡ become f i env.now (election_round dec dec_holder redis env calls (at f i))
        → Step f g
    worker_done :
        (i : ℕ) (error : Option Text)
        → g
          ≡ become f i f.clock
              (let n = at f i in record n { elector = on_worker_done error n.elector })
        → Step f g
    stopped :
        (i : ℕ) (env : Env Text)
        → f.clock ≤ env.now
        → g ≡ become f i env.now (stop dec dec_holder redis env (at f i)).1
        → Step f g
    host_locks :
        (i : ℕ) (host : Host Name)
        → g ≡ become f i f.clock (let n = at f i in record n { host = host })
        → Step f g

  pub data Reach (f : Fleet Name Holder Text Server) : Fleet Name Holder Text Server → Type 0 where
    here : Reach f f
    next : {g h : Fleet Name Holder Text Server} → Reach f g → Step g h → Reach f h
