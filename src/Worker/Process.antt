-- ===== src/Worker/Process.antt =====
-- src/worker/bgworker.c: the life of the worker's process and its stored process id, with the flush
-- requests of other processes in between. PschBgworkerMain registers PschBgworkerShutdown and then
-- stores the id; PschBgworkerShutdown stores 0 and then tears the exporter down; PschSignalFlush reads
-- the id, calls `kill`, and may clear the id.
--
-- A process that ends without its exit callbacks is a crash. That the system gives a new process no
-- id that a request has just found dead is a premise of `launch`.
pub mod Laws
use pg_stat_ch_otel_backend.Base.{ℕ, ◌^◌, ◌<◌, ◌≡◌, ◌≢◌, Option, none, some, ◌==◌, if◌then◌else◌}
use pg_stat_ch_otel_backend.Ring.{Shared}
use pg_stat_ch_otel_backend.Stats.{get_bgworker_pid, set_bgworker_pid}
use pg_stat_ch_otel_backend.Worker.{clear_stale}

-- Where the worker's process is: before PschSetBgworkerPid(MyProcPid), in the loop, or between the
-- two calls of PschBgworkerShutdown.
pub data Life : Type 0 where
  gone : Life
  starting running leaving : ℕ → Life

-- Where a backend is in PschSignalFlush: not in it, before `kill`, or after ESRCH.
pub data Request : Type 0 where
  quiet : Request
  asking missing : ℕ → Request

pub record Scene (T : Type 0) : Type 0 where
  pub life : Life
  pub shared : Shared T
  pub backends : ℕ → Request

-- The process id of the worker's process, if there is one.
abbrev pub process_id : Life → Option ℕ
process_id gone = none
process_id (starting pid) = some pid
process_id (running pid) = some pid
process_id (leaving pid) = some pid

abbrev pub set : {A : Type 0} → (ℕ → A) → ℕ → A → ℕ → A
set f i a j = if j == i then a else f j

-- One step of one process.
pub data Step {T : Type 0} : Scene T → Scene T → Type 0 where
  launch :
      (s : Shared T) (bs : ℕ → Request) (pid : ℕ)
      → pid < 2 ^ 32
      → ((b : ℕ) → bs b ≢ missing pid)
      → Step
          (record { life = gone; shared = s; backends = bs })
          (record { life = starting pid; shared = s; backends = bs })
  publish :
      (s s' : Shared T) (bs : ℕ → Request) (pid : ℕ)
      → set_bgworker_pid pid (some s) ≡ some s'
      → Step
          (record { life = starting pid; shared = s; backends = bs })
          (record { life = running pid; shared = s'; backends = bs })
  shutdown :
      (life : Life) (s s' : Shared T) (bs : ℕ → Request) (pid : ℕ)
      → process_id life ≡ some pid
      → set_bgworker_pid 0 (some s) ≡ some s'
      → Step
          (record { life = life; shared = s; backends = bs })
          (record { life = leaving pid; shared = s'; backends = bs })
  torn_down :
      (s : Shared T) (bs : ℕ → Request) (pid : ℕ)
      → Step
          (record { life = leaving pid; shared = s; backends = bs })
          (record { life = gone; shared = s; backends = bs })
  crash :
      (life : Life) (s : Shared T) (bs : ℕ → Request)
      → Step
          (record { life = life; shared = s; backends = bs })
          (record { life = gone; shared = s; backends = bs })
  ask :
      (life : Life) (s : Shared T) (bs : ℕ → Request) (b : ℕ)
      → bs b ≡ quiet
      → get_bgworker_pid (some s) ≢ 0
      → Step
          (record { life = life; shared = s; backends = bs })
          (record {
            life = life;
            shared = s;
            backends = set bs b (asking (get_bgworker_pid (some s)));
          })
  answered :
      (life : Life) (s : Shared T) (bs : ℕ → Request) (b pid : ℕ)
      → bs b ≡ asking pid
      → Step
          (record { life = life; shared = s; backends = bs })
          (record { life = life; shared = s; backends = set bs b quiet })
  no_process :
      (life : Life) (s : Shared T) (bs : ℕ → Request) (b pid : ℕ)
      → bs b ≡ asking pid
      → process_id life ≢ some pid
      → Step
          (record { life = life; shared = s; backends = bs })
          (record { life = life; shared = s; backends = set bs b (missing pid) })
  clear :
      (life : Life) (s : Shared T) (bs : ℕ → Request) (b pid : ℕ)
      → bs b ≡ missing pid
      → Step
          (record { life = life; shared = s; backends = bs })
          (record { life = life; shared = clear_stale pid s; backends = set bs b quiet })
  other :
      (life : Life) (s s' : Shared T) (bs : ℕ → Request)
      → get_bgworker_pid (some s') ≡ get_bgworker_pid (some s)
      → Step
          (record { life = life; shared = s; backends = bs })
          (record { life = life; shared = s'; backends = bs })

-- Any number of steps of any processes.
pub data Steps {T : Type 0} : Scene T → Scene T → Type 0 where
  done : (a : Scene T) → Steps a a
  after : (a b c : Scene T) → Step a b → Steps b c → Steps a c
