-- ===== src/ThreadPool.antt =====
-- `ThreadPool` (utils/thread_pool.cpp): the queue of tasks, the workers and the thread that waits, interleaved
-- in any order. A block under `queue_mutex_` is one step, but the test of `wait_all` and the sleep after it are
-- two, since the counter and the notification of a worker are outside the mutex. A notification of the workers
-- is a step of its own behind the block before it.
pub mod Counts
pub mod Accounts
pub mod Heard
pub mod Stuck
pub mod Progress
use quant_forge_quant_resear.Common.{
  ℕ, zero, suc, ◌+◌, ◌-◌, List, [], ◌∷◌, ◌++◌, Bool, true, false, ◌≡◌, ◌≢◌, ◌⊎◌, refl,
}

-- Where a worker stands in its loop. A task is a number here: what it does is its own affair.
pub data Worker : Type 0 where
  at_head : Worker  -- before the test of the wait for a task
  dozing : Worker  -- asleep in that wait
  running : (task : ℕ) → Worker
  ended : Worker  -- before `--active_tasks_`
  released : Worker  -- before `notify_all`
  gone : Worker

-- Where the thread stands that calls `wait_all`.
pub data Waiter : Type 0 where
  outside asking holding asleep returned : Waiter

-- `signals` are the `notify_one` of `enqueue` that are still to come, and `closing` is that of the destructor's
-- `notify_all`. `enqueued` and `finished` are what the history has. None of the four is a member of the class.
pub record Shared : Type 0 where
  pub tasks : List ℕ
  pub stop : Bool
  pub active : ℕ
  pub signals : ℕ
  pub closing : Bool
  pub waiter : Waiter
  pub enqueued : List ℕ
  pub finished : List ℕ

-- `holding` is a failed test with the mutex held.
abbrev pub MutexFree : Shared → Type 0
MutexFree m = m.waiter ≢ holding

-- `notify_all` wakes the waiter if it sleeps.
unfoldable pub woken : Waiter → Waiter
woken asleep = asking
woken w = w

-- A worker that `condition_variable_` wakes tests again.
unfoldable pub roused : Worker → Worker
roused dozing = at_head
roused w = w

abbrev pub rouse_all : List Worker → List Worker
rouse_all [] = []
rouse_all (w ∷ workers) = roused w ∷ rouse_all workers

abbrev pub NoneDozes : List Worker → Type 0
NoneDozes [] = Unit
NoneDozes (w ∷ workers) = (w ≢ dozing) × NoneDozes workers

-- One step of one worker. The test of its wait and the sleep are one step under the mutex.
pub data Move (m : Shared) : Worker → Shared → Worker → Type 0 where
  take :
      {task : ℕ} {rest : List ℕ}
      → MutexFree m
      → m.tasks ≡ task ∷ rest
      → Move m at_head (record m { tasks = rest; active = suc m.active }) (running task)
  doze : MutexFree m → m.stop ≡ false → m.tasks ≡ [] → Move m at_head m dozing
  leave : MutexFree m → m.stop ≡ true → m.tasks ≡ [] → Move m at_head m gone
  finish : {task : ℕ} → Move m (running task) (record m { finished = task ∷ m.finished }) ended
  release : Move m ended (record m { active = m.active - 1 }) released
  notify : Move m released (record m { waiter = woken m.waiter }) at_head

-- One step of the threads that use the pool. Nothing is enqueued after the destructor has begun.
pub data Call (m : Shared) : Shared → Type 0 where
  enqueue :
      (task : ℕ)
      → MutexFree m
      → m.stop ≡ false
      → Call m (record m {
        tasks = m.tasks ++ task ∷ [];
        signals = suc m.signals;
        enqueued = task ∷ m.enqueued;
      })
  begin_stop : MutexFree m → Call m (record m { stop = true; closing = true })
  wait_all : m.waiter ≡ outside → Call m (record m { waiter = asking })
  test_passes :
      m.waiter ≡ asking → m.tasks ≡ [] → m.active ≡ 0 → Call m (record m { waiter = returned })
  test_fails :
      m.waiter ≡ asking → (m.tasks ≢ []) ⊎ (m.active ≢ 0) → Call m (record m { waiter = holding })
  sleep : m.waiter ≡ holding → Call m (record m { waiter = asleep })
  spurious : m.waiter ≡ asleep → Call m (record m { waiter = asking })
  go_on : m.waiter ≡ returned → Call m (record m { waiter = outside })

pub record Pool : Type 0 where
  pub shared : Shared
  pub workers : List Worker

-- What the pool does by itself: a step of a worker, or a notification that is due. `notify_one` wakes any one
-- of the workers that sleep, and nobody where none does.
pub data Own (p : Pool) : Pool → Type 0 where
  work :
      {m : Shared} {from to : Worker}
      → (before after : List Worker) → p.workers ≡ before ++ from ∷ after
      → Move p.shared from m to
      → Own p (record { shared = m; workers = before ++ to ∷ after })
  notify_one :
      {k : ℕ}
      → (before after : List Worker) → p.shared.signals ≡ suc k
      → p.workers ≡ before ++ dozing ∷ after
      → Own p
          (record { shared = record p.shared { signals = k }; workers = before ++ at_head ∷ after })
  notify_nobody :
      {k : ℕ}
      → p.shared.signals ≡ suc k
      → NoneDozes p.workers
      → Own p (record { shared = record p.shared { signals = k }; workers = p.workers })
  notify_workers :
      p.shared.closing ≡ true
      → Own p
          (record { shared = record p.shared { closing = false }; workers = rouse_all p.workers })

pub data Step (p : Pool) : Pool → Type 0 where
  own : {q : Pool} → Own p q → Step p q
  call : {m : Shared} → Call p.shared m → Step p (record { shared = m; workers = p.workers })
  wakes :
      (before after : List Worker)
      → p.workers ≡ before ++ dozing ∷ after
      → Step p (record { shared = p.shared; workers = before ++ at_head ∷ after })

abbrev pub replicate : ℕ → List Worker
replicate zero = []
replicate (suc n) = at_head ∷ replicate n

-- The constructor starts the workers.
abbrev pub initial : ℕ → Pool
initial num_threads = record {
  shared = record {
    tasks = [];
    stop = false;
    active = 0;
    signals = 0;
    closing = false;
    waiter = outside;
    enqueued = [];
    finished = [];
  };
  workers = replicate num_threads;
}

pub data Reach (num_threads : ℕ) : Pool → Type 0 where
  start : Reach num_threads (initial num_threads)
  later : {p q : Pool} → Reach num_threads p → Step p q → Reach num_threads q
