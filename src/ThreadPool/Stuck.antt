-- ===== src/ThreadPool/Stuck.antt =====
-- A pool that can do nothing by itself: its queue is empty, and no worker is awake.
use quant_forge_quant_resear.Common.{
  ℕ, zero, suc, ◌≤◌, List, [], ◌∷◌, ◌++◌, ◌≡◌, ◌≢◌, ◌⊎◌, inl, inr, refl, ap, arith, Bool-cases,
  length,
}
use quant_forge_quant_resear.ThreadPool.{
  Worker, at_head, dozing, running, ended, released, gone, Shared, MutexFree, Move, take, doze,
  leave, finish, release, notify, Pool, Own, work, notify_one, notify_nobody, NoneDozes,
}
use quant_forge_quant_resear.ThreadPool.Counts.{sum, is_active}
use quant_forge_quant_resear.ThreadPool.Accounts.{IsAccounted, AllGone, some_gone}
use quant_forge_quant_resear.ThreadPool.Heard.{is_dozing, is_awake, IsHeard}

-- The pool can do nothing by itself.
abbrev pub IsStuck : Pool → Type 0
IsStuck p = (q : Pool) → ¬ Own p q

-- a worker that can move
record Mover (m : Shared) (workers : List Worker) : Type 0 where
  before : List Worker
  from : Worker
  after : List Worker
  splits : workers ≡ before ++ from ∷ after
  shared : Shared
  to : Worker
  move : Move m from shared to

further :
    {m : Shared} {workers : List Worker} (w : Worker) → Mover m workers → Mover m (w ∷ workers)
further w b = record {
  before = w ∷ b.before;
  from = b.from;
  after = b.after;
  splits = ap (◌∷◌ w) b.splits;
  shared = b.shared;
  to = b.to;
  move = b.move;
}

here :
    {m m' : Shared} {w to : Worker} (workers : List Worker) → Move m w m' to → Mover m (w ∷ workers)
here {m'} {w} {to} workers mv = record {
  before = [];
  from = w;
  after = workers;
  splits = refl;
  shared = m';
  to = to;
  move = mv;
}

split_queue :
    (tasks : List ℕ) → (tasks ≡ []) ⊎ ((task : ℕ) × (rest : List ℕ) × (tasks ≡ task ∷ rest))
split_queue [] = inl refl
split_queue (task ∷ rest) = inr (task, rest, refl)

-- A worker that is awake can always move while nobody holds the mutex.
head_moves : (m : Shared) (workers : List Worker) → MutexFree m → Mover m (at_head ∷ workers)
head_moves m workers free = elim (split_queue m.tasks) [
  | inr (task, rest, e) ↦ here workers (take free e)
  | inl empty ↦ elim (Bool-cases m.stop) [
    | inl s ↦ here workers (leave free s empty)
    | inr s ↦ here workers (doze free s empty)
  ]
]

find-Mover :
    (m : Shared) (workers : List Worker)
    → MutexFree m
    → Mover m workers ⊎ (sum is_awake workers ≡ 0)
find-Mover m [] free = inr refl
find-Mover m (at_head ∷ workers) free = inl (head_moves m workers free)
find-Mover m (running task ∷ workers) free = inl (here workers finish)
find-Mover m (ended ∷ workers) free = inl (here workers release)
find-Mover m (released ∷ workers) free = inl (here workers notify)
find-Mover m (dozing ∷ workers) free = elim (find-Mover m workers free) [
  | inl b ↦ inl (further dozing b)
  | inr e ↦ inr (omega (arith, e))
]
find-Mover m (gone ∷ workers) free = elim (find-Mover m workers free) [
  | inl b ↦ inl (further gone b)
  | inr e ↦ inr (omega (arith, e))
]

-- who hears a `notify_one`
abbrev Sleeper : List Worker → Type 0
Sleeper workers =
    (before : List Worker) × (after : List Worker) × (workers ≡ before ++ dozing ∷ after)

behind : {workers : List Worker} (w : Worker) → Sleeper workers → Sleeper (w ∷ workers)
behind w (before, after, e) = (w ∷ before, after, ap (◌∷◌ w) e)

awake_first :
    {workers : List Worker} (w : Worker)
    → w ≢ dozing
    → Sleeper workers ⊎ NoneDozes workers
    → Sleeper (w ∷ workers) ⊎ NoneDozes (w ∷ workers)
awake_first w ne (inl s) = inl (behind w s)
awake_first w ne (inr none) = inr (ne, none)

find-Sleeper : (workers : List Worker) → Sleeper workers ⊎ NoneDozes workers
find-Sleeper [] = inr tt
find-Sleeper (dozing ∷ workers) = inl ([], workers, refl)
find-Sleeper (at_head ∷ workers) = awake_first at_head (λ e. cc) (find-Sleeper workers)
find-Sleeper (running task ∷ workers) = awake_first (running task) (λ e. cc) (find-Sleeper workers)
find-Sleeper (ended ∷ workers) = awake_first ended (λ e. cc) (find-Sleeper workers)
find-Sleeper (released ∷ workers) = awake_first released (λ e. cc) (find-Sleeper workers)
find-Sleeper (gone ∷ workers) = awake_first gone (λ e. cc) (find-Sleeper workers)

stuck-signals : (p : Pool) → IsStuck p → p.shared.signals ≡ 0
stuck-signals p stuck = elim (number p.shared.signals) [
  | inl z ↦ z
  | inr (k, e) ↦ elim (find-Sleeper p.workers) [
    | inl (before, after, s) ↦ absurd (stuck _ (notify_one before after e s))
    | inr none ↦ absurd (stuck _ (notify_nobody e none))
  ]
]
  where
    number : (n : ℕ) → (n ≡ 0) ⊎ ((k : ℕ) × (n ≡ suc k))
    number zero = inl refl
    number (suc k) = inr (k, refl)

pub stuck-awake : (p : Pool) → MutexFree p.shared → IsStuck p → sum is_awake p.workers ≡ 0
stuck-awake p free stuck = elim (find-Mover p.shared p.workers free) [
  | inl b ↦ absurd (stuck _ (work b.before b.after b.splits b.move))
  | inr e ↦ e
]

pub active-awake : (workers : List Worker) → sum is_active workers ≤ sum is_awake workers
active-awake [] = omega arith
active-awake (w ∷ workers) = omega (arith, active-awake workers, one w)
  where
    one : (w : Worker) → is_active w ≤ is_awake w
    one w = ground arith

-- Every worker is awake, asleep or gone.
pub sorted :
    (workers : List Worker) → sum is_awake workers ≡ 0 → sum is_dozing workers ≡ 0 → AllGone workers
sorted [] a z = tt
sorted (gone ∷ workers) a z = (refl, sorted workers (omega (arith, a)) (omega (arith, z)))
sorted (at_head ∷ workers) a z = absurd (omega (arith, a))
sorted (dozing ∷ workers) a z = absurd (omega (arith, z))
sorted (running task ∷ workers) a z = absurd (omega (arith, a))
sorted (ended ∷ workers) a z = absurd (omega (arith, a))
sorted (released ∷ workers) a z = absurd (omega (arith, a))

no_tasks : (tasks : List ℕ) → length tasks ≡ 0 → tasks ≡ []
no_tasks [] h = refl
no_tasks (task ∷ tasks) h = absurd (omega (arith, h))

pub stuck-tasks :
    (p : Pool)
    → IsAccounted p
    → IsHeard p
    → p.workers ≢ []
    → MutexFree p.shared
    → IsStuck p
    → p.shared.tasks ≡ []
stuck-tasks p h heard ne free stuck =
    let awake = stuck-awake p free stuck in
    elim heard.attended [
      | inl z ↦ (h.drained (some_gone p.workers ne (sorted p.workers awake z))).1
      | inr le ↦ no_tasks p.shared.tasks (omega (arith, le, awake, stuck-signals p stuck))
    ]
