-- ===== src/ThreadPool/Progress.antt =====
-- The pool comes to an end of what is enqueued, in whatever order its workers and notifications run.
use quant_forge_quant_resear.Common.{
  ℕ, zero, suc, ◌+◌, ◌*◌, ◌≤◌, List, [], ◌∷◌, ◌++◌, Bool, true, false, ◌≡◌, ◌≢◌, inl, inr, refl, ap,
  ◌∙◌, arith, length, if◌then◌else◌,
}
use quant_forge_quant_resear.ThreadPool.{
  Worker, at_head, dozing, running, ended, released, gone, Shared, MutexFree, Move, take, doze,
  leave, finish, release, notify, Pool, Own, work, notify_one, notify_nobody, notify_workers,
  roused, rouse_all, Reach, later, own,
}
use quant_forge_quant_resear.ThreadPool.Counts.{sum, sum-move, count, is_active}
use quant_forge_quant_resear.ThreadPool.Accounts.{Reach-IsAccounted, all_finished, AllGone}
use quant_forge_quant_resear.ThreadPool.Heard.{is_dozing, Reach-IsHeard}
use quant_forge_quant_resear.ThreadPool.Stuck.{
  IsStuck, stuck-tasks, stuck-awake, active-awake, sorted,
}

-- So many steps of the pool by itself, one after another.
pub data Runs (p : Pool) : ℕ → Pool → Type 0 where
  still : Runs p zero p
  next : {k : ℕ} {q r : Pool} → Runs p k q → Own q r → Runs p (suc k) r

pub Runs-Reach : {n : ℕ} {p : Pool} {k : ℕ} {q : Pool} → Reach n p → Runs p k q → Reach n q
Runs-Reach r still = r
Runs-Reach r (next w o) = later (Runs-Reach r w) (own o)

-- the steps up to the next sleep, or to the end
abbrev pub stage : Worker → ℕ
stage at_head = 2
stage (running task) = 5
stage ended = 4
stage released = 3
stage dozing = 0
stage gone = 0

abbrev pub one_each : Worker → ℕ
one_each w = 1

-- what the destructor's notification can bring
abbrev pub due : Bool → ℕ → ℕ
due closing size = if closing then 1 + 2 * size else 0

-- An upper bound of the steps that the pool can make.
abbrev pub todo : Pool → ℕ
todo p =
    4 * length p.shared.tasks
    + 3 * p.shared.signals
    + due p.shared.closing (sum one_each p.workers)
    + sum stage p.workers

Move-stage :
    {m m' : Shared} {from to : Worker}
    → Move m from m' to
    → (4 * length m'.tasks + stage to + 1 ≤ 4 * length m.tasks + stage from)
      × (m'.signals ≡ m.signals)
      × (m'.closing ≡ m.closing)
Move-stage (take free e) = (omega (arith, ap length e), refl, refl)
Move-stage (doze free s e) = (omega arith, refl, refl)
Move-stage (leave free s e) = (omega arith, refl, refl)
Move-stage finish = (omega arith, refl, refl)
Move-stage release = (omega arith, refl, refl)
Move-stage notify = (omega arith, refl, refl)

-- Who is woken has two steps to make at most: the test, and the sleep or the end.
roused-stage :
    (workers : List Worker)
    → sum stage (rouse_all workers) ≤ sum stage workers + 2 * sum one_each workers
unfolding roused
roused-stage [] = omega arith
roused-stage (at_head ∷ workers) = omega (arith, roused-stage workers)
roused-stage (dozing ∷ workers) = omega (arith, roused-stage workers)
roused-stage (running task ∷ workers) = omega (arith, roused-stage workers)
roused-stage (ended ∷ workers) = omega (arith, roused-stage workers)
roused-stage (released ∷ workers) = omega (arith, roused-stage workers)
roused-stage (gone ∷ workers) = omega (arith, roused-stage workers)

same_due :
    (workers before after : List Worker) (from to : Worker) (a b : Bool)
    → workers ≡ before ++ from ∷ after
    → a ≡ b
    → due a (sum one_each (before ++ to ∷ after)) ≡ due b (sum one_each workers)
same_due workers before after from to a b e c =
    ap (due a) (omega (arith, ap (sum one_each) e, sum-move one_each before after from to))
    ∙ ap (λ x. due x (sum one_each workers)) c

Own-todo : {p q : Pool} → Own p q → todo q + 1 ≤ todo p
Own-todo {p} (work {from} {to} before after e mv) =
    let (less, signals, closing) = Move-stage mv in
    omega (
      arith,
      less,
      signals,
      same_due p.workers before after from to _ _ e closing,
      ap (sum stage) e,
      sum-move stage before after from to,
    )
Own-todo {p} (notify_one before after s e) = omega (
  arith,
  s,
  same_due p.workers before after dozing at_head p.shared.closing p.shared.closing e refl,
  ap (sum stage) e,
  sum-move stage before after dozing at_head,
)
Own-todo {p} (notify_nobody s none) = omega (arith, s)
Own-todo {p} (notify_workers c) =
    omega (arith, roused-stage p.workers, ap (λ closing. due closing (sum one_each p.workers)) c)

Runs-todo : {p : Pool} {k : ℕ} {q : Pool} → Runs p k q → todo q + k ≤ todo p
Runs-todo still = omega arith
Runs-todo (next w o) = omega (arith, Runs-todo w, Own-todo o)

-- Whatever the order in which the workers run and are notified, with no call from outside meanwhile: when
-- the pool can do nothing more by itself and nobody holds the mutex, it has made `todo` steps at most, and every
-- task has finished as many times as it was enqueued. A worker that wakes without a notification is not needed
-- for that.
pub workers-finish :
    {n k : ℕ} {p q : Pool}
    → Reach n p
    → Runs p k q
    → q.workers ≢ []
    → MutexFree q.shared
    → IsStuck q
    → (x : ℕ) → (k ≤ todo p) × (count x q.shared.enqueued ≡ count x q.shared.finished)
workers-finish {q} r w ne free stuck x =
    let reached = Runs-Reach r w in
    let h = Reach-IsAccounted reached in
    let empty = stuck-tasks q h (Reach-IsHeard reached) ne free stuck in
    let idle : sum is_active q.workers ≡ 0 =
      omega (arith, active-awake q.workers, stuck-awake q free stuck) in
    (omega (arith, Runs-todo w), all_finished h empty idle x)

-- The destructor's joins return: when the pool can do nothing more by itself after `stop_` is set and nobody holds
-- the mutex, every worker has left its loop, and the pool has made `todo` steps at most to get there.
pub stopped-AllGone :
    {n k : ℕ} {p q : Pool}
    → Reach n p
    → Runs p k q
    → q.shared.stop ≡ true
    → MutexFree q.shared
    → IsStuck q
    → (k ≤ todo p) × AllGone q.workers
stopped-AllGone {q} r w stopped free stuck =
    (omega (arith, Runs-todo w), sorted q.workers (stuck-awake q free stuck) nobody)
  where
    nobody : sum is_dozing q.workers ≡ 0
    nobody = elim (Reach-IsHeard (Runs-Reach r w)).ending [
      | inl s ↦ absurd (two s stopped)
      | inr (inl c) ↦ absurd (stuck _ (notify_workers c))
      | inr (inr z) ↦ z
    ]
      where
        two : q.shared.stop ≡ false → q.shared.stop ≡ true → ⊥
        two a b = cc
