-- ===== src/ThreadPool/Counts.antt =====
-- Sums over the workers and over tasks, and what a step of a worker does to them.
use quant_forge_quant_resear.Common.{
  ℕ, ◌+◌, List, [], ◌∷◌, ◌++◌, true, ◌≡◌, ◌≢◌, refl, ap, arith, ◌==◌, ◌≤◌, if◌then◌else◌,
}
use quant_forge_quant_resear.ThreadPool.{
  Worker, at_head, dozing, running, ended, released, gone, Shared, Move, take, doze, leave, finish,
  release, notify, roused, rouse_all,
}

module _ {A : Type 0} (weight : A → ℕ) where
  abbrev pub sum : List A → ℕ
  sum [] = 0
  sum (x ∷ xs) = weight x + sum xs

  pub sum-append : (xs ys : List A) → sum (xs ++ ys) ≡ sum xs + sum ys
  sum-append [] ys = omega arith
  sum-append (x ∷ xs) ys = omega (arith, sum-append xs ys)

  -- What the worker that moves adds.
  pub sum-move :
      (before after : List A) (from to : A)
      → sum (before ++ to ∷ after) + weight from ≡ sum (before ++ from ∷ after) + weight to
  sum-move before after from to =
      omega (arith, sum-append before (to ∷ after), sum-append before (from ∷ after))

abbrev pub one_if : ℕ → ℕ → ℕ
one_if x y = if x == y then 1 else 0

abbrev pub count : ℕ → List ℕ → ℕ
count x = sum (one_if x)

-- the worker counts in `active_tasks_`
abbrev pub is_active : Worker → ℕ
is_active (running task) = 1
is_active ended = 1
is_active _ = 0

-- the worker runs this task
abbrev pub runs : ℕ → Worker → ℕ
runs x (running task) = one_if x task
runs x _ = 0

abbrev pub is_gone : Worker → ℕ
is_gone gone = 1
is_gone _ = 0

abbrev pub IsDrained : Shared → Type 0
IsDrained m = (m.stop ≡ true) × (m.tasks ≡ [])

pub Move-active :
    {m m' : Shared} {from to : Worker}
    → Move m from m' to
    → is_active from ≤ m.active
    → m'.active + is_active from ≡ m.active + is_active to
Move-active (take free e) h = omega arith
Move-active (doze free s e) h = omega arith
Move-active (leave free s e) h = omega arith
Move-active finish h = omega arith
Move-active release h = omega (arith, h)
Move-active notify h = omega arith

pub Move-once :
    {m m' : Shared} {from to : Worker} (x : ℕ)
    → Move m from m' to
    → (count x m'.tasks + runs x to + count x m'.finished
        ≡ count x m.tasks + runs x from + count x m.finished)
      × (m'.enqueued ≡ m.enqueued)
Move-once x (take free e) = (omega (arith, ap (count x) e), refl)
Move-once x (doze free s e) = (refl, refl)
Move-once x (leave free s e) = (refl, refl)
Move-once x finish = (omega arith, refl)
Move-once x release = (refl, refl)
Move-once x notify = (refl, refl)

pub Move-IsDrained :
    {m m' : Shared} {from to : Worker} → Move m from m' to → IsDrained m → IsDrained m'
Move-IsDrained (take free e) h = cc
Move-IsDrained (doze free s e) h = h
Move-IsDrained (leave free s e) h = h
Move-IsDrained finish h = h
Move-IsDrained release h = h
Move-IsDrained notify h = h

pub Move-gone :
    {m m' : Shared} {from to : Worker} → Move m from m' to → is_gone to ≢ 0 → IsDrained m'
Move-gone (take free e) h = absurd (h refl)
Move-gone (doze free s e) h = absurd (h refl)
Move-gone (leave free s e) h = (s, e)
Move-gone finish h = absurd (h refl)
Move-gone release h = absurd (h refl)
Move-gone notify h = absurd (h refl)

-- Who wakes counts and runs as before.
pub sum-rouse_all :
    (weight : Worker → ℕ)
    → weight at_head ≡ weight dozing
    → (workers : List Worker) → sum weight (rouse_all workers) ≡ sum weight workers
unfolding roused
sum-rouse_all weight h [] = refl
sum-rouse_all weight h (dozing ∷ workers) = omega (arith, h, sum-rouse_all weight h workers)
sum-rouse_all weight h (at_head ∷ workers) = omega (arith, sum-rouse_all weight h workers)
sum-rouse_all weight h (running task ∷ workers) = omega (arith, sum-rouse_all weight h workers)
sum-rouse_all weight h (ended ∷ workers) = omega (arith, sum-rouse_all weight h workers)
sum-rouse_all weight h (released ∷ workers) = omega (arith, sum-rouse_all weight h workers)
sum-rouse_all weight h (gone ∷ workers) = omega (arith, sum-rouse_all weight h workers)

pub sum-woken :
    (weight : Worker → ℕ) (workers before after : List Worker)
    → weight at_head ≡ weight dozing
    → workers ≡ before ++ dozing ∷ after
    → sum weight (before ++ at_head ∷ after) ≡ sum weight workers
sum-woken weight workers before after h e =
    omega (arith, h, ap (sum weight) e, sum-move weight before after dozing at_head)

pub runs-le : (x : ℕ) (workers : List Worker) → sum (runs x) workers ≤ sum is_active workers
runs-le x [] = omega arith
runs-le x (w ∷ workers) = omega (arith, runs-le x workers, one x w)
  where
    one : (x : ℕ) (w : Worker) → runs x w ≤ is_active w
    one x w = ground arith
