-- ===== src/Tests/Pools.antt =====
-- A pool of one worker, which sleeps before the first task is enqueued.
use quant_forge_quant_resear.Common.{
  List, [], ◌∷◌, ◌++◌, ◌≡◌, ◌≢◌, refl, inr, ◌≤◌, true, false, ap, arith,
}
use quant_forge_quant_resear.ThreadPool.{
  Worker, at_head, dozing, running, released, gone, outside, holding, asleep, returned, Shared,
  Move, take, doze, leave, finish, release, notify, woken, roused, enqueue, begin_stop, wait_all,
  test_passes, test_fails, sleep, Pool, work, notify_one, notify_nobody, notify_workers, own, call,
  Reach, start, later,
}
use quant_forge_quant_resear.ThreadPool.Counts.{count}
use quant_forge_quant_resear.ThreadPool.Accounts.{AllGone, wait_all-finished, joined-finished}
use quant_forge_quant_resear.ThreadPool.Heard.{is_awake}
use quant_forge_quant_resear.ThreadPool.Stuck.{IsStuck}
use quant_forge_quant_resear.ThreadPool.Progress.{
  Runs, still, next, todo, Runs-Reach, workers-finish, stopped-AllGone,
}

abbrev queued : Shared
queued = record {
  tasks = 7 ∷ [];
  stop = false;
  active = 0;
  signals = 1;
  closing = false;
  waiter = outside;
  enqueued = 7 ∷ [];
  finished = [];
}

abbrev one_worker : Shared → Worker → Pool
one_worker m w = record { shared = m; workers = w ∷ [] }

outside_free : outside ≢ holding
outside_free e = cc

queued_reached : Reach 1 (one_worker queued dozing)
queued_reached =
    let slept = later start (own (work [] [] refl (doze outside_free refl refl))) in
    later slept (call (enqueue 7 outside_free refl))

abbrev taken : Shared
taken = record queued { tasks = []; active = 1; signals = 0 }

-- The notification wakes the worker, which takes the task.
taken_runs : Runs (one_worker queued dozing) 2 (one_worker taken (running 7))
taken_runs =
    next (next still (notify_one [] [] refl refl)) (work [] [] refl (take outside_free refl))

abbrev quiet : Shared
quiet = record taken { active = 0; finished = 7 ∷ [] }

quiet_runs : Runs (one_worker queued dozing) 4 (one_worker quiet released)
quiet_runs = next (next taken_runs (work [] [] refl finish)) (work [] [] refl release)

idle_runs : Runs (one_worker queued dozing) 6 (one_worker quiet dozing)
unfolding woken
idle_runs =
    next (next quiet_runs (work [] [] refl notify)) (work [] [] refl (doze outside_free refl refl))

wait_all-finished_example : count 7 (7 ∷ []) ≡ count 7 (7 ∷ [])
wait_all-finished_example =
    wait_all-finished {m = record quiet { waiter = returned }}
      (later (Runs-Reach queued_reached quiet_runs) (call (wait_all refl)))
      (test_passes refl refl refl) (λ e. cc) refl 7

-- The test of `wait_all` fails, the worker ends and notifies, and only then does the waiter go to sleep:
-- nothing is left to wake it.
lost_notification :
    Reach 1 (record { shared = record quiet { waiter = asleep }; workers = at_head ∷ [] })
unfolding woken
lost_notification =
    let asked = later (Runs-Reach queued_reached taken_runs) (call (wait_all refl)) in
    let failed = later asked (call (test_fails refl (inr (λ e. cc)))) in
    let over =
      later (later failed (own (work [] [] refl finish))) (own (work [] [] refl release)) in
    later (later over (own (work [] [] refl notify))) (call (sleep refl))

abbrev stopping : Shared
stopping = record quiet { stop = true; closing = true }

abbrev stopped : Shared
stopped = record quiet { stop = true }

stopping_reached : Reach 1 (one_worker stopping dozing)
stopping_reached = later (Runs-Reach queued_reached idle_runs) (call (begin_stop outside_free))

stopped_runs : Runs (one_worker stopping dozing) 2 (one_worker stopped gone)
unfolding roused
stopped_runs =
    next (next still (notify_workers refl)) (work [] [] refl (leave outside_free refl refl))

joined-finished_example : count 7 (7 ∷ []) ≡ count 7 (7 ∷ [])
joined-finished_example =
    joined-finished (Runs-Reach stopping_reached stopped_runs) (λ e. cc) (refl, tt) 7

mover_awake : {m m' : Shared} {from to : Worker} → Move m from m' to → is_awake from ≡ 1
mover_awake (take free e) = refl
mover_awake (doze free s e) = refl
mover_awake (leave free s e) = refl
mover_awake finish = refl
mover_awake release = refl
mover_awake notify = refl

-- A worker that sleeps or is gone makes no step.
quiet_worker :
    {m m' : Shared} {from to : Worker} (w : Worker) (before after : List Worker)
    → is_awake w ≡ 0
    → w ∷ [] ≡ before ++ from ∷ after
    → Move m from m' to
    → ⊥
quiet_worker {from} w [] after z e mv =
    let same : from ≡ w = cc in absurd (omega (arith, z, mover_awake mv, ap is_awake same))
quiet_worker w (v ∷ []) after z e mv = cc
quiet_worker w (v ∷ u ∷ before) after z e mv = cc

idle-IsStuck : IsStuck (one_worker quiet dozing)
idle-IsStuck q (work before after e mv) = quiet_worker dozing before after refl e mv
idle-IsStuck q (notify_one before after s e) = cc
idle-IsStuck q (notify_nobody s none) = cc
idle-IsStuck q (notify_workers c) = cc

stopped-IsStuck : IsStuck (one_worker stopped gone)
stopped-IsStuck q (work before after e mv) = quiet_worker gone before after refl e mv
stopped-IsStuck q (notify_one before after s e) = cc
stopped-IsStuck q (notify_nobody s none) = cc
stopped-IsStuck q (notify_workers c) = cc

workers-finish_example :
    (6 ≤ todo (one_worker queued dozing)) × (count 7 (7 ∷ []) ≡ count 7 (7 ∷ []))
workers-finish_example =
    workers-finish queued_reached idle_runs (λ e. cc) outside_free idle-IsStuck 7

stopped-AllGone_example : (2 ≤ todo (one_worker stopping dozing)) × AllGone (gone ∷ [])
stopped-AllGone_example =
    stopped-AllGone stopping_reached stopped_runs refl outside_free stopped-IsStuck
