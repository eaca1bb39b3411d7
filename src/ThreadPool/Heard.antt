-- ===== src/ThreadPool/Heard.antt =====
-- No worker sleeps through a task or through the end: what `notify_one` in `enqueue` and `notify_all` in the
-- destructor are for.
use quant_forge_quant_resear.Common.{
  ℕ, zero, suc, ◌+◌, ◌≤◌, List, [], ◌∷◌, ◌++◌, true, false, ◌≡◌, ◌⊎◌, inl, inr, refl, ap, ◌∙◌,
  arith, length, length-append,
}
use quant_forge_quant_resear.ThreadPool.{
  Worker, at_head, dozing, running, ended, released, gone, Shared, Move, take, doze, leave, finish,
  release, notify, Call, enqueue, begin_stop, wait_all, test_passes, test_fails, sleep, spurious,
  go_on, Pool, Own, work, notify_one, notify_nobody, notify_workers, own, wakes, call, roused,
  rouse_all, NoneDozes, replicate, Reach, start, later,
}
use quant_forge_quant_resear.ThreadPool.Counts.{sum, sum-move}

abbrev pub is_dozing : Worker → ℕ
is_dozing dozing = 1
is_dozing _ = 0

-- the worker comes to the test of its wait by itself
abbrev pub is_awake : Worker → ℕ
is_awake dozing = 0
is_awake gone = 0
is_awake _ = 1

-- Nobody sleeps, or every task in the queue has a notification that is due or a worker that is awake.
abbrev Attended : Shared → ℕ → ℕ → Type 0
Attended m asleep awake = (asleep ≡ 0) ⊎ (length m.tasks ≤ m.signals + awake)

-- The pool goes on, or the destructor's notification is due, or nobody sleeps.
abbrev Ending : Shared → ℕ → Type 0
Ending m asleep = (m.stop ≡ false) ⊎ (m.closing ≡ true) ⊎ (asleep ≡ 0)

pub record IsHeard (p : Pool) : Type 0 where
  pub attended : Attended p.shared (sum is_dozing p.workers) (sum is_awake p.workers)
  pub ending : Ending p.shared (sum is_dozing p.workers)

none_asleep : (n : ℕ) → sum is_dozing (replicate n) ≡ 0
none_asleep zero = refl
none_asleep (suc n) = omega (arith, none_asleep n)

-- A worker that moves, with the sums of the others.
Move-Attended :
    {m m' : Shared} {from to : Worker} (asleep awake asleep' awake' : ℕ)
    → Move m from m' to
    → asleep' + is_dozing from ≡ asleep + is_dozing to
    → awake' + is_awake from ≡ awake + is_awake to
    → Attended m asleep awake
    → Attended m' asleep' awake'
Move-Attended z a z' a' (take free e) s w (inl h) = inl (omega (arith, s, h))
Move-Attended z a z' a' (take free e) s w (inr h) = inr (omega (arith, w, h, ap length e))
Move-Attended z a z' a' (doze free s e) q w h = inr (omega (arith, ap length e))
Move-Attended z a z' a' (leave free s e) q w h = inr (omega (arith, ap length e))
Move-Attended z a z' a' finish s w (inl h) = inl (omega (arith, s, h))
Move-Attended z a z' a' finish s w (inr h) = inr (omega (arith, w, h))
Move-Attended z a z' a' release s w (inl h) = inl (omega (arith, s, h))
Move-Attended z a z' a' release s w (inr h) = inr (omega (arith, w, h))
Move-Attended z a z' a' notify s w (inl h) = inl (omega (arith, s, h))
Move-Attended z a z' a' notify s w (inr h) = inr (omega (arith, w, h))

Move-Ending :
    {m m' : Shared} {from to : Worker} (asleep asleep' : ℕ)
    → Move m from m' to
    → asleep' + is_dozing from ≡ asleep + is_dozing to
    → Ending m asleep
    → Ending m' asleep'
Move-Ending z z' (doze free s e) q h = inl s
Move-Ending z z' mv q (inl h) = inl (Move-stop mv ∙ h)
  where
    Move-stop : {m m' : Shared} {from to : Worker} → Move m from m' to → m'.stop ≡ m.stop
    Move-stop (take free e) = refl
    Move-stop (doze free s e) = refl
    Move-stop (leave free s e) = refl
    Move-stop finish = refl
    Move-stop release = refl
    Move-stop notify = refl
Move-Ending z z' (take free e) q (inr (inl h)) = inr (inl h)
Move-Ending z z' (take free e) q (inr (inr h)) = inr (inr (omega (arith, q, h)))
Move-Ending z z' (leave free s e) q (inr (inl h)) = inr (inl h)
Move-Ending z z' (leave free s e) q (inr (inr h)) = inr (inr (omega (arith, q, h)))
Move-Ending z z' finish q (inr (inl h)) = inr (inl h)
Move-Ending z z' finish q (inr (inr h)) = inr (inr (omega (arith, q, h)))
Move-Ending z z' release q (inr (inl h)) = inr (inl h)
Move-Ending z z' release q (inr (inr h)) = inr (inr (omega (arith, q, h)))
Move-Ending z z' notify q (inr (inl h)) = inr (inl h)
Move-Ending z z' notify q (inr (inr h)) = inr (inr (omega (arith, q, h)))

moved :
    (weight : Worker → ℕ) (workers before after : List Worker) (from to : Worker)
    → workers ≡ before ++ from ∷ after
    → sum weight (before ++ to ∷ after) + weight from ≡ sum weight workers + weight to
moved weight workers before after from to e =
    omega (arith, ap (sum weight) e, sum-move weight before after from to)

-- A worker that is woken, for a notification or without one.
woken-IsHeard :
    (m m' : Shared) (workers before after : List Worker)
    → workers ≡ before ++ dozing ∷ after
    → m'.tasks ≡ m.tasks
    → m'.stop ≡ m.stop
    → m'.closing ≡ m.closing
    → m.signals ≤ m'.signals + 1
    → IsHeard (record { shared = m; workers = workers })
    → IsHeard (record { shared = m'; workers = before ++ at_head ∷ after })
woken-IsHeard m m' workers before after e t s c k h =
    let slept = moved is_dozing workers before after dozing at_head e in
    let woke = moved is_awake workers before after dozing at_head e in
    record {
      attended = elim h.attended [
        | inl z ↦ inl (omega (arith, slept, z))
        | inr le ↦ inr (omega (arith, woke, le, k, ap length t))
      ];
      ending = elim h.ending [
        | inl q ↦ inl (s ∙ q)
        | inr (inl q) ↦ inr (inl (c ∙ q))
        | inr (inr z) ↦ inr (inr (omega (arith, slept, z)))
      ];
    }

NoneDozes-asleep : (workers : List Worker) → NoneDozes workers → sum is_dozing workers ≡ 0
NoneDozes-asleep [] h = refl
NoneDozes-asleep (dozing ∷ workers) h = absurd (h.0 refl)
NoneDozes-asleep (at_head ∷ workers) h = omega (arith, NoneDozes-asleep workers h.1)
NoneDozes-asleep (running task ∷ workers) h = omega (arith, NoneDozes-asleep workers h.1)
NoneDozes-asleep (ended ∷ workers) h = omega (arith, NoneDozes-asleep workers h.1)
NoneDozes-asleep (released ∷ workers) h = omega (arith, NoneDozes-asleep workers h.1)
NoneDozes-asleep (gone ∷ workers) h = omega (arith, NoneDozes-asleep workers h.1)

all_roused : (workers : List Worker) → sum is_dozing (rouse_all workers) ≡ 0
unfolding roused
all_roused [] = refl
all_roused (dozing ∷ workers) = omega (arith, all_roused workers)
all_roused (at_head ∷ workers) = omega (arith, all_roused workers)
all_roused (running task ∷ workers) = omega (arith, all_roused workers)
all_roused (ended ∷ workers) = omega (arith, all_roused workers)
all_roused (released ∷ workers) = omega (arith, all_roused workers)
all_roused (gone ∷ workers) = omega (arith, all_roused workers)

pub Own-IsHeard : {p q : Pool} → Own p q → IsHeard p → IsHeard q
Own-IsHeard {p} (work before after e mv) h = record {
  attended =
      Move-Attended _ _ _ _ mv (moved is_dozing p.workers before after _ _ e)
        (moved is_awake p.workers before after _ _ e) h.attended;
  ending = Move-Ending _ _ mv (moved is_dozing p.workers before after _ _ e) h.ending;
}
Own-IsHeard {p} (notify_one before after s e) h =
    woken-IsHeard p.shared _ p.workers before after e refl refl refl (omega (arith, s)) h
Own-IsHeard {p} (notify_nobody s none) h = record {
  attended = inl (NoneDozes-asleep p.workers none);
  ending = h.ending;
}
Own-IsHeard {p} (notify_workers c) h = record {
  attended = inl (all_roused p.workers);
  ending = inr (inr (all_roused p.workers));
}

Call-IsHeard :
    {m m' : Shared} (workers : List Worker)
    → Call m m'
    → IsHeard (record { shared = m; workers = workers })
    → IsHeard (record { shared = m'; workers = workers })
Call-IsHeard {m} workers (enqueue task free s) h = record {
  attended = elim h.attended [
    | inl z ↦ inl z
    | inr le ↦ inr (omega (arith, le, length-append m.tasks (task ∷ [])))
  ];
  ending = h.ending;
}
Call-IsHeard workers (begin_stop free) h = record { attended = h.attended; ending = inr (inl refl) }
Call-IsHeard workers (wait_all e) h = record { attended = h.attended; ending = h.ending }
Call-IsHeard workers (test_passes a b c) h = record { attended = h.attended; ending = h.ending }
Call-IsHeard workers (test_fails a b) h = record { attended = h.attended; ending = h.ending }
Call-IsHeard workers (sleep e) h = record { attended = h.attended; ending = h.ending }
Call-IsHeard workers (spurious e) h = record { attended = h.attended; ending = h.ending }
Call-IsHeard workers (go_on e) h = record { attended = h.attended; ending = h.ending }

pub Reach-IsHeard : {n : ℕ} {p : Pool} → Reach n p → IsHeard p
Reach-IsHeard {n} start = record { attended = inl (none_asleep n); ending = inl refl }
Reach-IsHeard (later r (own o)) = Own-IsHeard o (Reach-IsHeard r)
Reach-IsHeard (later {p} r (call c)) = Call-IsHeard p.workers c (Reach-IsHeard r)
Reach-IsHeard (later {p} r (wakes before after e)) =
    woken-IsHeard p.shared p.shared p.workers before after e refl refl refl (omega arith)
      (Reach-IsHeard r)
