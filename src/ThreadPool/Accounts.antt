-- ===== src/ThreadPool/Accounts.antt =====
-- Every task that was enqueued waits, runs or has finished, once each.
use quant_forge_quant_resear.Common.{
  ℕ, zero, suc, ◌+◌, List, [], ◌∷◌, ◌++◌, true, ◌≡◌, ◌≢◌, refl, ap, sym, ◌∙◌, arith, ◌==◌, ==_iff,
  Bool-cases, inl, inr, ◌≤◌,
}
use quant_forge_quant_resear.ThreadPool.{
  Worker, at_head, dozing, gone, Shared, Move, returned, Call, enqueue, begin_stop, wait_all,
  test_passes, test_fails, sleep, spurious, go_on, Pool, Own, work, notify_one, notify_nobody,
  notify_workers, own, wakes, call, replicate, initial, Reach, start, later,
}
use quant_forge_quant_resear.ThreadPool.Counts.{
  sum, sum-append, sum-move, count, one_if, is_active, runs, is_gone, Move-active, Move-once,
  Move-IsDrained, Move-gone, sum-rouse_all, sum-woken, runs-le,
}

pub record IsAccounted (p : Pool) : Type 0 where
  pub counted : p.shared.active ≡ sum is_active p.workers
  pub once :
      (x : ℕ)
      → count x p.shared.enqueued
        ≡ count x p.shared.tasks + sum (runs x) p.workers + count x p.shared.finished
  pub drained : sum is_gone p.workers ≢ 0 → (p.shared.stop ≡ true) × (p.shared.tasks ≡ [])

initial-IsAccounted : (n : ℕ) → IsAccounted (initial n)
initial-IsAccounted n = record {
  counted = sym (idle is_active refl n);
  once = λ x. sym (omega (arith, idle (runs x) refl n));
  drained = λ some_gone. absurd (some_gone (idle is_gone refl n));
}
  where
    idle : (weight : Worker → ℕ) → weight at_head ≡ 0 → (n : ℕ) → sum weight (replicate n) ≡ 0
    idle weight h zero = refl
    idle weight h (suc n) = omega (arith, h, idle weight h n)

work-IsAccounted :
    {m m' : Shared} {from to : Worker} (workers before after : List Worker)
    → workers ≡ before ++ from ∷ after
    → Move m from m' to
    → IsAccounted (record { shared = m; workers = workers })
    → IsAccounted (record { shared = m'; workers = before ++ to ∷ after })
work-IsAccounted {m} {m'} {from} {to} workers before after e mv h = record {
  counted = omega (
    arith,
    h.counted,
    ap (sum is_active) e,
    sum-move is_active before after from to,
    here is_active,
    Move-active mv (omega (arith, h.counted, ap (sum is_active) e, here is_active)),
  );
  once = λ x.
      let (same, kept) = Move-once x mv in
      omega (
        arith,
        h.once x,
        ap (sum (runs x)) e,
        sum-move (runs x) before after from to,
        same,
        ap (count x) kept,
      );
  drained = λ some_gone. elim (Bool-cases (sum is_gone workers == 0)) [
    | inl none ↦ Move-gone mv (λ q. some_gone (
        omega (
          arith,
          ap (sum is_gone) e,
          sum-move is_gone before after from to,
          q,
          (==_iff _ _).0 none,
        )))
    | inr some ↦ Move-IsDrained mv (h.drained (λ q. absurd (ground (arith, q, some))))
  ];
}
  where
    here : (weight : Worker → ℕ) → weight from ≤ sum weight (before ++ from ∷ after)
    here weight = omega (arith, sum-append weight before (from ∷ after))

Call-IsAccounted :
    {m m' : Shared} (workers : List Worker)
    → Call m m'
    → IsAccounted (record { shared = m; workers = workers })
    → IsAccounted (record { shared = m'; workers = workers })
Call-IsAccounted {m} workers (enqueue task free s) h = record {
  counted = h.counted;
  once = λ x. omega (arith, h.once x, sum-append (one_if x) m.tasks (task ∷ []));
  drained = λ g. absurd (ground (arith, s, h.drained g));
}
Call-IsAccounted workers (begin_stop free) h = record {
  counted = h.counted;
  once = h.once;
  drained = λ g. (refl, (h.drained g).1);
}
Call-IsAccounted workers (wait_all e) h = record {
  counted = h.counted;
  once = h.once;
  drained = h.drained;
}
Call-IsAccounted workers (test_passes a b c) h = record {
  counted = h.counted;
  once = h.once;
  drained = h.drained;
}
Call-IsAccounted workers (test_fails a b) h = record {
  counted = h.counted;
  once = h.once;
  drained = h.drained;
}
Call-IsAccounted workers (sleep e) h = record {
  counted = h.counted;
  once = h.once;
  drained = h.drained;
}
Call-IsAccounted workers (spurious e) h = record {
  counted = h.counted;
  once = h.once;
  drained = h.drained;
}
Call-IsAccounted workers (go_on e) h = record {
  counted = h.counted;
  once = h.once;
  drained = h.drained;
}

-- Only the sums over the workers count, and the members that the account reads.
same-IsAccounted :
    {p q : Pool}
    → ((weight : Worker → ℕ)
        → weight at_head ≡ weight dozing
        → sum weight q.workers ≡ sum weight p.workers)
    → q.shared.active ≡ p.shared.active
    → q.shared.tasks ≡ p.shared.tasks
    → q.shared.stop ≡ p.shared.stop
    → q.shared.enqueued ≡ p.shared.enqueued
    → q.shared.finished ≡ p.shared.finished
    → IsAccounted p
    → IsAccounted q
same-IsAccounted {p} {q} same a t s e f h = record {
  counted = omega (arith, h.counted, same is_active refl, a);
  once = λ x.
      omega (arith, h.once x, same (runs x) refl, ap (count x) t, ap (count x) e, ap (count x) f);
  drained = λ some_gone.
      let (stopped, empty) = h.drained (λ z. some_gone (omega (arith, z, same is_gone refl))) in
      (s ∙ stopped, t ∙ empty);
}

Own-IsAccounted : {p q : Pool} → Own p q → IsAccounted p → IsAccounted q
Own-IsAccounted {p} (work before after e mv) h = work-IsAccounted p.workers before after e mv h
Own-IsAccounted {p} (notify_one before after s e) h =
    same-IsAccounted (λ weight k. sum-woken weight p.workers before after k e) refl refl refl refl
      refl h
Own-IsAccounted {p} (notify_nobody s none) h =
    same-IsAccounted (λ weight k. refl) refl refl refl refl refl h
Own-IsAccounted {p} (notify_workers c) h =
    same-IsAccounted (λ weight k. sum-rouse_all weight k p.workers) refl refl refl refl refl h

pub Reach-IsAccounted : {n : ℕ} {p : Pool} → Reach n p → IsAccounted p
Reach-IsAccounted {n} start = initial-IsAccounted n
Reach-IsAccounted (later r (own o)) = Own-IsAccounted o (Reach-IsAccounted r)
Reach-IsAccounted (later {p} r (call c)) = Call-IsAccounted p.workers c (Reach-IsAccounted r)
Reach-IsAccounted (later {p} r (wakes before after e)) =
    same-IsAccounted (λ weight k. sum-woken weight p.workers before after k e) refl refl refl refl
      refl (Reach-IsAccounted r)

-- Nothing waits and nothing runs, so all that was enqueued has finished.
pub all_finished :
    {p : Pool}
    → IsAccounted p
    → p.shared.tasks ≡ []
    → sum is_active p.workers ≡ 0
    → (x : ℕ) → count x p.shared.enqueued ≡ count x p.shared.finished
all_finished {p} h empty idle x =
    omega (arith, h.once x, ap (count x) empty, runs-le x p.workers, idle)

-- When `wait_all` returns, every task that was enqueued has finished, as many times as it was enqueued.
pub wait_all-finished :
    {n : ℕ} {p : Pool} {m : Shared}
    → Reach n p
    → Call p.shared m
    → p.shared.waiter ≢ returned
    → m.waiter ≡ returned
    → (x : ℕ) → count x m.enqueued ≡ count x m.finished
wait_all-finished {p} r (test_passes asks empty idle) ne e =
    let h = Reach-IsAccounted r in all_finished h empty (sym h.counted ∙ idle)
wait_all-finished r (enqueue task free s) ne e = absurd (ne e)
wait_all-finished r (begin_stop free) ne e = absurd (ne e)
wait_all-finished r (wait_all a) ne e = cc
wait_all-finished r (test_fails a b) ne e = cc
wait_all-finished r (sleep a) ne e = cc
wait_all-finished r (spurious a) ne e = cc
wait_all-finished r (go_on a) ne e = cc

abbrev pub AllGone : List Worker → Type 0
AllGone [] = Unit
AllGone (w ∷ workers) = (w ≡ gone) × AllGone workers

gone-idle : (workers : List Worker) → AllGone workers → sum is_active workers ≡ 0
gone-idle [] h = refl
gone-idle (w ∷ workers) (e, h) = omega (arith, ap is_active e, gone-idle workers h)

pub some_gone : (workers : List Worker) → workers ≢ [] → AllGone workers → sum is_gone workers ≢ 0
some_gone [] ne h q = absurd (ne refl)
some_gone (w ∷ workers) ne (e, h) q = omega (arith, ap is_gone e, q)

-- When the destructor has joined the workers, and there was one at least, every task that was enqueued
-- has finished, as many times as it was enqueued.
pub joined-finished :
    {n : ℕ} {p : Pool}
    → Reach n p
    → p.workers ≢ []
    → AllGone p.workers
    → (x : ℕ) → count x p.shared.enqueued ≡ count x p.shared.finished
joined-finished {p} r ne all_gone =
    let h = Reach-IsAccounted r in
    all_finished h (h.drained (some_gone p.workers ne all_gone)).1 (gone-idle p.workers all_gone)
