-- ===== src/V1/Refine.antt =====
-- taskmgr_v1.rs refines the specification: `run`, whatever Lua code and other tasks do.
use mathlib.Core.Option.{some-injective}
use mlua_scheduler.Base.{
  ℕ, zero, suc, ◌≡◌, refl, ap, subst, ◌∙◌, ◌||◌, some, List, [], ◌∷◌, map, Option-cases, Bool-cases,
  inl, inr,
}
use mathlib.Core.List.{map-append}
use mlua_scheduler.Deps.Mlua.{Mlua}
use mlua_scheduler.Deps.BinaryHeap.{BinaryHeap}
use mlua_scheduler.Contract.Bag.{put_all, put_all-put, put_all-snoc}
use mlua_scheduler.Contract.Asks.{LuaMay}
use mlua_scheduler.Contract.Spec.{Rules, Steps, done, Steps-trans, Steps-same, Steps-drop}
use mlua_scheduler.V1.State.{WaitingThread, DeferredThread, at_most, World, check_lua}
use mlua_scheduler.V1.Process.{
  Others, Turn, Tick, yield_now, process_deferred_thread, process_waiting_thread, waiting_loop,
  pop_back, deferred_loop, process, stopping, run_loop, run,
}
use mlua_scheduler.V1.Queues.{pop_back-eq-some, next_waiting_cases}
use mlua_scheduler.V1.View.{
  view, op_args, OthersMay, waiting_job, queued_job, futures, yield_now-Steps,
}
use mlua_scheduler.V1.Serve.{MayLose, process_deferred_thread-Steps, process_waiting_thread-Steps}

module _ ⦃m : Mlua⦄ ⦃h : BinaryHeap WaitingThread at_most⦄ where
  -- What other tasks ask for in a tick is what the rules allow.
  pub record TickMay (D : Rules m.Thread m.Values m.Error m.Fut) (t : Tick) : Type 0 where
    pub on_wait : (j : ℕ) → OthersMay D (t.waits j).others
    pub on_deferred : (j : ℕ) → OthersMay D (t.defers j)
    pub at_tick : OthersMay D t.after

module _ ⦃m : Mlua⦄ ⦃h : BinaryHeap WaitingThread at_most⦄
    (D : Rules m.Thread m.Values m.Error m.Fut) (lose : MayLose D) (lua : LuaMay D) where
  open m use {Thread, Values, Error, Fut, State, status, resume, from_f64, as_secs_f64}
  open h use {items, Heap}

  -- The world with another waiting queue.
  abbrev with_waits : Heap → World → World
  with_waits q w = record w { inner = record w.inner { waiting_queue = q } }

  waiting_loop-Steps :
      (fuel : ℕ) (env : ℕ → Turn) (w : World) {v : World}
      → ((i : ℕ) → OthersMay D (env i).others)
      → waiting_loop fuel env w ≡ some v
      → Steps D (view w) (view v)
  unfolding waiting_loop put_all
  waiting_loop-Steps zero env w k r = cc
  waiting_loop-Steps (suc fuel) env w {v} k r =
      elim (next_waiting_cases (env 0).now w.waiting_queue) [
        | inl (n, later) ↦
            subst (λ u. Steps D (view w) (view u)) (some-injective _ _ (rw (n, waiting_loop) at r))
              (done (view w))
        | inr (e, q, n, due, order, behind) ↦
            let taken =
              ap
                (λ es.
                  put_all (map waiting_job es)
                    (put_all (map queued_job w.deferred_queue) (futures w.inner)))
                order in
            let go = rw (n, waiting_loop) at r in
            elim (Bool-cases (check_lua (with_waits q w))) [
              | inl alive ↦
                  Steps-trans
                    (process_waiting_thread-Steps D lose lua (env 0) e (with_waits q w) (view w)
                      (k 0) taken refl)
                    (waiting_loop-Steps fuel (λ i. env (suc i))
                      (process_waiting_thread (env 0) e (with_waits q w)) (λ i. k (suc i))
                      (rw alive at go))
              | inr dead ↦
                  subst (λ u. Steps D (view w) (view u)) (some-injective _ _ (rw dead at go))
                    (Steps-drop {t = view (with_waits q w)} (waiting_job e)
                      ((lose.dead w.lua dead).waits e.thread (op_args e.op) tt) taken refl)
            ]
      ]

  abbrev with_deferred : List DeferredThread → World → World
  with_deferred ds w = record w { inner = record w.inner { deferred_queue = ds } }

  deferred_loop-Steps :
      (fuel : ℕ) (env : ℕ → Others) (w : World) {v : World}
      → ((i : ℕ) → OthersMay D (env i))
      → deferred_loop fuel env w ≡ some v
      → Steps D (view w) (view v)
  unfolding deferred_loop
  deferred_loop-Steps zero env w k r = cc
  deferred_loop-Steps (suc fuel) env w {v} k r = elim (Option-cases (pop_back w.deferred_queue)) [
    | inl n ↦
        subst (λ u. Steps D (view w) (view u)) (some-injective _ _ (rw (n, deferred_loop) at r))
          (done (view w))
    | inr (p, n) ↦
        let taken =
          ap
            (λ ds.
              put_all (map waiting_job (items w.waiting_queue))
                (put_all (map queued_job ds) (futures w.inner)))
            (pop_back-eq-some w.deferred_queue {d = p.0} {rest = p.1} n)
          ∙ ap
              (λ js.
                put_all (map waiting_job (items w.waiting_queue)) (put_all js (futures w.inner)))
              (map-append queued_job p.1 (p.0 ∷ []))
          ∙ ap (put_all (map waiting_job (items w.waiting_queue)))
              (put_all-snoc (map queued_job p.1) (queued_job p.0) (futures w.inner))
          ∙ put_all-put (map waiting_job (items w.waiting_queue)) (queued_job p.0)
              (put_all (map queued_job p.1) (futures w.inner)) in
        let go = rw (n, deferred_loop) at r in
        elim (Bool-cases (check_lua (with_deferred p.1 w))) [
          | inl alive ↦
              Steps-trans
                (process_deferred_thread-Steps D lose lua (env 0) p.0 (with_deferred p.1 w) (view w)
                  (k 0) taken refl)
                (deferred_loop-Steps fuel (λ i. env (suc i))
                  (process_deferred_thread (env 0) p.0 (with_deferred p.1 w)) (λ i. k (suc i))
                  (rw alive at go))
          | inr dead ↦
              subst (λ u. Steps D (view w) (view u)) (some-injective _ _ (rw dead at go))
                (Steps-drop {t = view (with_deferred p.1 w)} (queued_job p.0)
                  ((lose.dead w.lua dead).queued p.0.thread p.0.args tt) taken refl)
        ]
  ]

  process-Steps :
      (fuel : ℕ) (waits : ℕ → Turn) (defers : ℕ → Others) (w : World) {v : World}
      → ((i : ℕ) → OthersMay D (waits i).others)
      → ((i : ℕ) → OthersMay D (defers i))
      → process fuel waits defers w ≡ some v
      → Steps D (view w) (view v)
  unfolding process
  process-Steps fuel waits defers w k l r = elim (Option-cases (waiting_loop fuel waits w)) [
    | inl n ↦ cc (rw (n, process) at r)
    | inr (u, n) ↦
        Steps-trans (waiting_loop-Steps fuel waits w k n)
          (deferred_loop-Steps fuel defers u l (rw (n, process) at r))
  ]

  run_loop-Steps :
      (ticks fuel : ℕ) (env : ℕ → Tick) (w : World) {v : World}
      → ((i : ℕ) → TickMay D (env i))
      → run_loop ticks fuel env w ≡ some v
      → Steps D (view w) (view v)
  unfolding run_loop
  run_loop-Steps zero fuel env w k r = cc
  run_loop-Steps (suc ticks) fuel env w {v} k r = elim (Bool-cases (stopping w)) [
    | inl stops ↦
        subst (λ u. Steps D (view w) (view u)) (some-injective _ _ (rw (stops, run_loop) at r))
          (Steps-same refl refl)
    | inr goes ↦
        let go = rw (goes, run_loop) at r in
        elim (Option-cases (process fuel (env 0).waits (env 0).defers w)) [
          | inl n ↦ cc (rw n at go)
          | inr (u, n) ↦
              Steps-trans
                (process-Steps fuel (env 0).waits (env 0).defers w (k 0).on_wait (k 0).on_deferred
                  n)
                (Steps-trans (yield_now-Steps D (env 0).after u (k 0).at_tick) (
                  run_loop-Steps ticks fuel (λ i. env (suc i)) (yield_now (env 0).after u)
                    (λ i. k (suc i)) (rw n at go)))
        ]
  ]

  -- A run of the manager that ends is a sequence of steps of the specification
  -- (Contract.Spec.Steps), for all rules that allow what Lua code and other tasks ask for, and by
  -- which these may be dropped: the jobs of threads that can be over, and all where Lua can be
  -- dead. So a job comes into the bag, or a report is made without a job, only where it was asked
  -- for; and a job is dropped only where it was cancelled or cleared, or for these two reasons.
  pub run_refines :
      (ticks fuel : ℕ) (env : ℕ → Tick) (w : World) {v : World}
      → ((i : ℕ) → TickMay D (env i))
      → run ticks fuel env w ≡ some v
      → Steps D (view w) (view v)
  unfolding run
  run_refines ticks fuel env w {v} k r = elim (Bool-cases (w.is_running || stopping w)) [
    | inl quick ↦
        subst (λ u. Steps D (view w) (view u)) (some-injective _ _ (rw quick at r)) (done (view w))
    | inr goes ↦ run_loop-Steps ticks fuel env _ k (rw goes at r)
  ]
