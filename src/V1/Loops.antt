-- ===== src/V1/Loops.antt =====
-- taskmgr_v1.rs: both loops of `process` end, and in which order they serve, when Lua code makes no
-- calls, other tasks do nothing and Lua stays alive.
use mathlib.Core.List.{reverse, reverse-cons, foldl}
use native.Mathlib.Nat.{le_trans}
use mlua_scheduler.Base.{
  ℕ, zero, suc, ◌≤◌, ◌<◌, ◌≡◌, refl, sym, ap, ◌∙◌, true, some, List, [], ◌∷◌, ◌++◌, arith, ◌-◌, All,
  length, inl, inr,
}
use mlua_scheduler.Deps.Mlua.{Mlua, ThreadStatus, finished, error, other}
use mlua_scheduler.Deps.BinaryHeap.{BinaryHeap}
use mlua_scheduler.V1.State.{
  WaitOp, wait, delay, WaitingThread, DeferredThread, at_most, TaskManagerInner, World, ran, calls,
  respond,
}
use mlua_scheduler.V1.Process.{
  Turn, pop_back, process_deferred_thread, process_waiting_thread, deferred_loop, waiting_loop,
}
use mlua_scheduler.V1.Queues.{next_waiting_cases, pop_back-snoc}

module _ ⦃m : Mlua⦄ where
  open m use {Thread, Values, State, resume, is_alive}

  -- Lua code that makes no calls of the manager, in a machine that stays alive.
  pub record Silent : Type 0 where
    pub no_calls : (t : Thread) (v : Values) (l : State) → (resume t v l).calls ≡ []
    pub alive : (l : State) → is_alive l ≡ true

module _ ⦃m : Mlua⦄ ⦃h : BinaryHeap WaitingThread at_most⦄ (silent : Silent) where
  open m use {Thread, Values, Error, Fut, State, resume, status}
  open h use {Heap, items}

  abbrev pub with_inner : TaskManagerInner → World → World
  with_inner c w = record w { inner = c }

  ran-silent :
      (t : Thread) (v : Values) (w : World)
      → ran (resume t v w.lua) w ≡ record w { lua = (resume t v w.lua).lua }
  unfolding ran
  ran-silent t v w =
      ap (λ cs. calls cs (record w { lua = (resume t v w.lua).lua })) (silent.no_calls t v w.lua)

  -- What serving a deferred thread comes to here.
  served : ThreadStatus → DeferredThread → World → World
  served finished d w = w
  served error d w = w
  served other d w =
      let r = resume d.thread d.args w.lua in
      respond "DeferredThread" d.thread r.result (record w { lua = r.lua })

  serve_lem :
      (d : DeferredThread) (w : World)
      → process_deferred_thread [] d w ≡ served (status w.lua d.thread) d w
  unfolding process_deferred_thread served
  serve_lem d w = go (status w.lua d.thread)
    where
      X : World
      X =
          respond "DeferredThread" d.thread (resume d.thread d.args w.lua).result
            (ran (resume d.thread d.args w.lua) w)

      go :
          (u : ThreadStatus)
          → (elim u as (λ _. World) [ finished ↦ w | error ↦ w | other ↦ X ]) ≡ served u d w
      go finished = refl
      go error = refl
      go other = ap (respond "DeferredThread" d.thread _) (ran-silent d.thread d.args w)

  served-inner :
      (u : ThreadStatus) (d : DeferredThread) (c : TaskManagerInner) (w : World)
      → served u d (with_inner c w) ≡ with_inner c (served u d w)
  unfolding served respond
  served-inner finished d c w = refl
  served-inner error d c w = refl
  served-inner other d c w = refl

  -- Serving one deferred thread does not touch the manager's own state.
  pub serve-inner :
      (d : DeferredThread) (c : TaskManagerInner) (w : World)
      → process_deferred_thread [] d (with_inner c w)
        ≡ with_inner c (process_deferred_thread [] d w)
  serve-inner d c w =
      serve_lem d (with_inner c w)
      ∙ served-inner (status w.lua d.thread) d c w
      ∙ ap (with_inner c) (sym (serve_lem d w))

  -- For Lua code that makes no calls of the manager and keeps Lua alive, and with nothing done by
  -- other tasks: the deferred threads are served last in, first out, each once, and none is left:
  -- with fuel for at least one round more than there are threads, the loop ends in the state in
  -- which the threads, newest first, have been served one after the other.
  pub deferred_loop_lem :
      (fuel : ℕ) (newest_first : List DeferredThread) (w : World)
      → length newest_first < fuel
      → w.deferred_queue ≡ reverse newest_first
      → deferred_loop fuel (λ _. []) w
        ≡ some (
            foldl
              (λ v d. process_deferred_thread [] d v)
              (with_inner (record w.inner { deferred_queue = [] }) w)
              newest_first)
  unfolding deferred_loop
  deferred_loop_lem zero ds w enough e = absurd (omega arith)
  deferred_loop_lem (suc fuel) [] w enough e =
      rw (e, deferred_loop)
        (ap (λ ds. some (with_inner (record w.inner { deferred_queue = ds }) w)) e)
  deferred_loop_lem (suc fuel) (d ∷ ds) w enough e =
      rw (last, deferred_loop, silent.alive w.lua)
        (deferred_loop_lem fuel ds next (omega arith) queue
          ∙ ap (λ v. some (foldl serve v ds)) start)
    where
      serve : World → DeferredThread → World
      serve v d = process_deferred_thread [] d v

      rest : TaskManagerInner
      rest = record w.inner { deferred_queue = reverse ds }

      next : World
      next = process_deferred_thread [] d (with_inner rest w)

      last : pop_back w.deferred_queue ≡ some (d, reverse ds)
      last = ap pop_back (e ∙ reverse-cons d ds) ∙ pop_back-snoc (reverse ds) d

      queue : next.deferred_queue ≡ reverse ds
      queue = ap (λ v. v.deferred_queue) (serve-inner d rest w)

      start :
          with_inner (record next.inner { deferred_queue = [] }) next
          ≡ process_deferred_thread [] d (with_inner (record w.inner { deferred_queue = [] }) w)
      start =
          ap (λ v. with_inner (record v.inner { deferred_queue = [] }) v) (serve-inner d rest w)
          ∙ sym (serve-inner d (record w.inner { deferred_queue = [] }) w)

  -- A turn in which other tasks do nothing.
  abbrev pub quiet : (ℕ → ℕ) → ℕ → Turn
  quiet clock i = record { now = clock i; others = [] }

  wake-inner :
      (now : ℕ) (e : WaitingThread) (w : World)
      → (process_waiting_thread (record { now = now; others = [] }) e w).inner ≡ w.inner
  unfolding process_waiting_thread
  wake-inner now e w = go (status w.lua e.thread) e.op
    where
      after : Values → World
      after v = ran (resume e.thread v w.lua) w

      same : (v : Values) → (after v).inner ≡ w.inner
      same v = ap (λ u. u.inner) (ran-silent e.thread v w)

      now_args : Values
      now_args = m.from_f64 (m.as_secs_f64 (now - e.start))

      go :
          (u : ThreadStatus) (o : WaitOp)
          → (elim u as (λ _. World) [
            | finished ↦ w
            | error ↦ w
            | other ↦ elim o as (λ _. World) [
              | wait ↦
                  respond "WaitingThread" e.thread
                    (resume e.thread now_args w.lua).result
                    (after now_args)
              | delay args ↦
                  respond "DelayedThread" e.thread (resume e.thread args w.lua).result (after args)
            ]
          ]).inner
            ≡ w.inner
      go finished o = refl
      go error o = refl
      go other wait = same now_args
      go other (delay args) = same args

  first-le : (clock : ℕ → ℕ) → ((i : ℕ) → clock i ≤ clock (suc i)) → (i : ℕ) → clock 0 ≤ clock i
  first-le clock mono zero = omega arith
  first-le clock mono (suc i) = le_trans (first-le clock mono i) (mono i)

  -- The waiting threads are taken in the order in which the queue gives them: with fuel for one round
  -- more than there are threads and a clock that does not go back, the loop ends; the threads that it
  -- took were due by the last reading of the clock, those that stay were not, and nothing else of the
  -- manager's state has changed.
  pub waiting_loop_lem :
      (fuel : ℕ) (clock : ℕ → ℕ) (w : World)
      → ((i : ℕ) → clock i ≤ clock (suc i))
      → length (items w.waiting_queue) < fuel
      → (v : World) × (waiting_loop fuel (quiet clock) w ≡ some v)
        × (i : ℕ) × (taken : List WaitingThread) × (items w.waiting_queue
            ≡ taken ++ items v.waiting_queue)
        × All (λ e. e.wake_at ≤ clock i) taken
        × All (λ e. clock i < e.wake_at) (items v.waiting_queue)
        × (v.inner ≡ record w.inner { waiting_queue = v.waiting_queue })
  unfolding waiting_loop
  waiting_loop_lem zero clock w mono enough = absurd (omega arith)
  waiting_loop_lem (suc fuel) clock w mono enough =
      elim (next_waiting_cases (clock 0) w.waiting_queue) [
        | inl (p, later) ↦ (w, rw (p, waiting_loop), 0, [], refl, tt, later, refl)
        | inr (e, r, p, due, order, behind) ↦
            let popped = with_inner (record w.inner { waiting_queue = r }) w in
            let next = process_waiting_thread (quiet clock 0) e popped in
            let kept = wake-inner (clock 0) e popped in
            let queue = ap (λ c. items c.waiting_queue) kept in
            let (v, q, i, taken, parts, all_due, later, same) =
              waiting_loop_lem fuel (λ i. clock (suc i)) next (λ i. mono (suc i))
                (omega (arith, ap length queue, ap length order)) in
            (
              v,
              rw (p, waiting_loop, silent.alive w.lua) q,
              suc i,
              e ∷ taken,
              order ∙ ap (◌∷◌ e) (sym queue ∙ parts),
              (le_trans due (first-le clock mono (suc i)), all_due),
              later,
              same
                  ∙ ap (λ (c : TaskManagerInner). record c { waiting_queue = v.waiting_queue })
                      kept,
            )
      ]
