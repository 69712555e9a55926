-- ===== src/V1/Starve.antt =====
-- taskmgr_v1.rs: the deferred threads of `process`, where one of them defers itself at each run.
use mlua_scheduler.Base.{
  ℕ, zero, suc, ◌≡◌, refl, sym, ap, ◌∙◌, true, none, some, List, [], ◌∷◌, ◌++◌, All, false, ◌⊎◌,
  inl, inr,
}
use mlua_scheduler.Deps.Mlua.{Mlua, Call, add_deferred_thread, stop, other}
use mlua_scheduler.Deps.BinaryHeap.{BinaryHeap}
use mlua_scheduler.V1.State.{
  WaitingThread, DeferredThread, at_most, World, check_lua, call, call_inner, calls, ran, respond,
  add_deferred,
}
use mlua_scheduler.V1.Process.{
  Others, Turn, yield_now, process_deferred_thread, pop_back, waiting_loop, deferred_loop, process,
  Tick, stopping, run_loop, run,
}
use mlua_scheduler.V1.Queues.{pop_back-snoc, next_waiting_cases}

module _ ⦃m : Mlua⦄ where
  open m use {Thread, Values, State, resume, status, is_alive}

  -- A thread that is never over, and whose code does one thing at each run: `task.defer` of itself.
  -- Lua stays alive.
  pub record DefersItself (d : DeferredThread) : Type 0 where
    pub defers :
        (l : State) → (resume d.thread d.args l).calls ≡ add_deferred_thread d.thread d.args ∷ []
    pub goes_on : (l : State) → status l d.thread ≡ other
    pub alive : (l : State) → is_alive l ≡ true

module _ ⦃m : Mlua⦄ ⦃h : BinaryHeap WaitingThread at_most⦄ where
  open m use {Thread, Values, Error, Fut, State, resume, status}
  open h use {items}

  -- Other tasks only stop the manager.
  abbrev pub OnlyStops : Others → Type 0
  OnlyStops = All (λ (l, c). c ≡ stop)

  stop-queue :
      (c : Call Thread Values Error Fut) (l : State) (w : World)
      → c ≡ stop
      → (call c (record w { lua = l })).deferred_queue ≡ w.deferred_queue
  unfolding call call_inner
  stop-queue c l w e = ap (λ a. (call a (record w { lua = l })).deferred_queue) e

  yield_now-queue :
      (os : Others) (w : World) → OnlyStops os → (yield_now os w).deferred_queue ≡ w.deferred_queue
  unfolding yield_now
  yield_now-queue [] w h = refl
  yield_now-queue ((l, c) ∷ os) w (e, h) =
      yield_now-queue os (call c (record w { lua = l })) h ∙ stop-queue c l w e

  ran-queue :
      (d : DeferredThread) (w : World)
      → DefersItself d
      → (ran (resume d.thread d.args w.lua) w).deferred_queue ≡ w.deferred_queue ++ d ∷ []
  unfolding ran calls call call_inner add_deferred
  ran-queue d w self =
      ap (λ cs. (calls cs (record w { lua = (resume d.thread d.args w.lua).lua })).deferred_queue)
        (self.defers w.lua)

  -- To serve it puts it back.
  process-queue :
      (os : Others) (d : DeferredThread) (w : World)
      → DefersItself d
      → OnlyStops os
      → (process_deferred_thread os d w).deferred_queue ≡ w.deferred_queue ++ d ∷ []
  unfolding process_deferred_thread respond
  process-queue os d w self stops =
      rw (self.goes_on w.lua, process_deferred_thread)
        (yield_now-queue os _ stops ∙ ran-queue d w self)

  deferred_loop-never :
      (fuel : ℕ) (env : ℕ → Others) (d : DeferredThread) (ds : List DeferredThread) (w : World)
      → DefersItself d
      → ((i : ℕ) → OnlyStops (env i))
      → w.deferred_queue ≡ ds ++ d ∷ []
      → deferred_loop fuel env w ≡ none
  unfolding deferred_loop check_lua
  deferred_loop-never zero env d ds w self stops e = refl
  deferred_loop-never (suc fuel) env d ds w self stops e =
      rw (ap pop_back e ∙ pop_back-snoc ds d, deferred_loop, self.alive w.lua)
        (deferred_loop-never fuel (λ i. env (suc i)) d ds
          (process_deferred_thread (env 0) d
            (record w { inner = record w.inner { deferred_queue = ds } }))
          self (λ i. stops (suc i)) (process-queue (env 0) d _ self (stops 0)))

  none_waits-loop :
      (fuel : ℕ) (env : ℕ → Turn) (w : World)
      → items w.waiting_queue ≡ []
      → (waiting_loop fuel env w ≡ none) ⊎ (waiting_loop fuel env w ≡ some w)
  unfolding waiting_loop
  none_waits-loop zero env w e = inl refl
  none_waits-loop (suc fuel) env w e = elim (next_waiting_cases (env 0).now w.waiting_queue) [
    | inl (p, later) ↦ inr (rw (p, waiting_loop) refl)
    | inr (x, q, p, due, order, behind) ↦ cc (sym e ∙ order)
  ]

  process-never :
      (fuel : ℕ) (turns : ℕ → Turn) (env : ℕ → Others) (d : DeferredThread)
      (ds : List DeferredThread) (w : World)
      → DefersItself d
      → ((i : ℕ) → OnlyStops (env i))
      → items w.waiting_queue ≡ []
      → w.deferred_queue ≡ ds ++ d ∷ []
      → process fuel turns env w ≡ none
  unfolding process
  process-never fuel turns env d ds w self stops none_waits e =
      elim (none_waits-loop fuel turns w none_waits) [
        | inl p ↦ rw (p, process) refl
        | inr p ↦ rw (p, process) (deferred_loop-never fuel env d ds w self stops e)
      ]

  not_stopping :
      (w : World) (d : DeferredThread)
      → DefersItself d
      → w.is_cancelled ≡ false
      → stopping w ≡ false
  unfolding stopping check_lua
  not_stopping w d self on = rw (on, self.alive w.lua)

  run_loop-never :
      (ticks fuel : ℕ) (env : ℕ → Tick) (d : DeferredThread) (ds : List DeferredThread) (w : World)
      → DefersItself d
      → ((i : ℕ) → OnlyStops ((env 0).defers i))
      → items w.waiting_queue ≡ []
      → w.deferred_queue ≡ ds ++ d ∷ []
      → w.is_cancelled ≡ false
      → run_loop ticks fuel env w ≡ none
  unfolding run_loop
  run_loop-never zero fuel env d ds w self stops none_waits e on = refl
  run_loop-never (suc ticks) fuel env d ds w self stops none_waits e on =
      rw (not_stopping w d self on, run_loop)
        (rw (process-never fuel (env 0).waits (env 0).defers d ds w self stops none_waits e))

  -- A manager that does not run and is not stopped is run while no thread waits, and the deferred
  -- thread that it takes first is one that defers itself at each run; Lua stays alive. Then `run`
  -- never ends, whatever the fuel: `process` does not come to an end of its first pass, even if other
  -- tasks stop the manager while it yields.
  pub run-never :
      (ticks fuel : ℕ) (env : ℕ → Tick) (d : DeferredThread) (ds : List DeferredThread) (w : World)
      → DefersItself d
      → ((i : ℕ) → OnlyStops ((env 0).defers i))
      → items w.waiting_queue ≡ []
      → w.deferred_queue ≡ ds ++ d ∷ []
      → w.is_running ≡ false
      → w.is_cancelled ≡ false
      → (process fuel (env 0).waits (env 0).defers w ≡ none) × (run ticks fuel env w ≡ none)
  unfolding run
  run-never ticks fuel env d ds w self stops none_waits e idle on = (
    process-never fuel (env 0).waits (env 0).defers d ds w self stops none_waits e,
    rw (idle, not_stopping w d self on, run)
        (run_loop-never ticks fuel env d ds
          (record w { inner = record w.inner { is_running = true } }) self stops none_waits e on),
  )
