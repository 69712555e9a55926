-- ===== src/V1/Process.antt =====
-- taskmgr_v1.rs: `process`, its two loops, and `run`.
--
-- At each `yield_now` and at each tick other tasks run: an `Others` says how they leave the machine
-- and what they call. A loop's i-th round reads the clock and meets the i-th turn of the
-- environment. `none` means that the fuel ran out.
use mlua_scheduler.Base.{
  ℕ, zero, suc, ◌-◌, Bool, true, false, not, ◌||◌, Option, none, some, List, [], ◌∷◌, ltb,
  if◌then◌else◌,
}
use mlua_scheduler.Deps.Mlua.{Mlua, Call, finished, error, other}
use mlua_scheduler.Deps.BinaryHeap.{BinaryHeap}
use mlua_scheduler.V1.State.{
  wait, delay, WaitingThread, at_most, DeferredThread, World, check_lua, call, respond, ran,
}

module _ ⦃m : Mlua⦄ ⦃h : BinaryHeap WaitingThread at_most⦄ where
  open m use {Thread, Values, Error, Fut, State, status, resume, as_secs_f64, from_f64}
  open h use {Heap, pop, peek}

  -- What other tasks do while this one has yielded.
  abbrev pub Others : Type 0
  Others = List (State × Call Thread Values Error Fut)

  pub record Turn : Type 0 where
    pub now : ℕ
    pub others : Others

  unfoldable pub yield_now : Others → World → World
  unfolding call
  yield_now [] w = w
  yield_now ((l, c) ∷ cs) w = yield_now cs (call c (record w { lua = l }))

  unfoldable pub process_deferred_thread : Others → DeferredThread → World → World
  unfolding ran respond yield_now
  process_deferred_thread os d w =
      let r = resume d.thread d.args w.lua in
      let resumed = yield_now os (respond "DeferredThread" d.thread r.result (ran r w)) in
      elim (status w.lua d.thread) [ finished ↦ w | error ↦ w | other ↦ resumed ]

  -- A `task.wait` is reported before the task yields, a `task.delay` after.
  unfoldable pub process_waiting_thread : Turn → WaitingThread → World → World
  unfolding ran respond yield_now
  process_waiting_thread turn t w =
      let waited = resume t.thread (from_f64 (as_secs_f64 (turn.now - t.start))) w.lua in
      let resumed : World = elim t.op [
        | wait ↦
            yield_now turn.others (respond "WaitingThread" t.thread waited.result (ran waited w))
        | delay args ↦
            let r = resume t.thread args w.lua in
            respond "DelayedThread" t.thread r.result (yield_now turn.others (ran r w))
      ] in
      elim (status w.lua t.thread) [ finished ↦ w | error ↦ w | other ↦ resumed ]

  -- The entry to wake, if one is due, and the rest.
  unfoldable pub next_waiting : ℕ → Heap → Option (WaitingThread × Heap)
  next_waiting now q = elim (peek q) [
    | none ↦ pop q
    | some entry ↦ if ltb now entry.wake_at then none else pop q
  ]

  unfoldable pub waiting_loop : ℕ → (ℕ → Turn) → World → Option World
  unfolding next_waiting check_lua process_waiting_thread
  waiting_loop zero env w = none
  waiting_loop (suc fuel) env w =
      let turn = env 0 in
      elim (next_waiting turn.now w.waiting_queue) [
        | none ↦ some w
        | some (entry, rest) ↦
            let popped = record w { inner = record w.inner { waiting_queue = rest } } in
            let others =
              waiting_loop fuel (λ i. env (suc i)) (process_waiting_thread turn entry popped) in
            if check_lua popped then others else some popped
      ]

  -- `pop_back`
  unfoldable pub pop_back : List DeferredThread → Option (DeferredThread × List DeferredThread)
  pop_back [] = none
  pop_back (d ∷ ds) = elim (pop_back ds) [ none ↦ some (d, []) | some (e, es) ↦ some (e, d ∷ es) ]

  unfoldable pub deferred_loop : ℕ → (ℕ → Others) → World → Option World
  unfolding pop_back check_lua process_deferred_thread
  deferred_loop zero env w = none
  deferred_loop (suc fuel) env w = elim (pop_back w.deferred_queue) [
    | none ↦ some w
    | some (d, rest) ↦
        let popped = record w { inner = record w.inner { deferred_queue = rest } } in
        let others =
          deferred_loop fuel (λ i. env (suc i)) (process_deferred_thread (env 0) d popped) in
        if check_lua popped then others else some popped
  ]

  -- The fuel is for each of the two loops.
  unfoldable pub process : ℕ → (ℕ → Turn) → (ℕ → Others) → World → Option World
  unfolding waiting_loop deferred_loop
  process fuel waits defers w = elim (waiting_loop fuel waits w) [
    | none ↦ none
    | some v ↦ deferred_loop fuel defers v
  ]

  pub record Tick : Type 0 where
    pub waits : ℕ → Turn
    pub defers : ℕ → Others
    pub after : Others

  unfoldable pub stopping : World → Bool
  unfolding check_lua
  stopping w = w.is_cancelled || not (check_lua w)

  -- The loop of `run`: `ticks` bounds its rounds, `fuel` those of the loops inside.
  unfoldable pub run_loop : (ticks fuel : ℕ) → (ℕ → Tick) → World → Option World
  unfolding stopping process yield_now
  run_loop zero fuel env w = none
  run_loop (suc ticks) fuel env w =
      let tick = env 0 in
      elim (stopping w) [
        | true ↦ some (record w { inner = record w.inner { is_running = false } })
        | false ↦ elim (process fuel tick.waits tick.defers w) [
          | none ↦ none
          | some v ↦ run_loop ticks fuel (λ i. env (suc i)) (yield_now tick.after v)
        ]
      ]

  unfoldable pub run : (ticks fuel : ℕ) → (ℕ → Tick) → World → Option World
  unfolding stopping run_loop
  run ticks fuel env w =
      if w.is_running || stopping w
      then some w
      else run_loop ticks fuel env (record w { inner = record w.inner { is_running = true } })
