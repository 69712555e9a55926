-- ===== src/V1/Stop.antt =====
-- taskmgr_v1.rs: `run`, when Lua code makes no calls, Lua stays alive, and the only thing that other
-- tasks do is to stop the manager.
use mlua_scheduler.Base.{
  ℕ, zero, suc, ◌≤◌, ◌<◌, ◌≡◌, refl, ap, ◌∙◌, true, false, some, [], ◌∷◌, arith, length,
  length-append,
}
use mlua_scheduler.Deps.Mlua.{Mlua, stop}
use mlua_scheduler.Deps.BinaryHeap.{BinaryHeap}
use mlua_scheduler.V1.State.{WaitingThread, at_most, World, check_lua, call, call_inner}
use mlua_scheduler.V1.Process.{Others, Tick, yield_now, process, stopping, run_loop, run}
use mlua_scheduler.V1.Loops.{Silent, quiet}
use mlua_scheduler.V1.Pass.{process_lem}
use mlua_scheduler.V1.Halts.{halted, run_loop-halted}

module _ ⦃m : Mlua⦄ ⦃h : BinaryHeap WaitingThread at_most⦄ where
  -- What other tasks do at the i-th tick: the k-th time, they stop the manager.
  abbrev pub stop_at : ℕ → m.State → ℕ → Others
  stop_at zero l zero = (l, stop) ∷ []
  stop_at zero l (suc i) = []
  stop_at (suc k) l zero = []
  stop_at (suc k) l (suc i) = stop_at k l i

module _ ⦃m : Mlua⦄ ⦃h : BinaryHeap WaitingThread at_most⦄ (silent : Silent) where
  open h use {items}

  abbrev pub ticks : (ℕ → ℕ → ℕ) → ℕ → m.State → ℕ → Tick
  ticks clock k l i = record {
    waits = quiet silent (clock i);
    defers = λ _. [];
    after = stop_at k l i;
  }

  goes_on : (w : World) → w.is_cancelled ≡ false → stopping w ≡ false
  unfolding stopping check_lua
  goes_on w on = rw (on, silent.alive w.lua)

  -- One round of the loop.
  run_loop-step :
      (n fuel : ℕ) (env : ℕ → Tick) (w v : World)
      → w.is_cancelled ≡ false
      → process fuel (env 0).waits (env 0).defers w ≡ some v
      → run_loop (suc n) fuel env w ≡ run_loop n fuel (λ i. env (suc i)) (yield_now (env 0).after v)
  unfolding run_loop
  run_loop-step n fuel env w v on p = rw (goes_on w on, run_loop) (rw p)

  is_over : (w : World) → w.is_cancelled ≡ true → stopping w ≡ true
  unfolding stopping
  is_over w off = rw off

  run_loop-stops :
      (k fuel : ℕ) (clock : ℕ → ℕ → ℕ) (l : m.State) (w : World)
      → ((i j : ℕ) → clock i j ≤ clock i (suc j))
      → length (items w.waiting_queue) < fuel
      → length w.deferred_queue < fuel
      → w.is_cancelled ≡ false
      → (v : World) × (run_loop (suc (suc k)) fuel (ticks clock k l) w ≡ some v)
        × (v.is_running ≡ false)
        × (v.is_cancelled ≡ true)
        × (v.deferred_queue ≡ [])
        × (v.pending_asyncs ≡ w.pending_asyncs)
  unfolding yield_now call call_inner
  run_loop-stops zero fuel clock l w mono waits defers on =
      let (v, p, empty, i, taken, parts, due, late, same) =
        process_lem silent fuel (clock 0) w (mono 0) waits defers in
      let called : World = call stop (record v { lua = l }) in
      (
        halted called,
        run_loop-step 1 fuel (ticks clock 0 l) w v on p
            ∙ run_loop-halted 0 fuel (λ i. ticks clock 0 l (suc i)) called (is_over called refl),
        refl,
        refl,
        empty,
        ap (λ c. c.pending_asyncs) same,
      )
  run_loop-stops (suc k) fuel clock l w mono waits defers on =
      let (v, p, empty, i, taken, parts, due, late, same) =
        process_lem silent fuel (clock 0) w (mono 0) waits defers in
      let (u, q, idle, off, none_left, count) =
        run_loop-stops k fuel (λ j. clock (suc j)) l v (λ j. mono (suc j))
          (omega (arith, ap length parts, length-append taken (items v.waiting_queue)))
          (omega (arith, ap length empty)) (ap (λ c. c.is_cancelled) same ∙ on) in
      (
        u,
        run_loop-step (suc (suc k)) fuel (ticks clock (suc k) l) w v on p ∙ q,
        idle,
        off,
        none_left,
        count ∙ ap (λ c. c.pending_asyncs) same,
      )

  -- For Lua code that makes no calls of the manager and keeps Lua alive, and with nothing else done
  -- by other tasks: a manager that does not run and is not stopped is run; its clock does not go
  -- back, and other tasks stop it after its k-th tick, counted from zero. Then `run` ends, with one
  -- round for each tick and with fuel for one round more than the larger queue has entries. It is
  -- no longer running, no deferred thread is left, and the count of async functions is what it was.
  pub run-stops :
      (k fuel : ℕ) (clock : ℕ → ℕ → ℕ) (l : m.State) (w : World)
      → ((i j : ℕ) → clock i j ≤ clock i (suc j))
      → length (items w.waiting_queue) < fuel
      → length w.deferred_queue < fuel
      → w.is_running ≡ false
      → w.is_cancelled ≡ false
      → (v : World) × (run (suc (suc k)) fuel (ticks clock k l) w ≡ some v)
        × (v.is_running ≡ false)
        × (v.is_cancelled ≡ true)
        × (v.deferred_queue ≡ [])
        × (v.pending_asyncs ≡ w.pending_asyncs)
  unfolding run
  run-stops k fuel clock l w mono waits defers idle on =
      let (v, p, quiet_end, off, none_left, count) =
        run_loop-stops k fuel clock l (record w { inner = record w.inner { is_running = true } })
          mono waits defers on in
      (v, rw (idle, goes_on w on, run) p, quiet_end, off, none_left, count)
