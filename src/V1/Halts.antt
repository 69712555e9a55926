-- ===== src/V1/Halts.antt =====
-- taskmgr_v1.rs: `run` comes to an end once it is stopped, for Lua code that does not defer.
use native.Mathlib.Nat.{le_trans}
use mlua_scheduler.Base.{
  ℕ, zero, suc, ◌≤◌, ◌<◌, ◌≡◌, refl, true, false, some, arith, length, Bool-cases, inl, inr,
}
use mlua_scheduler.Deps.Mlua.{Mlua}
use mlua_scheduler.Deps.BinaryHeap.{BinaryHeap}
use mlua_scheduler.V1.State.{WaitingThread, at_most, World, check_lua}
use mlua_scheduler.V1.Process.{Tick, yield_now, process, stopping, run_loop, run}
use mlua_scheduler.V1.Measure.{LuaKeeps, OthersKeep, yield_now-le}
use mlua_scheduler.V1.Due.{due, due_up_to}
use mlua_scheduler.V1.Ends.{deferred_count, process-ends}

module _ ⦃m : Mlua⦄ ⦃h : BinaryHeap WaitingThread at_most⦄ where
  -- A pass and the tick after it, whose clock stays at or below a limit, in which other tasks let no
  -- thread wait for a time up to the limit and defer none.
  pub record Calm (limit : ℕ) (tick : Tick) : Type 0 where
    pub on_clock : (i : ℕ) → (tick.waits i).now ≤ limit
    pub waits_late : (i : ℕ) → OthersKeep (due_up_to limit) (tick.waits i).others
    pub waits_defer : (i : ℕ) → OthersKeep deferred_count (tick.waits i).others
    pub defers_late : (i : ℕ) → OthersKeep (due_up_to limit) (tick.defers i)
    pub defers_defer : (i : ℕ) → OthersKeep deferred_count (tick.defers i)
    pub after_late : OthersKeep (due_up_to limit) tick.after
    pub after_defer : OthersKeep deferred_count tick.after

  -- What the end of `run` leaves.
  abbrev pub halted : World → World
  halted w = record w { inner = record w.inner { is_running = false } }

  pub run_loop-halted :
      (n fuel : ℕ) (env : ℕ → Tick) (w : World)
      → stopping w ≡ true
      → run_loop (suc n) fuel env w ≡ some (halted w)
  unfolding run_loop
  run_loop-halted n fuel env w s = rw (s, run_loop) refl

  -- A pass with the tick after it ends and leaves no more threads deferred, or due up to the limit.
  pass_and_tick :
      (fuel limit : ℕ) (tick : Tick) (w : World)
      → LuaKeeps (due_up_to limit)
      → LuaKeeps deferred_count
      → Calm limit tick
      → due limit w.inner < fuel
      → length w.deferred_queue < fuel
      → (u : World) × (process fuel tick.waits tick.defers w ≡ some u)
        × (due limit (yield_now tick.after u).inner ≤ due limit w.inner)
        × (length (yield_now tick.after u).deferred_queue ≤ length w.deferred_queue)
  pass_and_tick fuel limit tick w late none_deferred c enough enough_deferred =
      let (u, p, over, fewer_due, fewer) =
        process-ends fuel limit tick.waits tick.defers w late none_deferred c.on_clock c.waits_late
          c.waits_defer c.defers_late c.defers_defer enough enough_deferred in
      (
        u,
        p,
        le_trans (yield_now-le (due_up_to limit) tick.after u c.after_late) fewer_due,
        le_trans (yield_now-le deferred_count tick.after u c.after_defer) fewer,
      )

  run_loop-halts :
      (k fuel limit : ℕ) (env : ℕ → Tick) (w : World)
      → LuaKeeps (due_up_to limit)
      → LuaKeeps deferred_count
      → ((i : ℕ) → Calm limit (env i))
      → ((v : World) → stopping (yield_now (env k).after v) ≡ true)
      → due limit w.inner < fuel
      → length w.deferred_queue < fuel
      → (v : World) × (run_loop (suc (suc k)) fuel env w ≡ some v)
        × (v.is_running ≡ false)
        × (stopping v ≡ true)
  unfolding run_loop stopping check_lua
  run_loop-halts zero fuel limit env w late none_deferred calm stops enough enough_deferred =
      elim (Bool-cases (stopping w)) [
        | inl s ↦ (halted w, run_loop-halted 1 fuel env w s, refl, s)
        | inr on ↦
            let (u, p, fewer_due, fewer) =
              pass_and_tick fuel limit (env 0) w late none_deferred (calm 0) enough
                enough_deferred in
            let next = yield_now (env 0).after u in
            let ends = run_loop-halted 0 fuel (λ i. env (suc i)) next (stops u) in
            (halted next, rw (on, run_loop, p) ends, refl, stops u)
      ]
  run_loop-halts (suc k) fuel limit env w late none_deferred calm stops enough enough_deferred =
      elim (Bool-cases (stopping w)) [
        | inl s ↦ (halted w, run_loop-halted (suc (suc k)) fuel env w s, refl, s)
        | inr on ↦
            let (u, p, fewer_due, fewer) =
              pass_and_tick fuel limit (env 0) w late none_deferred (calm 0) enough
                enough_deferred in
            let (v, q, idle, off) =
              run_loop-halts k fuel limit (λ i. env (suc i)) (yield_now (env 0).after u) late
                none_deferred (λ i. calm (suc i)) stops (omega (arith, fewer_due, enough))
                (omega (arith, fewer, enough_deferred)) in
            (v, rw (on, run_loop, p) q, idle, off)
      ]

  -- For any Lua code: a manager that does not run is run; the clock of its passes stays at or below
  -- a limit, neither Lua code nor other tasks let a thread wait for a time up to the limit or defer
  -- one, and after what other tasks do at the k-th tick, counted from zero, the manager is stopped
  -- or Lua is dead. Then `run` ends within one round for each tick, with fuel for one round more
  -- than there are threads that wait for a time up to the limit and one more than there are
  -- deferred threads. It is then not marked as running, and it is stopped or Lua is dead.
  pub run-halts :
      (k fuel limit : ℕ) (env : ℕ → Tick) (w : World)
      → LuaKeeps (due_up_to limit)
      → LuaKeeps deferred_count
      → ((i : ℕ) → Calm limit (env i))
      → ((v : World) → stopping (yield_now (env k).after v) ≡ true)
      → due limit w.inner < fuel
      → length w.deferred_queue < fuel
      → w.is_running ≡ false
      → (v : World) × (run (suc (suc k)) fuel env w ≡ some v)
        × (v.is_running ≡ false)
        × (stopping v ≡ true)
  unfolding run due
  run-halts k fuel limit env w late none_deferred calm stops enough enough_deferred idle =
      elim (Bool-cases (stopping w)) [
        | inl s ↦ (w, rw (idle, s, run) refl, idle, s)
        | inr on ↦
            let (v, p, quiet_end, off) =
              run_loop-halts k fuel limit env
                (record w { inner = record w.inner { is_running = true } }) late none_deferred calm
                stops enough enough_deferred in
            (v, rw (idle, on, run) p, quiet_end, off)
      ]
