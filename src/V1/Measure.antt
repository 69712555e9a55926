-- ===== src/V1/Measure.antt =====
-- taskmgr_v1.rs: a number that no call makes larger does not grow while threads are served.
use native.Mathlib.Nat.{le_trans}
use mlua_scheduler.Base.{◌-◌, ℕ, ◌≤◌, List, [], ◌∷◌, All, arith}
use mlua_scheduler.Deps.Mlua.{Mlua, Call, Ran, ThreadStatus, finished, error, other, on_response}
use mlua_scheduler.Deps.BinaryHeap.{BinaryHeap}
use mlua_scheduler.V1.State.{
  WaitOp, wait, delay, WaitingThread, DeferredThread, at_most, TaskManagerInner, World, call,
  call_inner, calls, ran, respond,
}
use mlua_scheduler.V1.Process.{
  Others, Turn, yield_now, process_deferred_thread, process_waiting_thread,
}

module _ ⦃m : Mlua⦄ ⦃h : BinaryHeap WaitingThread at_most⦄ where
  open m use {Thread, Values, Error, Fut, State, resume, status}

  -- A number of the manager's state, and the calls that do not make it larger.
  pub record Measure : Type 1 where
    pub of : TaskManagerInner → ℕ
    pub Keeps : Call Thread Values Error Fut → Type 0
    pub kept :
        (c : Call Thread Values Error Fut) (i : TaskManagerInner)
        → Keeps c
        → of (call_inner c i) ≤ of i

  -- Lua code and other tasks that make only such calls.
  pub record LuaKeeps (measure : Measure) : Type 0 where
    pub on_resume : (t : Thread) (v : Values) (l : State) → All measure.Keeps (resume t v l).calls

  abbrev pub OthersKeep : Measure → Others → Type 0
  OthersKeep measure = All (λ (l, c). measure.Keeps c)

module _ ⦃m : Mlua⦄ ⦃h : BinaryHeap WaitingThread at_most⦄ (measure : Measure) where
  open m use {Thread, Values, Error, Fut, State, resume, status}
  open measure use {of, Keeps, kept}

  call-le :
      (c : Call Thread Values Error Fut) (w : World) → Keeps c → of (call c w).inner ≤ of w.inner
  unfolding call respond
  call-le (on_response label t r) w k = omega arith
  call-le c w k = kept c w.inner k

  calls-le :
      (cs : List (Call Thread Values Error Fut)) (w : World)
      → All Keeps cs
      → of (calls cs w).inner ≤ of w.inner
  unfolding calls
  calls-le [] w ks = omega arith
  calls-le (c ∷ cs) w (k, ks) = le_trans (calls-le cs (call c w) ks) (call-le c w k)

  ran-le :
      (r : Ran Thread Values Error Fut State) (w : World)
      → All Keeps r.calls
      → of (ran r w).inner ≤ of w.inner
  unfolding ran
  ran-le r w ks = calls-le r.calls (record w { lua = r.lua }) ks

  pub yield_now-le :
      (os : Others) (w : World) → OthersKeep measure os → of (yield_now os w).inner ≤ of w.inner
  unfolding yield_now
  yield_now-le [] w ks = omega arith
  yield_now-le ((l, c) ∷ os) w (k, ks) =
      le_trans (yield_now-le os (call c (record w { lua = l })) ks)
        (call-le c (record w { lua = l }) k)

  pub process_deferred_thread-le :
      (os : Others) (d : DeferredThread) (w : World)
      → LuaKeeps measure
      → OthersKeep measure os
      → of (process_deferred_thread os d w).inner ≤ of w.inner
  unfolding process_deferred_thread respond
  process_deferred_thread-le os d w lua ks = by_status (status w.lua d.thread)
    where
      r : Ran Thread Values Error Fut State
      r = resume d.thread d.args w.lua

      by_status :
          (u : ThreadStatus)
          → of
              (elim u as (λ _. World) [
                | finished ↦ w
                | error ↦ w
                | other ↦ yield_now os (respond "DeferredThread" d.thread r.result (ran r w))
              ]).inner
            ≤ of w.inner
      by_status finished = omega arith
      by_status error = omega arith
      by_status other =
          le_trans (yield_now-le os (respond "DeferredThread" d.thread r.result (ran r w)) ks)
            (ran-le r w (lua.on_resume d.thread d.args w.lua))

  pub process_waiting_thread-le :
      (turn : Turn) (e : WaitingThread) (w : World)
      → LuaKeeps measure
      → OthersKeep measure turn.others
      → of (process_waiting_thread turn e w).inner ≤ of w.inner
  unfolding process_waiting_thread respond
  process_waiting_thread-le turn e w lua ks = by_status (status w.lua e.thread) e.op
    where
      elapsed : Values
      elapsed = m.from_f64 (m.as_secs_f64 (turn.now - e.start))

      r : Values → Ran Thread Values Error Fut State
      r args = resume e.thread args w.lua

      runs : (args : Values) → of (ran (r args) w).inner ≤ of w.inner
      runs args = ran-le (r args) w (lua.on_resume e.thread args w.lua)

      by_status :
          (u : ThreadStatus) (o : WaitOp)
          → of
              (elim u as (λ _. World) [
                | finished ↦ w
                | error ↦ w
                | other ↦ elim o as (λ _. World) [
                  | wait ↦
                      yield_now turn.others
                        (respond "WaitingThread" e.thread (r elapsed).result (ran (r elapsed) w))
                  | delay args ↦
                      respond "DelayedThread" e.thread
                        (r args).result
                        (yield_now turn.others (ran (r args) w))
                ]
              ]).inner
            ≤ of w.inner
      by_status finished o = omega arith
      by_status error o = omega arith
      by_status other wait =
          le_trans
            (yield_now-le turn.others
              (respond "WaitingThread" e.thread (r elapsed).result (ran (r elapsed) w)) ks)
            (runs elapsed)
      by_status other (delay args) =
          le_trans (yield_now-le turn.others (ran (r args) w) ks) (runs args)
