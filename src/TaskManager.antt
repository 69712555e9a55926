-- ===== src/TaskManager.antt =====
-- crates/scheduler/src/taskmgr.rs: the methods of TaskManager that start a manager and wait for it.
--
-- The methods that Lua code and other code call while the manager waits are V2.State.call_core and
-- V1.State.call_inner.
use mlua_scheduler.Base.{
  ℕ, suc, ◌≤◌, ◌<◌, ◌≡◌, refl, ap, ◌∙◌, [], length, Bool, true, false, not, ◌||◌, Option, none,
  some, String, Result, ok, err, if◌then◌else◌,
}
use mlua_scheduler.Deps.Mlua.{Mlua, unstop}
use mlua_scheduler.Deps.BinaryHeap.{BinaryHeap}
use mlua_scheduler.Deps.Runtime.{Runtime}
use mlua_scheduler.V1.State as V1State
use mlua_scheduler.V1.State.{WaitingThread, at_most}
use mlua_scheduler.V1.Process.{Tick, run}
use mlua_scheduler.V1.Loops.{Silent}
use mlua_scheduler.V1.Stop.{ticks as stop_ticks, run-stops}
use mlua_scheduler.V2.State.{World, Loop, check_lua}
use mlua_scheduler.V2.Arms.{Flow, panics, no_receiver}
use mlua_scheduler.V2.Run.{start}

module _ ⦃rt : Runtime⦄ where
  -- TaskManager::attach: the manager is stored in the machine, if that is alive.
  unfoldable pub attach : World → Result World String
  unfolding check_lua
  attach w = if check_lua w then ok w else err "Failed to upgrade lua"

  -- TaskManager::run_in_task: none where it returns at once, and else what the spawned task does up
  -- to its first wait, when it is polled in the world `later`.
  unfoldable pub run_in_task : World → (later : World) → Option (Flow Loop)
  unfolding check_lua start
  run_in_task w later =
      let task = start later in
      if w.is_running || w.is_cancelled || not (check_lua w) then none else some task

  -- CoreScheduler::wait_till_done: whether it returns now.
  unfoldable pub done_now : World → Bool
  done_now w = w.done

  -- Two tasks that are spawned before the first one runs: the second panics, since the first has
  -- taken the receivers, whatever the first has done since.
  run_in_task_twice :
      (w later : World)
      → later.rx ≡ false
      → w.is_running ≡ false
      → w.is_cancelled ≡ false
      → check_lua w ≡ true
      → run_in_task w later ≡ some (panics no_receiver)
  unfolding run_in_task
  run_in_task_twice w later taken idle on alive = rw (idle, on, alive, taken)

-- Over the first manager.
module _ ⦃m : Mlua⦄ ⦃h : BinaryHeap WaitingThread at_most⦄ where
  open h use {items}

  -- TaskManager::run_in_task: none where it returns at once, and else what the spawned task comes to,
  -- when it is polled in the world `later`.
  unfoldable pub run_in_task_v1 :
      (ticks fuel : ℕ)
      → (ℕ → Tick)
      → V1State.World
      → (later : V1State.World) → Option (Option V1State.World)
  unfolding V1State.check_lua run
  run_in_task_v1 ticks fuel env w later =
      let task = run ticks fuel env later in
      if w.is_running || w.is_cancelled || not (V1State.check_lua w) then none else some task

  -- `unstop`, and then `run_in_task`
  abbrev started_again :
      (ticks fuel : ℕ) → (ℕ → Tick) → V1State.World → Option (Option V1State.World)
  unfolding V1State.call
  started_again ticks fuel env w =
      let again = V1State.call unstop w in run_in_task_v1 ticks fuel env again again

  unstopped-runs :
      (silent : Silent) (ticks fuel : ℕ) (env : ℕ → Tick) (w : V1State.World)
      → w.is_running ≡ false
      → started_again ticks fuel env w ≡ some (run ticks fuel env (V1State.call unstop w))
  unfolding run_in_task_v1 V1State.call V1State.call_inner V1State.check_lua
  unstopped-runs silent ticks fuel env w idle = rw (idle, silent.alive w.lua) refl

  -- The first manager can be run again. Where Lua code makes no calls, Lua stays alive and `run` has
  -- ended, `unstop` and `run_in_task` spawn it; with a clock that does not go back, and stopped by
  -- other tasks after its k-th tick, it ends again, no longer running, with no deferred thread left
  -- and the same count of async functions.
  started_again-stops :
      (silent : Silent) (k fuel : ℕ) (clock : ℕ → ℕ → ℕ) (l : m.State) (w : V1State.World)
      → ((i j : ℕ) → clock i j ≤ clock i (suc j))
      → length (items w.waiting_queue) < fuel
      → length w.deferred_queue < fuel
      → w.is_running ≡ false
      → (v : V1State.World) × (started_again (suc (suc k)) fuel (stop_ticks silent clock k l) w
          ≡ some (some v))
        × (v.is_running ≡ false)
        × (v.is_cancelled ≡ true)
        × (v.deferred_queue ≡ [])
        × (v.pending_asyncs ≡ w.pending_asyncs)
  unfolding V1State.call V1State.call_inner
  started_again-stops silent k fuel clock l w mono waits defers idle =
      let (v, p, still, off, none_left, count) =
        run-stops silent k fuel clock l (V1State.call unstop w) mono waits defers idle refl in
      (
        v,
        unstopped-runs silent (suc (suc k)) fuel (stop_ticks silent clock k l) w idle ∙ ap some p,
        still,
        off,
        none_left,
        count,
      )
