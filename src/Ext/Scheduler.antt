-- ===== src/Ext/Scheduler.antt =====
-- crates/ext/src/lib.rs: the Scheduler, a task manager with an exit code.
--
-- The world of the manager stands for the manager itself; the code of `attach` only stores clones in
-- the machine's application data, here two flags.
use mlua_scheduler.Base.{
  ℕ, ◌%◌, Bool, true, false, not, ◌&&◌, Option, none, some, List, [], ◌∷◌, String, Result, ok, err,
  if◌then◌else◌,
}
use mlua_scheduler.Deps.Mlua.{ThreadStatus, finished, error, other, stop, clear}
use mlua_scheduler.Deps.Runtime.{Runtime}
use mlua_scheduler.V2.State.{World, check_lua, call}
use mlua_scheduler.V2.Arms.{resumed}

module _ ⦃rt : Runtime⦄ where
  open rt use {Thread, Values, Error, resume}

  pub record Scheduler : Type 0 where
    pub task_manager : World
    pub open task_manager use *
    pub exit_code : ℕ
    pub attached : Bool
    pub manager_attached : Bool

  -- Scheduler::new
  unfoldable pub new_scheduler : World → Scheduler
  new_scheduler w = record {
    task_manager = w;
    exit_code = 0;
    attached = false;
    manager_attached = false;
  }

  -- Scheduler::attach, and TaskManager::attach within it
  unfoldable pub attach : Scheduler → Result Scheduler String
  unfolding check_lua
  attach s =
      if check_lua s.task_manager
      then ok (record s { attached = true; manager_attached = true })
      else err "Lua state is not valid"

  -- The code is a `u8`.
  unfoldable pub exit_with_code : ℕ → Scheduler → Scheduler
  unfolding call
  exit_with_code code s = record s {
    task_manager = call stop s.task_manager;
    exit_code = code % 256;
  }

  unfoldable pub exit_with_code_clear : ℕ → Scheduler → Scheduler
  unfolding exit_with_code call
  exit_with_code_clear code s =
      let t = exit_with_code code s in record t { task_manager = call clear t.task_manager }

  unfoldable pub spawn_thread : String → Thread → Values → Scheduler → Scheduler
  unfolding resumed
  spawn_thread label t args s = record s {
    task_manager = resumed label t (resume t args s.lua) s.task_manager;
  }

  -- What the receiver of spawn_thread_and_wait meets: the end of the channel, or a result, with what
  -- the code reads after it: whether Lua is alive, the thread's status, whether more is there.
  pub data Incoming : Type 0 where
    closed : Incoming
    received :
        (result : Result Values Error) (alive : Bool) (status : ThreadStatus) (rx_empty : Bool)
        → Incoming

  abbrev pub is_over : ThreadStatus → Bool
  is_over finished = true
  is_over error = true
  is_over other = false

  -- The loop of spawn_thread_and_wait; `none` where it still waits at the end of what came.
  unfoldable pub wait_loop :
      List Incoming → Option (Result Values Error) → Option (Option (Result Values Error))
  wait_loop [] value = none
  wait_loop (closed ∷ es) value = some value
  wait_loop (received r alive status rx_empty ∷ es) value =
      let rest = wait_loop es (some r) in
      if not alive then some value else if is_over status && rx_empty then some (some r) else rest

  -- Before the loop: the tracker must be there. The tracker's part is Ext.Feedbacks.track_thread,
  -- and the responses go to the feedback by `spawn_thread`.
  unfoldable pub spawn_thread_and_wait :
      (tracker_attached : Bool)
      → String
      → Thread
      → Values
      → List Incoming
      → Scheduler
      → Result (Scheduler × Option (Option (Result Values Error))) String
  unfolding check_lua spawn_thread wait_loop
  spawn_thread_and_wait tracker_attached label t args es s =
      if not (check_lua s.task_manager)
      then err "Lua state is not valid"
      else if not tracker_attached
      then err "ThreadTracker not attached to Lua state"
      else ok (spawn_thread label t args s, wait_loop es none)
