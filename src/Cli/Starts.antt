-- ===== src/Cli/Starts.antt =====
-- crates/cli/src/main.rs: the program's manager is one of those that the theorems on the second
-- manager are about.
use mlua_scheduler.Base.{◌≡◌, refl, ap, ◌∙◌, true, false, some, List}
use mlua_scheduler.Deps.Mlua.{Call}
use mlua_scheduler.Deps.Runtime.{Runtime}
use mlua_scheduler.V2.State.{World, Loop, check_lua, new, new_locals}
use mlua_scheduler.V2.Arms.{falls}
use mlua_scheduler.V2.Run.{start, head}
use mlua_scheduler.V2.Reach.{Reach, begun, before, before-Fresh, new-Fresh, Fresh}
use mlua_scheduler.TaskManager.{run_in_task}
use mlua_scheduler.Ext.Scheduler.{Scheduler, new_scheduler, attach}
use mlua_scheduler.Cli.Program.{make_scheduler, begin}

module _ ⦃rt : Runtime⦄ where
  open rt use {Thread, Values, Error, Fut, State}

  -- The state in which `run` first waits.
  abbrev first_wait : World → Loop
  unfolding new_locals
  first_wait w = record {
    world = record w { core = record w.core { rx = false; cancel_rx = false; is_running = true } };
    locals = new_locals;
  }

  start-falls :
      (w : World)
      → Fresh w
      → w.is_cancelled ≡ false
      → check_lua w ≡ true
      → start w ≡ falls (first_wait w)
  unfolding start head
  start-falls w v on alive =
      rw (v.receiver, v.cancel_receiver, v.stopped, on, check_lua, alive) refl

  abbrev attached_to : World → Scheduler
  attached_to w = record {
    task_manager = w;
    exit_code = 0;
    attached = true;
    manager_attached = true;
  }

  make_scheduler-alive : (w : World) → check_lua w ≡ true → make_scheduler w ≡ some (attached_to w)
  unfolding make_scheduler attach new_scheduler
  make_scheduler-alive w alive = rw (make_scheduler, attach, alive) refl

  begin-start :
      (s : Scheduler) (later : World)
      → s.is_running ≡ false
      → s.is_cancelled ≡ false
      → check_lua s.task_manager ≡ true
      → begin s later ≡ some (start later)
  unfolding begin run_in_task
  begin-start s later idle on alive = rw (idle, on, alive) refl

  -- Where Lua is alive and the manager was made by `new`, the set-up of the program does not panic:
  -- the scheduler is attached to the machine and holds that manager. Whatever other code calls before
  -- the task of the manager is first polled, as long as Lua lives and no one stops it: that task is
  -- spawned, and it comes to wait in a state that `Reach` speaks of, in which it is running.
  pub make_scheduler-begins :
      (w : World) (cs : List (State × Call Thread Values Error Fut))
      → w.core ≡ new
      → check_lua w ≡ true
      → (before cs w).is_cancelled ≡ false
      → check_lua (before cs w) ≡ true
      → (s : Scheduler) × (t : Loop) × (make_scheduler w ≡ some s)
        × (s.attached ≡ true)
        × (s.manager_attached ≡ true)
        × (s.task_manager ≡ w)
        × (begin s (before cs w) ≡ some (falls t))
        × Reach w t
        × (t.is_running ≡ true)
  unfolding new first_wait
  make_scheduler-begins w cs e alive on living =
      let p = start-falls (before cs w) (before-Fresh cs w (new-Fresh w e)) on living in
      (
        attached_to w,
        first_wait (before cs w),
        make_scheduler-alive w alive,
        refl,
        refl,
        refl,
        begin-start (attached_to w) (before cs w) (ap (λ c. c.is_running) e)
              (ap (λ c. c.is_cancelled) e) alive
            ∙ ap some p,
        begun cs p,
        refl,
      )
