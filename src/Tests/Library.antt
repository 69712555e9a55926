-- ===== src/Tests/Library.antt =====
-- The library `task` over the second manager, from calls to runs, on concrete inputs.
use mlua_scheduler.Base.{ℕ, ◌≤◌, ◌≡◌, refl, none, some, [], filter}
use mlua_scheduler.Collections
use mlua_scheduler.Deps.Samples.{sample}
use mlua_scheduler.V2.State.{
  Loop, new, new_locals, call, call_core, push_event, mark_cancelled, check_lua, respond, calls,
}
use mlua_scheduler.V2.Resumes.{Resumes}
use mlua_scheduler.V2.Arms.{
  falls, handle_event, handle_wait, finish, handle_clear, handle_wake, handle_deferred, resumed,
  wake_args, drop_key, uncancel, drain,
}
use mlua_scheduler.V2.Run.{
  on_event, on_deferred, start, happen, round, select, after_select, head, update_done, all_empty,
  handle_async, handle_outcome, resume_completed,
}
use mlua_scheduler.V2.Reach.{before}
use mlua_scheduler.V2.Sleeps.{Sleeps}
use mlua_scheduler.TaskLib.Defs.{
  thread, function, to_thread, defer, defer_thread, delay, delay_thread, wait,
}
use mlua_scheduler.TaskLib.Defers.{defer-runs}
use mlua_scheduler.TaskLib.Delays.{delay-runs, wait-runs}
use mlua_scheduler.Tests.Start.{opened}
use mlua_scheduler.Tests.Calls.{nanoseconds}

-- A manager that waits with nothing to do.
abbrev idle : Loop
idle = opened []

defer-runs_example :
    (u v : Loop) × (round (on_event 0) (record idle { world = (defer (function 8) 4 idle.world).1 })
      ≡ some (falls u))
    × (u.events ≡ [])
    × (u.lua ≡ [])
    × (u.responses ≡ [])
    × (select on_deferred u ≡ some (falls v))
    × (v.deferred_queue ≡ [])
    × Resumes "DeferredThread" 8 (sample.resume 8 4 []) u.world v.world
unfolding start before new new_locals call call_core push_event mark_cancelled head check_lua happen
    round select after_select handle_event handle_wait handle_wake handle_deferred handle_clear
    handle_async handle_outcome resume_completed drain wake_args resumed calls respond drop_key
    uncancel finish update_done all_empty Collections.insert Collections.insert_key
    Collections.get_or_default Collections.get Collections.contains Collections.remove filter defer
    defer_thread to_thread
defer-runs_example =
    defer-runs (function 8) 4 8 0 idle {w = (defer (function 8) 4 idle.world).1} refl refl refl refl
      refl refl

delay-runs_example :
    (d : ℕ) × (some 60 ≡ some d)
    × ((delay nanoseconds 60 (thread 5) 7 100 idle.world).1.responses ≡ [])
    × Sleeps 200 d 270 5 7
        (record idle { world = (delay nanoseconds 60 (thread 5) 7 100 idle.world).1 })
unfolding start before new new_locals call call_core push_event mark_cancelled head check_lua happen
    round select after_select handle_event handle_wait handle_wake handle_deferred handle_clear
    handle_async handle_outcome resume_completed drain wake_args resumed calls respond drop_key
    uncancel finish update_done all_empty Collections.insert Collections.insert_key
    Collections.get_or_default Collections.get Collections.contains Collections.remove filter delay
    delay_thread to_thread
delay-runs_example =
    delay-runs nanoseconds 60 (thread 5) 7 5 100 200 270 idle
      {w = (delay nanoseconds 60 (thread 5) 7 100 idle.world).1} refl refl refl refl refl refl

wait-runs_example :
    (d : ℕ) × (50_000_000 ≤ d)
    × ((wait nanoseconds none 5 100 idle.world).1.responses ≡ [])
    × Sleeps 200 d 270 5
        (sample.from_f64 (sample.as_secs_f64 170))
        (record idle { world = (wait nanoseconds none 5 100 idle.world).1 })
unfolding start before new new_locals call call_core push_event mark_cancelled head check_lua happen
    round select after_select handle_event handle_wait handle_wake handle_deferred handle_clear
    handle_async handle_outcome resume_completed drain wake_args resumed calls respond drop_key
    uncancel finish update_done all_empty Collections.insert Collections.insert_key
    Collections.get_or_default Collections.get Collections.contains Collections.remove filter wait
wait-runs_example =
    wait-runs nanoseconds none 5 100 200 270 idle {w = (wait nanoseconds none 5 100 idle.world).1}
      refl refl refl refl refl refl
