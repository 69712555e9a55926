-- ===== src/Tests/Parallel.antt =====
-- The second manager (taskmgr_v2.rs) with pushes from other threads, and told to stop while idle.
use mlua_scheduler.Base.{◌≡◌, refl, true, false, none, some, [], ◌∷◌, filter}
use mlua_scheduler.Collections
use mlua_scheduler.Deps.Mlua.{stop}
use mlua_scheduler.Deps.Samples.{sample}
use mlua_scheduler.V2.State.{
  Loop, SchedulerEvent, deferred_thread, new, new_locals, call, call_core, push_event,
  mark_cancelled, check_lua, respond, calls,
}
use mlua_scheduler.V2.Arms.{
  falls, handle_event, handle_wait, finish, handle_clear, handle_wake, handle_deferred, resumed,
  wake_args, drop_key, uncancel, drain,
}
use mlua_scheduler.V2.Run.{
  outside, on_event, start, happen, round, select, after_select, head, update_done, all_empty,
  handle_async, handle_outcome, resume_completed,
}
use mlua_scheduler.V2.Reach.{before}
use mlua_scheduler.V2.Parallel as Parallel
use mlua_scheduler.V2.Parallel.{
  Move, pusher, take, other, body_end, checking, waiting, before as about_to_push, pushed, begin,
}
use mlua_scheduler.V2.Settles.{run-settles, pushed_between, pushed_between-done}
use mlua_scheduler.V2.Uninterrupted.{of_loop, with_event, run-of_loop}
use mlua_scheduler.V2.Stop.{told_to_stop, stop-waits}
use mlua_scheduler.Tests.Start.{opened, fresh, waits2}
use mlua_scheduler.V2.Reach.{begun}

abbrev event : SchedulerEvent
event = deferred_thread 5 7

-- The event is taken, and its thread stays in another queue.
run-settles_example : false ≡ false
unfolding Parallel.run Parallel.move Parallel.push_step Parallel.push_move Parallel.end_step
    Parallel.take_step Parallel.other_step
run-settles_example =
    run-settles (event ∷ [])
      (other true
        ∷ body_end
        ∷ pusher 0
        ∷ pusher 0
        ∷ body_end
        ∷ take false
        ∷ body_end
        ∷ body_end
        ∷ [])
      refl refl tt

pushed_between-done_example :
    ((pushed_between event [] false []).at ≡ waiting)
    × ((pushed_between event [] false []).done ≡ true)
    × ((pushed_between event [] false []).events ≡ event ∷ [])
pushed_between-done_example = pushed_between-done event [] false [] refl

run-of_loop_example :
    (Parallel.run (pusher 0 ∷ pusher 0 ∷ []) (of_loop waits2 checking (about_to_push event ∷ []))
      ≡ of_loop (with_event event waits2) checking (pushed ∷ []))
    × (Parallel.run (body_end ∷ body_end ∷ []) (of_loop waits2 checking [])
        ≡ of_loop (update_done waits2) waiting [])
run-of_loop_example = run-of_loop event waits2 checking []

abbrev idle : Loop
idle = opened []

stop-waits_example :
    (happen (outside idle.lua stop) idle ≡ some (falls (told_to_stop idle)))
    × ((told_to_stop idle).is_cancelled ≡ true)
    × ((told_to_stop idle).is_running ≡ true)
    × (round (on_event 3) (told_to_stop idle) ≡ none)
unfolding start before new new_locals call call_core push_event mark_cancelled head check_lua happen
    round select after_select handle_event handle_wait handle_wake handle_deferred handle_clear
    handle_async handle_outcome resume_completed drain wake_args resumed calls respond drop_key
    uncancel finish update_done all_empty Collections.insert Collections.insert_key
    Collections.get_or_default Collections.get Collections.contains Collections.remove filter
stop-waits_example =
    stop-waits {w = fresh} (on_event 3) refl (begun [] refl)
      (record { no_events = refl; no_waits = refl; no_asyncs = refl; no_deferred = refl })
