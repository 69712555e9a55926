-- ===== src/Tests/Deferred.antt =====
-- taskmgr_v2.rs on concrete calls: deferred threads, `Clear`, and the work that is left.
use mlua_scheduler.Base.{◌+◌, ◌≡◌, ◌≤◌, ◌⊎◌, refl, true, false, some, [], ◌∷◌, filter}
use mlua_scheduler.Collections
use mlua_scheduler.Collections.{contains, remove}
use mlua_scheduler.Deps.Samples.{sample}
use mlua_scheduler.V2.State.{
  Loop, DeferredThread, new, new_locals, call, call_core, push_event, mark_cancelled, check_lua,
  respond, calls,
}
use mlua_scheduler.V2.Resumes.{Resumes}
use mlua_scheduler.V2.Arms.{
  falls, continues, hangs, handle_event, handle_wait, finish, handle_clear, handle_wake,
  handle_deferred, resumed, wake_args, drop_key, uncancel, drain,
}
use mlua_scheduler.V2.Run.{
  on_event, on_deferred, start, happen, round, select, after_select, head, update_done, all_empty,
  handle_async, handle_outcome, resume_completed,
}
use mlua_scheduler.V2.Reach.{before}
use mlua_scheduler.V2.Deferred.{
  ran_deferred, Without, deferred_turn_cases, deferred_twice, clear-hangs,
}
use mlua_scheduler.V2.Work.{Silent, work}
use mlua_scheduler.V2.Progress.{none_yet, one_more, Rounds-le-work}
use mlua_scheduler.Tests.Start.{waits0, waits0-Reach, waits1, twice2, clears1}

abbrev first : DeferredThread
first = record { thread = 7; args = 3; xid = 7 }

abbrev second : DeferredThread
second = record { thread = 7; args = 4; xid = 7 }

deferred_turn_cases_example :
    (t : Loop) × (t.deferred_queue ≡ second ∷ [])
    × (((contains 7 twice2.cancel ≡ true)
          × (select on_deferred twice2 ≡ some (continues t))
          × Without 7 twice2.cancel t.cancel
          × (t.known_deferred_threads ≡ twice2.known_deferred_threads)
          × (t.lua ≡ twice2.lua)
          × (t.responses ≡ twice2.responses))
        ⊎ ((contains 7 twice2.cancel ≡ false)
            × (contains 7 twice2.known_deferred_threads ≡ true)
            × (select on_deferred twice2 ≡ some (falls t))
            × Without 7 twice2.known_deferred_threads t.known_deferred_threads
            × Resumes "DeferredThread" 7 (sample.resume 7 3 twice2.lua) twice2.world t.world)
        ⊎ ((contains 7 twice2.cancel ≡ false)
            × (contains 7 twice2.known_deferred_threads ≡ false)
            × (select on_deferred twice2 ≡ some (falls t))
            × (t.known_deferred_threads ≡ twice2.known_deferred_threads)
            × (t.world ≡ twice2.world)))
unfolding start before new new_locals call call_core push_event mark_cancelled head check_lua happen
    round select after_select handle_event handle_wait handle_wake handle_deferred handle_clear
    handle_async handle_outcome resume_completed drain wake_args resumed calls respond drop_key
    uncancel finish update_done all_empty Collections.insert Collections.insert_key
    Collections.get_or_default Collections.get Collections.contains Collections.remove filter
deferred_turn_cases_example = deferred_turn_cases twice2 {d = first} {ds = second ∷ []} refl refl

abbrev once : Loop
unfolding resumed remove
once = ran_deferred twice2 first (second ∷ [])

deferred_twice_example :
    (v : Loop) × ((select on_deferred once ≡ some (falls v))
      ⊎ (select on_deferred once ≡ some (continues v)))
    × (v.responses ≡ once.responses)
    × (v.lua ≡ once.lua)
    × (v.deferred_queue ≡ [])
unfolding start before new new_locals call call_core push_event mark_cancelled head check_lua happen
    round select after_select handle_event handle_wait handle_wake handle_deferred handle_clear
    handle_async handle_outcome resume_completed drain wake_args resumed calls respond drop_key
    uncancel finish update_done all_empty Collections.insert Collections.insert_key
    Collections.get_or_default Collections.get Collections.contains Collections.remove filter
deferred_twice_example =
    deferred_twice twice2 once first {d' = second} {ds = []} (second ∷ []) refl refl refl refl refl

clear-hangs_example :
    (t : Loop) × (round (on_event 5) clears1 ≡ some (hangs t))
    × (t.wait_queue ≡ [])
    × (t.deferred_queue ≡ [])
    × (t.events ≡ [])
    × (t.is_running ≡ clears1.is_running)
    × (t.done ≡ clears1.done)
unfolding start before new new_locals call call_core push_event mark_cancelled head check_lua happen
    round select after_select handle_event handle_wait handle_wake handle_deferred handle_clear
    handle_async handle_outcome resume_completed drain wake_args resumed calls respond drop_key
    uncancel finish update_done all_empty Collections.insert Collections.insert_key
    Collections.get_or_default Collections.get Collections.contains Collections.remove filter
clear-hangs_example = clear-hangs 5 clears1 {es = []} refl

silent : Silent
silent = record { no_calls = λ t v l. refl; no_error_calls = λ t e l. refl }

Rounds-le-work_example : 1 + work waits1 ≤ work waits0
unfolding start before new new_locals call call_core push_event mark_cancelled head check_lua happen
    round select after_select handle_event handle_wait handle_wake handle_deferred handle_clear
    handle_async handle_outcome resume_completed drain wake_args resumed calls respond drop_key
    uncancel finish update_done all_empty Collections.insert Collections.insert_key
    Collections.get_or_default Collections.get Collections.contains Collections.remove filter
Rounds-le-work_example =
    Rounds-le-work silent refl waits0-Reach
      (one_more {t = waits0} {u = waits1} (on_event 0) none_yet refl)
