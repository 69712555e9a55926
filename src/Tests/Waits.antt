-- ===== src/Tests/Waits.antt =====
-- taskmgr_v2.rs on concrete calls: waits, cancelled waits, and the end of a run.
use mlua_scheduler.Base.{◌≡◌, refl, true, false, none, some, filter}
use mlua_scheduler.Collections
use mlua_scheduler.Collections.{contains}
use mlua_scheduler.Deps.Mlua.{unstop}
use mlua_scheduler.Deps.Samples.{sample}
use mlua_scheduler.V2.State.{
  Loop, new, new_locals, call, call_core, push_event, mark_cancelled, check_lua, respond, calls,
}
use mlua_scheduler.V2.Arms.{
  falls, panics, no_receiver, handle_event, handle_wait, finish, handle_clear, handle_wake,
  handle_deferred, resumed, wake_args, drop_key, uncancel, drain,
}
use mlua_scheduler.V2.Run.{
  round_of, on_event, on_wake, start, happen, round, select, after_select, head, update_done,
  all_empty, handle_async, handle_outcome, resume_completed,
}
use mlua_scheduler.V2.Reach.{before}
use mlua_scheduler.V2.Keys.{Keyed, Distinct}
use mlua_scheduler.V2.Invariant.{Idle, thread_id}
use mlua_scheduler.V2.Cancel.{Marked, skipped, woken}
use mlua_scheduler.V2.Safety.{done-Idle, wait_keys-Keyed, happen-returns, start_again-panics}
use mlua_scheduler.V2.Wake.{cancel_once, cancel_last_wait}
use mlua_scheduler.Tests.Start.{
  stepped, due_at, waits2, waits2-Reach, waits3, waits3-Reach, defers2, defers2-Reach, cancels2,
  cancels2-Reach, lasts1, lasts1-Reach,
}

done-Idle_example : Idle defers2
unfolding start before new new_locals call call_core push_event mark_cancelled head check_lua happen
    round select after_select handle_event handle_wait handle_wake handle_deferred handle_clear
    handle_async handle_outcome resume_completed drain wake_args resumed calls respond drop_key
    uncancel finish update_done all_empty Collections.insert Collections.insert_key
    Collections.get_or_default Collections.get Collections.contains Collections.remove filter
done-Idle_example = done-Idle refl defers2-Reach refl

wait_keys-Keyed_example :
    Keyed thread_id waits2.wait_keys waits2.wait_queue × Distinct waits2.wait_queue
unfolding new
wait_keys-Keyed_example = wait_keys-Keyed refl waits2-Reach

-- The manager was told to stop, and the next wait ends.
abbrev stopped : Loop
stopped = stepped (round_of (on_wake 50)) waits3

happen-returns_example :
    (waits3.is_running ≡ true) × (stopped.is_running ≡ false) × (stopped.done ≡ true)
unfolding start before new new_locals call call_core push_event mark_cancelled head check_lua happen
    round select after_select handle_event handle_wait handle_wake handle_deferred handle_clear
    handle_async handle_outcome resume_completed drain wake_args resumed calls respond drop_key
    uncancel finish update_done all_empty Collections.insert Collections.insert_key
    Collections.get_or_default Collections.get Collections.contains Collections.remove filter
happen-returns_example = happen-returns {t = stopped} (round_of (on_wake 50)) refl waits3-Reach refl

start_again-panics_example : start (call unstop stopped.world) ≡ panics no_receiver
unfolding start before new new_locals call call_core push_event mark_cancelled head check_lua happen
    round select after_select handle_event handle_wait handle_wake handle_deferred handle_clear
    handle_async handle_outcome resume_completed drain wake_args resumed calls respond drop_key
    uncancel finish update_done all_empty Collections.insert Collections.insert_key
    Collections.get_or_default Collections.get Collections.contains Collections.remove filter
start_again-panics_example =
    start_again-panics {t = stopped} (round_of (on_wake 50)) refl waits3-Reach refl

-- What is left when the first of the two waits has ended.
abbrev once : Loop
once = skipped cancels2 (due_at 50 cancels2).0 (due_at 50 cancels2).1

cancels-Marked : Marked 50 cancels2 (due_at 50 cancels2).0 (due_at 50 cancels2).1
unfolding start before new new_locals call call_core push_event mark_cancelled head check_lua happen
    round select after_select handle_event handle_wait handle_wake handle_deferred handle_clear
    handle_async handle_outcome resume_completed drain wake_args resumed calls respond drop_key
    uncancel finish update_done all_empty Collections.insert Collections.insert_key
    Collections.get_or_default Collections.get Collections.contains Collections.remove filter
cancels-Marked = record { due = refl; alive = refl; goes_on = refl; marked = refl }

cancel_once_example :
    (round (on_wake 50) cancels2 ≡ some (falls once))
    × (t : Loop) × (select (on_wake 60) once ≡ some (falls t))
    × (t.world ≡ woken 60 (due_at 60 once).0 once)
    × (t.wait_queue ≡ (due_at 60 once).1)
unfolding start before new new_locals call call_core push_event mark_cancelled head check_lua happen
    round select after_select handle_event handle_wait handle_wake handle_deferred handle_clear
    handle_async handle_outcome resume_completed drain wake_args resumed calls respond drop_key
    uncancel finish update_done all_empty Collections.insert Collections.insert_key
    Collections.get_or_default Collections.get Collections.contains Collections.remove filter
cancel_once_example =
    cancel_once 50 60 (due_at 50 cancels2).0 (due_at 60 once).0 (due_at 50 cancels2).1
      (due_at 60 once).1 refl cancels2-Reach cancels-Marked refl refl

abbrev last : Loop
last = skipped lasts1 (due_at 50 lasts1).0 (due_at 50 lasts1).1

lasts-Marked : Marked 50 lasts1 (due_at 50 lasts1).0 (due_at 50 lasts1).1
unfolding start before new new_locals call call_core push_event mark_cancelled head check_lua happen
    round select after_select handle_event handle_wait handle_wake handle_deferred handle_clear
    handle_async handle_outcome resume_completed drain wake_args resumed calls respond drop_key
    uncancel finish update_done all_empty Collections.insert Collections.insert_key
    Collections.get_or_default Collections.get Collections.contains Collections.remove filter
lasts-Marked = record { due = refl; alive = refl; goes_on = refl; marked = refl }

cancel_last_wait_example :
    (round (on_wake 50) lasts1 ≡ some (falls last))
    × Idle last
    × (last.done ≡ false)
    × (round (on_event 60) last ≡ none)
unfolding start before new new_locals call call_core push_event mark_cancelled head check_lua happen
    round select after_select handle_event handle_wait handle_wake handle_deferred handle_clear
    handle_async handle_outcome resume_completed drain wake_args resumed calls respond drop_key
    uncancel finish update_done all_empty Collections.insert Collections.insert_key
    Collections.get_or_default Collections.get Collections.contains Collections.remove filter
cancel_last_wait_example =
    cancel_last_wait 50 (due_at 50 lasts1).0 (due_at 50 lasts1).1 (on_event 60) refl lasts1-Reach
      lasts-Marked refl refl refl refl
