-- ===== src/Tests/Start.antt =====
-- Concrete programs, and the states that their managers reach.
use mlua_scheduler.Base.{ℕ, refl, none, some, List, [], ◌∷◌, String, filter}
use mlua_scheduler.Collections
use mlua_scheduler.Deps.Mlua.{
  Call, add_waiting_thread, add_deferred_thread, cancel_task, stop, clear,
}
use mlua_scheduler.Deps.DelayQueue.{Entry}
use mlua_scheduler.Deps.Samples.{sample}
use mlua_scheduler.V2.State.{
  World, Loop, WaitingThread, new, new_locals, call, call_core, push_event, mark_cancelled,
  check_lua, respond, calls,
}
use mlua_scheduler.V2.Arms.{
  Flow, falls, continues, returns, panics, hangs, handle_event, handle_wait, finish, handle_clear,
  handle_wake, handle_deferred, resumed, wake_args, drop_key, uncancel, drain,
}
use mlua_scheduler.V2.Run.{
  Event, round_of, outside, on_event, on_deferred, start, happen, round, select, after_select, head,
  update_done, all_empty, handle_async, handle_outcome, resume_completed,
}
use mlua_scheduler.V2.Reach.{Reach, begun, later, before}

-- What the program does before `run`: a state of the machine and a call, one after the other.
abbrev pub Program : Type 0
Program = List (List ℕ × Call ℕ ℕ String ℕ)

abbrev pub fresh : World
unfolding new
fresh = record { lua = []; core = new; responses = [] }

abbrev pub landed : Flow Loop → Loop → Loop
landed (falls t) s = t
landed (returns t) s = t
landed (hangs t) s = t
landed (continues t) s = t
landed (panics p) s = s

abbrev pub blank : Loop
unfolding new_locals
blank = record { world = fresh; locals = new_locals }

abbrev pub opened : Program → Loop
unfolding start before
opened cs = landed (start (before cs fresh)) blank

abbrev pub stepped : Event → Loop → Loop
unfolding happen
stepped e s = elim (happen e s) [ none ↦ s | some f ↦ landed f s ]

-- The entry that is due first at this time, and the rest.
abbrev pub due_at : ℕ → Loop → Entry WaitingThread × List (Entry WaitingThread)
due_at now s = elim (sample.next now s.wait_queue) [
  | some p ↦ p
  | none ↦ (
    record {
      key = 0;
      deadline = 0;
      value = record { delay_args = none; start_at = 0; thread = 0 };
    },
    [],
  )
]

-- A thread waits for more than two years.
abbrev pub far : Program
far = ([], add_waiting_thread 5 none 70_000_000_000_000_000 0) ∷ []

abbrev pub far0 : Loop
far0 = opened far

pub far0-Reach : Reach fresh far0
unfolding start before new new_locals call call_core push_event mark_cancelled head check_lua happen
    round select after_select handle_event handle_wait handle_wake handle_deferred handle_clear
    handle_async handle_outcome resume_completed drain wake_args resumed calls respond drop_key
    uncancel finish update_done all_empty Collections.insert Collections.insert_key
    Collections.get_or_default Collections.get Collections.contains Collections.remove filter
far0-Reach = begun far refl

-- Two threads wait; then the manager is told to stop.
abbrev pub waits : Program
waits = ([], add_waiting_thread 5 none 10 0) ∷ ([], add_waiting_thread 6 (some 8) 30 0) ∷ []

abbrev pub waits0 : Loop
waits0 = opened waits

pub waits0-Reach : Reach fresh waits0
unfolding start before new new_locals call call_core push_event mark_cancelled head check_lua happen
    round select after_select handle_event handle_wait handle_wake handle_deferred handle_clear
    handle_async handle_outcome resume_completed drain wake_args resumed calls respond drop_key
    uncancel finish update_done all_empty Collections.insert Collections.insert_key
    Collections.get_or_default Collections.get Collections.contains Collections.remove filter
waits0-Reach = begun waits refl

abbrev pub waits1 : Loop
waits1 = stepped (round_of (on_event 0)) waits0

pub waits1-Reach : Reach fresh waits1
unfolding start before new new_locals call call_core push_event mark_cancelled head check_lua happen
    round select after_select handle_event handle_wait handle_wake handle_deferred handle_clear
    handle_async handle_outcome resume_completed drain wake_args resumed calls respond drop_key
    uncancel finish update_done all_empty Collections.insert Collections.insert_key
    Collections.get_or_default Collections.get Collections.contains Collections.remove filter
waits1-Reach = later (round_of (on_event 0)) waits0-Reach refl

abbrev pub waits2 : Loop
waits2 = stepped (round_of (on_event 0)) waits1

pub waits2-Reach : Reach fresh waits2
unfolding start before new new_locals call call_core push_event mark_cancelled head check_lua happen
    round select after_select handle_event handle_wait handle_wake handle_deferred handle_clear
    handle_async handle_outcome resume_completed drain wake_args resumed calls respond drop_key
    uncancel finish update_done all_empty Collections.insert Collections.insert_key
    Collections.get_or_default Collections.get Collections.contains Collections.remove filter
waits2-Reach = later (round_of (on_event 0)) waits1-Reach refl

abbrev pub waits3 : Loop
waits3 = stepped (outside [] stop) waits2

pub waits3-Reach : Reach fresh waits3
unfolding start before new new_locals call call_core push_event mark_cancelled head check_lua happen
    round select after_select handle_event handle_wait handle_wake handle_deferred handle_clear
    handle_async handle_outcome resume_completed drain wake_args resumed calls respond drop_key
    uncancel finish update_done all_empty Collections.insert Collections.insert_key
    Collections.get_or_default Collections.get Collections.contains Collections.remove filter
waits3-Reach = later (outside [] stop) waits2-Reach refl

-- One thread is deferred, and served.
abbrev pub defers : Program
defers = ([], add_deferred_thread 7 3) ∷ []

abbrev pub defers0 : Loop
defers0 = opened defers

pub defers0-Reach : Reach fresh defers0
unfolding start before new new_locals call call_core push_event mark_cancelled head check_lua happen
    round select after_select handle_event handle_wait handle_wake handle_deferred handle_clear
    handle_async handle_outcome resume_completed drain wake_args resumed calls respond drop_key
    uncancel finish update_done all_empty Collections.insert Collections.insert_key
    Collections.get_or_default Collections.get Collections.contains Collections.remove filter
defers0-Reach = begun defers refl

abbrev pub defers1 : Loop
defers1 = stepped (round_of (on_event 0)) defers0

pub defers1-Reach : Reach fresh defers1
unfolding start before new new_locals call call_core push_event mark_cancelled head check_lua happen
    round select after_select handle_event handle_wait handle_wake handle_deferred handle_clear
    handle_async handle_outcome resume_completed drain wake_args resumed calls respond drop_key
    uncancel finish update_done all_empty Collections.insert Collections.insert_key
    Collections.get_or_default Collections.get Collections.contains Collections.remove filter
defers1-Reach = later (round_of (on_event 0)) defers0-Reach refl

abbrev pub defers2 : Loop
defers2 = stepped (round_of on_deferred) defers1

pub defers2-Reach : Reach fresh defers2
unfolding start before new new_locals call call_core push_event mark_cancelled head check_lua happen
    round select after_select handle_event handle_wait handle_wake handle_deferred handle_clear
    handle_async handle_outcome resume_completed drain wake_args resumed calls respond drop_key
    uncancel finish update_done all_empty Collections.insert Collections.insert_key
    Collections.get_or_default Collections.get Collections.contains Collections.remove filter
defers2-Reach = later (round_of on_deferred) defers1-Reach refl

-- One thread waits twice and is cancelled.
abbrev pub cancels : Program
cancels =
    ([], add_waiting_thread 5 none 10 0)
    ∷ ([], add_waiting_thread 5 none 20 0)
    ∷ ([], cancel_task 5)
    ∷ []

abbrev pub cancels0 : Loop
cancels0 = opened cancels

pub cancels0-Reach : Reach fresh cancels0
unfolding start before new new_locals call call_core push_event mark_cancelled head check_lua happen
    round select after_select handle_event handle_wait handle_wake handle_deferred handle_clear
    handle_async handle_outcome resume_completed drain wake_args resumed calls respond drop_key
    uncancel finish update_done all_empty Collections.insert Collections.insert_key
    Collections.get_or_default Collections.get Collections.contains Collections.remove filter
cancels0-Reach = begun cancels refl

abbrev pub cancels1 : Loop
cancels1 = stepped (round_of (on_event 0)) cancels0

pub cancels1-Reach : Reach fresh cancels1
unfolding start before new new_locals call call_core push_event mark_cancelled head check_lua happen
    round select after_select handle_event handle_wait handle_wake handle_deferred handle_clear
    handle_async handle_outcome resume_completed drain wake_args resumed calls respond drop_key
    uncancel finish update_done all_empty Collections.insert Collections.insert_key
    Collections.get_or_default Collections.get Collections.contains Collections.remove filter
cancels1-Reach = later (round_of (on_event 0)) cancels0-Reach refl

abbrev pub cancels2 : Loop
cancels2 = stepped (round_of (on_event 0)) cancels1

pub cancels2-Reach : Reach fresh cancels2
unfolding start before new new_locals call call_core push_event mark_cancelled head check_lua happen
    round select after_select handle_event handle_wait handle_wake handle_deferred handle_clear
    handle_async handle_outcome resume_completed drain wake_args resumed calls respond drop_key
    uncancel finish update_done all_empty Collections.insert Collections.insert_key
    Collections.get_or_default Collections.get Collections.contains Collections.remove filter
cancels2-Reach = later (round_of (on_event 0)) cancels1-Reach refl

-- One thread waits and is cancelled.
abbrev pub lasts : Program
lasts = ([], add_waiting_thread 5 none 10 0) ∷ ([], cancel_task 5) ∷ []

abbrev pub lasts0 : Loop
lasts0 = opened lasts

pub lasts0-Reach : Reach fresh lasts0
unfolding start before new new_locals call call_core push_event mark_cancelled head check_lua happen
    round select after_select handle_event handle_wait handle_wake handle_deferred handle_clear
    handle_async handle_outcome resume_completed drain wake_args resumed calls respond drop_key
    uncancel finish update_done all_empty Collections.insert Collections.insert_key
    Collections.get_or_default Collections.get Collections.contains Collections.remove filter
lasts0-Reach = begun lasts refl

abbrev pub lasts1 : Loop
lasts1 = stepped (round_of (on_event 0)) lasts0

pub lasts1-Reach : Reach fresh lasts1
unfolding start before new new_locals call call_core push_event mark_cancelled head check_lua happen
    round select after_select handle_event handle_wait handle_wake handle_deferred handle_clear
    handle_async handle_outcome resume_completed drain wake_args resumed calls respond drop_key
    uncancel finish update_done all_empty Collections.insert Collections.insert_key
    Collections.get_or_default Collections.get Collections.contains Collections.remove filter
lasts1-Reach = later (round_of (on_event 0)) lasts0-Reach refl

-- One thread is deferred twice.
abbrev pub twice : Program
twice = ([], add_deferred_thread 7 3) ∷ ([], add_deferred_thread 7 4) ∷ []

abbrev pub twice0 : Loop
twice0 = opened twice

pub twice0-Reach : Reach fresh twice0
unfolding start before new new_locals call call_core push_event mark_cancelled head check_lua happen
    round select after_select handle_event handle_wait handle_wake handle_deferred handle_clear
    handle_async handle_outcome resume_completed drain wake_args resumed calls respond drop_key
    uncancel finish update_done all_empty Collections.insert Collections.insert_key
    Collections.get_or_default Collections.get Collections.contains Collections.remove filter
twice0-Reach = begun twice refl

abbrev pub twice1 : Loop
twice1 = stepped (round_of (on_event 0)) twice0

pub twice1-Reach : Reach fresh twice1
unfolding start before new new_locals call call_core push_event mark_cancelled head check_lua happen
    round select after_select handle_event handle_wait handle_wake handle_deferred handle_clear
    handle_async handle_outcome resume_completed drain wake_args resumed calls respond drop_key
    uncancel finish update_done all_empty Collections.insert Collections.insert_key
    Collections.get_or_default Collections.get Collections.contains Collections.remove filter
twice1-Reach = later (round_of (on_event 0)) twice0-Reach refl

abbrev pub twice2 : Loop
twice2 = stepped (round_of (on_event 0)) twice1

pub twice2-Reach : Reach fresh twice2
unfolding start before new new_locals call call_core push_event mark_cancelled head check_lua happen
    round select after_select handle_event handle_wait handle_wake handle_deferred handle_clear
    handle_async handle_outcome resume_completed drain wake_args resumed calls respond drop_key
    uncancel finish update_done all_empty Collections.insert Collections.insert_key
    Collections.get_or_default Collections.get Collections.contains Collections.remove filter
twice2-Reach = later (round_of (on_event 0)) twice1-Reach refl

-- A thread waits, and everything is cleared.
abbrev pub clears : Program
clears = ([], add_waiting_thread 5 none 10 0) ∷ ([], clear) ∷ []

abbrev pub clears0 : Loop
clears0 = opened clears

pub clears0-Reach : Reach fresh clears0
unfolding start before new new_locals call call_core push_event mark_cancelled head check_lua happen
    round select after_select handle_event handle_wait handle_wake handle_deferred handle_clear
    handle_async handle_outcome resume_completed drain wake_args resumed calls respond drop_key
    uncancel finish update_done all_empty Collections.insert Collections.insert_key
    Collections.get_or_default Collections.get Collections.contains Collections.remove filter
clears0-Reach = begun clears refl

abbrev pub clears1 : Loop
clears1 = stepped (round_of (on_event 0)) clears0

pub clears1-Reach : Reach fresh clears1
unfolding start before new new_locals call call_core push_event mark_cancelled head check_lua happen
    round select after_select handle_event handle_wait handle_wake handle_deferred handle_clear
    handle_async handle_outcome resume_completed drain wake_args resumed calls respond drop_key
    uncancel finish update_done all_empty Collections.insert Collections.insert_key
    Collections.get_or_default Collections.get Collections.contains Collections.remove filter
clears1-Reach = later (round_of (on_event 0)) clears0-Reach refl
