-- ===== src/Tests/Managers.antt =====
-- Both managers on the same two threads, which wait once each and are never over.
use mlua_scheduler.Base.{ℕ, zero, suc, ◌≡◌, refl, none, some, List, [], ◌∷◌, String, filter}
use mlua_scheduler.Collections
use mlua_scheduler.Deps.Mlua.{Mlua, Call, add_waiting_thread, other}
use mlua_scheduler.Deps.Runtime.{Runtime}
use mlua_scheduler.Deps.Samples
use mlua_scheduler.Deps.SampleHeap.{sample_heap}
use mlua_scheduler.Contract.Bag.{put, put_all}
use mlua_scheduler.Contract.Tally.{sum, weight}
use mlua_scheduler.Contract.Waits.{only_waits, report_for}
use mlua_scheduler.V2.State.{
  Loop, World, new, new_locals, call, call_core, push_event, mark_cancelled, check_lua, respond,
  calls,
}
use mlua_scheduler.V2.Arms.{
  Flow, falls, handle_event, handle_wait, finish, handle_clear, handle_wake, handle_deferred,
  resumed, wake_args, drop_key, uncancel, drain,
}
use mlua_scheduler.V2.Run.{
  Event, round_of, on_event, on_wake, start, happen, round, select, after_select, head, update_done,
  all_empty, handle_async, handle_outcome, resume_completed,
}
use mlua_scheduler.V2.Reach.{Reach, begun, before}
use mlua_scheduler.V2.Account.{Schedule, start_here, and_then}
use mlua_scheduler.V2.View.{view}
use mlua_scheduler.V1.State as V1State
use mlua_scheduler.V1.Process.{run}
use mlua_scheduler.V1.Stop.{ticks}
use mlua_scheduler.V1.Loops.{Silent}
use mlua_scheduler.V1.View as V1View
use mlua_scheduler.V1.Refine.{TickMay}
use mlua_scheduler.Managers.{Steady, managers_agree}

instance abbrev tireless : Mlua
tireless = record Samples.sample_mlua { status = λ s t. other }

instance abbrev tireless_rt : Runtime
tireless_rt = record Samples.sample { mlua = tireless }

steady : Steady
steady = record {
  no_calls = λ t v l. refl;
  no_error_calls = λ t e l. refl;
  alive = λ l. refl;
  goes_on = λ l t. refl;
}

-- The second manager: two threads wait before it is run.
abbrev fresh : World
unfolding new
fresh = record { lua = []; core = new; responses = [] }

abbrev program : List (List ℕ × Call ℕ ℕ String ℕ)
program = ([], add_waiting_thread 5 none 10 0) ∷ ([], add_waiting_thread 6 (some 8) 30 0) ∷ []

abbrev landed : Flow Loop → Loop → Loop
landed (falls t) s = t
landed _ s = s

abbrev blank : Loop
unfolding new_locals
blank = record { world = fresh; locals = new_locals }

abbrev first_wait : Loop
unfolding start before
first_wait = landed (start (before program fresh)) blank

abbrev stepped : Event → Loop → Loop
unfolding happen
stepped e s = elim (happen e s) [ none ↦ s | some f ↦ landed f s ]

abbrev last_wait : Loop
last_wait = stepped (round_of (on_wake 50)) (
    stepped (round_of (on_wake 20))
      (stepped (round_of (on_event 0)) (stepped (round_of (on_event 0)) first_wait)))

first_wait-Reach : Reach fresh first_wait
unfolding start before new new_locals call call_core push_event mark_cancelled head check_lua happen
    round select after_select handle_event handle_wait handle_wake handle_deferred handle_clear
    handle_async handle_outcome resume_completed drain wake_args resumed calls respond drop_key
    uncancel finish update_done all_empty Collections.insert Collections.insert_key
    Collections.get_or_default Collections.get Collections.contains Collections.remove filter
first_wait-Reach = begun program refl

schedule :
    Schedule first_wait
      (round_of (on_wake 50)
        ∷ round_of (on_wake 20)
        ∷ round_of (on_event 0)
        ∷ round_of (on_event 0)
        ∷ [])
      last_wait
unfolding start before new new_locals call call_core push_event mark_cancelled head check_lua happen
    round select after_select handle_event handle_wait handle_wake handle_deferred handle_clear
    handle_async handle_outcome resume_completed drain wake_args resumed calls respond drop_key
    uncancel finish update_done all_empty Collections.insert Collections.insert_key
    Collections.get_or_default Collections.get Collections.contains Collections.remove filter
schedule =
    and_then (round_of (on_wake 50))
      (and_then (round_of (on_wake 20))
        (and_then (round_of (on_event 0)) (and_then (round_of (on_event 0)) start_here refl) refl)
        refl)
      refl

-- The first manager with the same two threads.
abbrev world : V1State.World
unfolding V1State.new V1State.add_waiting
world = record {
  lua = [];
  inner = V1State.add_waiting 6 (some 8) 30 0 (V1State.add_waiting 5 none 10 0 V1State.new);
  responses = [];
}

silent : Silent
silent = record { no_calls = λ t v l. refl; alive = λ l. refl }

abbrev ran_out : V1State.World
unfolding run
ran_out = elim (run 3 3 (ticks silent (λ i j. 40) 0 []) world) [ none ↦ world | some v ↦ v ]

at_ticks : (i : ℕ) → V1View.OthersMay only_waits (ticks silent (λ i j. 40) 0 [] i).after
at_ticks zero = (tt, tt)
at_ticks (suc i) = tt

others_ask : (i : ℕ) → TickMay only_waits (ticks silent (λ i j. 40) 0 [] i)
others_ask i = record { on_wait = λ j. tt; on_deferred = λ j. tt; at_tick = at_ticks i }

managers_agree_example :
    (sum (report_for (λ t. t) 5) (V1View.view ran_out).reports ≡ 1)
    × (sum (report_for (λ t. t) 5) (view last_wait).reports ≡ 1)
unfolding start before new new_locals call call_core push_event mark_cancelled head check_lua happen
    round select after_select handle_event handle_wait handle_wake handle_deferred handle_clear
    handle_async handle_outcome resume_completed drain wake_args resumed calls respond drop_key
    uncancel finish update_done all_empty Collections.insert Collections.insert_key
    Collections.get_or_default Collections.get Collections.contains Collections.remove filter run
    ran_out world sum weight put put_all
managers_agree_example =
    managers_agree steady 5 3 3 (ticks silent (λ i j. 40) 0 []) world {v = ran_out} {u = fresh}
      others_ask refl refl first_wait-Reach refl schedule (tt, (tt, (tt, (tt, tt)))) refl refl refl
      refl refl refl
