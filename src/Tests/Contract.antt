-- ===== src/Tests/Contract.antt =====
-- Both managers against the specification, on concrete runs.
use mathlib.Core.Bool.{false≢true}
use mlua_scheduler.Base.{
  ℕ, zero, suc, ◌≡◌, ◌≢◌, List, String, refl, sym, none, some, [], ◌∷◌, filter,
}
use mlua_scheduler.Collections
use mlua_scheduler.Deps.Mlua.{add_waiting_thread, other}
use mlua_scheduler.Deps.Samples.{sample, sample_mlua}
use mlua_scheduler.Deps.SampleHeap.{sample_heap}
use mlua_scheduler.Contract.Spec.{Rules, Steps, Job, thread_of, wait as wait_job}
use mlua_scheduler.Contract.Asks.{LuaMay}
use mlua_scheduler.Contract.Conserve.{Account}
use mlua_scheduler.V2.State.{
  Loop, new, new_locals, call, call_core, push_event, mark_cancelled, check_lua, respond, calls,
}
use mlua_scheduler.V2.Arms.{
  handle_event, handle_wait, finish, handle_clear, handle_wake, handle_deferred, resumed, wake_args,
  drop_key, uncancel, drain,
}
use mlua_scheduler.V2.Run.{
  Event, round_of, outside, on_event, on_wake, start, happen, round, select, after_select, head,
  update_done, all_empty, handle_async, handle_outcome, resume_completed,
}
use mlua_scheduler.V2.Reach.{before}
use mlua_scheduler.V2.View.{view}
use mlua_scheduler.V2.Marks.{MarksMay}
use mlua_scheduler.V2.Branches.{MayLose}
use mlua_scheduler.V2.Refine.{happen_refines}
use mlua_scheduler.V2.Account.{Schedule, start_here, and_then, Schedule-Account}
use mlua_scheduler.V1.State as V1State
use mlua_scheduler.V1.Process.{run}
use mlua_scheduler.V1.Stop.{ticks}
use mlua_scheduler.V1.Loops.{Silent}
use mlua_scheduler.V1.View as V1View
use mlua_scheduler.V1.Serve as V1Serve
use mlua_scheduler.V1.Refine.{TickMay, run_refines}
use mlua_scheduler.Tests.Start.{waits0, waits0-Reach, waits1, stepped}

-- What a manager that loses no wait may drop.
abbrev NotWait : Job ℕ ℕ ℕ → Type 0
NotWait (wait_job t args) = ⊥
NotWait _ = Unit

-- Rules by which no wait may be dropped, one may be added, and no report made without a job.
abbrev one_asked : Rules ℕ ℕ String ℕ
one_asked = record { may_drop = NotWait; may_add = λ j. j ≡ wait_job 8 none; may_report = λ r. ⊥ }

lua_asks : LuaMay ⦃m = sample_mlua⦄ one_asked
lua_asks = record { on_resume = λ t v l. tt; on_error = λ t e l. tt }

may_lose : MayLose one_asked
may_lose = record { queued = λ t args. tt; over = λ l t f o. tt }

none_marked : MarksMay one_asked waits0.cancel
unfolding start before new new_locals call call_core push_event mark_cancelled head check_lua
    Collections.contains
none_marked t args marked = cc

happen_refines_example : Steps one_asked (view waits0) (view waits1)
unfolding start before new new_locals call call_core push_event mark_cancelled head check_lua happen
    round select after_select handle_event handle_wait handle_wake handle_deferred handle_clear
    handle_async handle_outcome resume_completed drain wake_args resumed calls respond drop_key
    uncancel finish update_done all_empty Collections.insert Collections.insert_key
    Collections.get_or_default Collections.get Collections.contains Collections.remove filter
happen_refines_example =
    happen_refines one_asked may_lose lua_asks (round_of (on_event 0)) tt none_marked refl
      waits0-Reach refl

-- Both waits are entered; then another task asks for a third, and one of the two is due.
abbrev asked : Event
asked = outside [] (add_waiting_thread 8 none 5 0)

abbrev waits3 : Loop
waits3 = stepped asked (stepped (round_of (on_event 0)) waits1)

abbrev waits4 : Loop
waits4 = stepped (round_of (on_wake 50)) waits3

schedule :
    Schedule waits0
      (round_of (on_wake 50) ∷ asked ∷ round_of (on_event 0) ∷ round_of (on_event 0) ∷ [])
      waits4
unfolding start before new new_locals call call_core push_event mark_cancelled head check_lua happen
    round select after_select handle_event handle_wait handle_wake handle_deferred handle_clear
    handle_async handle_outcome resume_completed drain wake_args resumed calls respond drop_key
    uncancel finish update_done all_empty Collections.insert Collections.insert_key
    Collections.get_or_default Collections.get Collections.contains Collections.remove filter
schedule =
    and_then (round_of (on_wake 50))
      (and_then asked
        (and_then (round_of (on_event 0)) (and_then (round_of (on_event 0)) start_here refl) refl)
        refl)
      refl

Schedule-Account_example : Account one_asked (view waits0) (view waits4)
unfolding start before new new_locals call call_core push_event mark_cancelled head check_lua happen
    round select after_select handle_event handle_wait handle_wake handle_deferred handle_clear
    handle_async handle_outcome resume_completed drain wake_args resumed calls respond drop_key
    uncancel finish update_done all_empty Collections.insert Collections.insert_key
    Collections.get_or_default Collections.get Collections.contains Collections.remove filter
Schedule-Account_example =
    Schedule-Account one_asked may_lose lua_asks refl waits0-Reach none_marked schedule
      (tt, (refl, (tt, (tt, tt))))

-- Two threads wait, and two are deferred.
abbrev world : V1State.World
unfolding V1State.new V1State.add_waiting V1State.add_deferred
world = record {
  lua = [];
  inner = V1State.add_deferred 9 2 (
      V1State.add_deferred 7 1
        (V1State.add_waiting 6 (some 8) 30 0 (V1State.add_waiting 5 none 10 0 V1State.new)));
  responses = [];
}

silent : Silent
silent = record { no_calls = λ t v l. refl; alive = λ l. refl }

abbrev ran_out : V1State.World
unfolding run
ran_out = elim (run 3 3 (ticks silent (λ i j. 20) 1 []) world) [ none ↦ world | some v ↦ v ]

abbrev ClosedSomewhere : Job ℕ ℕ ℕ → Type 0
ClosedSomewhere j = (l : List ℕ) × sample_mlua.status l (thread_of j) ≢ other

-- Rules by which the jobs of threads that some machine has closed may be dropped, nothing may be
-- added, and no report made without a job.
abbrev none_asked : Rules ℕ ℕ String ℕ
none_asked = record { may_drop = ClosedSomewhere; may_add = λ j. ⊥; may_report = λ r. ⊥ }

lua_silent : LuaMay ⦃m = sample_mlua⦄ none_asked
lua_silent = record { on_resume = λ t v l. tt; on_error = λ t e l. tt }

at_ticks : (i : ℕ) → V1View.OthersMay none_asked (ticks silent (λ i j. 20) 1 [] i).after
at_ticks zero = tt
at_ticks (suc zero) = (tt, tt)
at_ticks (suc (suc i)) = tt

others_ask : (i : ℕ) → TickMay none_asked (ticks silent (λ i j. 20) 1 [] i)
others_ask i = record { on_wait = λ j. tt; on_deferred = λ j. tt; at_tick = at_ticks i }

loses_closed : V1Serve.MayLose none_asked
loses_closed = record {
  over = λ l. record { waits = λ t a over. (l, over); queued = λ t a over. (l, over) };
  dead = λ l dead. absurd (false≢true (sym dead));
}

run_refines_example : Steps none_asked (V1View.view world) (V1View.view ran_out)
unfolding ran_out world run
run_refines_example =
    run_refines none_asked loses_closed lua_silent 3 3 (ticks silent (λ i j. 20) 1 []) world
      others_ask refl
