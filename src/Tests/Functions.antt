-- ===== src/Tests/Functions.antt =====
-- async.rs over the second manager, and the ends of futures, on concrete inputs.
use mlua_scheduler.Base.{
  ℕ, ◌≡◌, ◌≢◌, ◌⊎◌, refl, true, some, [], ◌∷◌, ◌==◌, Result, ok, err, String, Removed, filter,
  if◌then◌else◌,
}
use mlua_scheduler.Collections
use Prim.Native.String.{◌++◌ as str_append}
use mlua_scheduler.Deps.Mlua.{other, add_async}
use mlua_scheduler.Deps.Futures.{Outcome, text, opaque, completed, panicked}
use mlua_scheduler.Deps.Samples.{sample, sample_mlua}
use mlua_scheduler.V2.State.{
  World, Loop, new, new_locals, call, call_core, push_event, mark_cancelled, check_lua, respond,
  calls,
}
use mlua_scheduler.V2.Resumes.{Resumes}
use mlua_scheduler.V2.Arms.{
  falls, handle_event, handle_wait, finish, handle_clear, handle_wake, handle_deferred, resumed,
  wake_args, drop_key, uncancel, drain,
}
use mlua_scheduler.V2.Run.{
  round_of, on_event, on_async, start, happen, round, select, after_select, head, update_done,
  all_empty, handle_async, handle_outcome, resume_completed,
}
use mlua_scheduler.V2.Reach.{before}
use mlua_scheduler.V2.Outcomes.{pooled, select_async_cases}
use mlua_scheduler.AsyncFunction.Defs.{Func, async_called}
use mlua_scheduler.AsyncFunction.Calls.{func_called, func_entered, Method}
use mlua_scheduler.V1.State as V1State
use mlua_scheduler.Deps.BinaryHeap.{BinaryHeap}
use mlua_scheduler.Deps.SampleHeap.{sample_heap}
use mlua_scheduler.AsyncFunction.Enters.{func_called-enters}
use mlua_scheduler.Tests.Start.{Program, opened, stepped, waits2}

-- A future waits for its turn.
abbrev asyncs : Program
asyncs = ([], add_async 5 8) ∷ []

abbrev asyncs1 : Loop
asyncs1 = stepped (round_of (on_event 0)) (opened asyncs)

abbrev eight : Outcome ℕ String
eight = completed (ok 8)

select_async_cases_example :
    (w : World) × (select (on_async 3) asyncs1 ≡ some (falls (pooled asyncs1 w [])))
    × Removed (5, 8) asyncs1.async_queue []
    × (((told : String) × ((eight ≡ panicked (text told)) ⊎ (eight ≡ panicked (opaque told)))
          × Resumes "DeferredThread" 5
              (sample.resume_error 5 (str_append "Error in async thread: " told) asyncs1.lua)
              asyncs1.world
              w)
        ⊎ ((r : Result ℕ String) × (eight ≡ completed r)
            × (sample.status asyncs1.lua 5 ≢ other)
            × (w ≡ asyncs1.world))
        ⊎ ((v : ℕ) × (eight ≡ completed (ok v))
            × (sample.status asyncs1.lua 5 ≡ other)
            × Resumes "DeferredThread" 5 (sample.resume 5 v asyncs1.lua) asyncs1.world w)
        ⊎ ((e : String) × (eight ≡ completed (err e))
            × (sample.status asyncs1.lua 5 ≡ other)
            × Resumes "DeferredThread" 5 (sample.resume_error 5 e asyncs1.lua) asyncs1.world w))
unfolding start before new new_locals call call_core push_event mark_cancelled head check_lua happen
    round select after_select handle_event handle_wait handle_wake handle_deferred handle_clear
    handle_async handle_outcome resume_completed drain wake_args resumed calls respond drop_key
    uncancel finish update_done all_empty Collections.insert Collections.insert_key
    Collections.get_or_default Collections.get Collections.contains Collections.remove filter
select_async_cases_example =
    select_async_cases 3 asyncs1 {t = 5} {f = 8} {o = eight} {rest = []} refl refl

-- A function that refuses the argument 0, and fails on 1.
abbrev picky : Func ℕ ℕ
picky = record {
  from_lua_multi = λ v. if v == 0 then err "no argument" else ok v;
  func = λ n. if n == 1 then err "failed" else ok n;
  into_lua_multi = ok;
}

instance abbrev heap : BinaryHeap V1State.WaitingThread V1State.at_most
heap = sample_heap ⦃m = sample_mlua⦄

abbrev first_manager : V1State.World
first_manager = record { lua = []; inner = V1State.new; responses = [] }

abbrev second_manager : World
second_manager = record { lua = []; core = new; responses = [] }

func_called-enters_example :
    (a : ℕ) × (u : Loop) × (picky.from_lua_multi 4 ≡ ok a)
    × (select
          (on_event 7)
          (record waits2 { world = (func_called picky (λ a. a) true 5 4 waits2.world).1 })
        ≡ some (falls u))
    × (u.async_queue ≡ (5, a) ∷ waits2.async_queue)
    × (u.events ≡ [])
    × (u.lua ≡ waits2.lua)
unfolding start before new new_locals call call_core push_event mark_cancelled head check_lua happen
    round select after_select handle_event handle_wait handle_wake handle_deferred handle_clear
    handle_async handle_outcome resume_completed drain wake_args resumed calls respond drop_key
    uncancel finish update_done all_empty Collections.insert Collections.insert_key
    Collections.get_or_default Collections.get Collections.contains Collections.remove filter
    func_called func_entered async_called
func_called-enters_example =
    func_called-enters picky (λ a. a) 5 4 7 waits2
      {w = (func_called picky (λ a. a) true 5 4 waits2.world).1} refl refl

-- A method of objects that are numbers.
abbrev adds : Method ℕ ℕ ℕ
adds = record { from_lua_multi = λ v. ok (v, 2); method = λ this n. ok n; into_lua_multi = ok }
