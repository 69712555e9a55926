-- ===== src/Tests/Runs.antt =====
-- The first manager (taskmgr_v1.rs) with threads that defer themselves, and with threads that wait.
use mlua_scheduler.Base.{
  ℕ, zero, suc, true, ◌≡◌, ◌≤◌, ◌⊎◌, false, length, refl, none, some, [], ◌∷◌, ok, arith,
}
use mlua_scheduler.Deps.Mlua.{Mlua, add_deferred_thread, add_waiting_thread, other}
use mlua_scheduler.Deps.Samples.{sample_mlua}
use mlua_scheduler.Deps.SampleHeap.{sample_heap}
use mlua_scheduler.V1.State.{
  DeferredThread, World, check_lua, call, call_inner, new, add_waiting, add_deferred,
}
use mlua_scheduler.V1.Process.{Tick, Turn, yield_now, process, stopping, run}
use mlua_scheduler.V1.Stop.{stop_at}
use mlua_scheduler.V1.Starve.{DefersItself, run-never}
use mlua_scheduler.V1.Due.{due, due_up_to}
use mlua_scheduler.V1.Ends.{deferred_count, process-ends}
use mlua_scheduler.V1.Measure.{LuaKeeps, OthersKeep}
use mlua_scheduler.V1.Halts.{Calm, run-halts}
use mlua_scheduler.Contract.Tally.{sum}

-- Each thread, when it runs, defers itself with the same argument.
abbrev looping : Mlua
looping = record sample_mlua {
  status = λ s t. other;
  resume = λ t v s. record { lua = s; calls = add_deferred_thread t v ∷ []; result = ok v };
}

abbrev looper : DeferredThread ⦃m = looping⦄
looper = record { thread = 9; args = 2 }

defers_itself : DefersItself ⦃m = looping⦄ looper
defers_itself = record { defers = λ l. refl; goes_on = λ l. refl; alive = λ l. refl }

abbrev loops : World ⦃m = looping⦄ ⦃h = sample_heap ⦃m = looping⦄⦄
unfolding new add_deferred
loops = record {
  lua = [];
  inner =
      add_deferred ⦃m = looping⦄ ⦃h = sample_heap ⦃m = looping⦄⦄ 9 2
        (new ⦃m = looping⦄ ⦃h = sample_heap ⦃m = looping⦄⦄);
  responses = [];
}

-- Other tasks stop the manager at each yield.
abbrev stops : ℕ → Tick ⦃m = looping⦄ ⦃h = sample_heap ⦃m = looping⦄⦄
stops i = record {
  waits = λ j. record { now = 20; others = [] };
  defers = λ j. stop_at ⦃m = looping⦄ ⦃h = sample_heap ⦃m = looping⦄⦄ 0 [] 0;
  after = [];
}

run-never_example :
    (process ⦃m = looping⦄ ⦃h = sample_heap ⦃m = looping⦄⦄ 50 (stops 0).waits (stops 0).defers loops
      ≡ none)
    × (run ⦃m = looping⦄ ⦃h = sample_heap ⦃m = looping⦄⦄ 3 50 stops loops ≡ none)
unfolding loops new add_deferred
run-never_example =
    run-never ⦃m = looping⦄ ⦃h = sample_heap ⦃m = looping⦄⦄ 3 50 stops looper [] loops defers_itself
      (λ i. (refl, tt)) refl refl refl refl

-- Each thread, when it runs, waits for 100 from time 40.
abbrev sleeping : Mlua
sleeping = record sample_mlua {
  status = λ s t. other;
  resume =
      λ t v s. record { lua = s; calls = add_waiting_thread t none 100 40 ∷ []; result = ok v };
}

late_lua :
    LuaKeeps ⦃m = sleeping⦄ ⦃h = sample_heap ⦃m = sleeping⦄⦄
      (due_up_to ⦃m = sleeping⦄ ⦃h = sample_heap ⦃m = sleeping⦄⦄ 50)
late_lua = record { on_resume = λ t v l. (omega arith, tt) }

abbrev sleepers : World ⦃m = sleeping⦄ ⦃h = sample_heap ⦃m = sleeping⦄⦄
unfolding new add_waiting
sleepers = record {
  lua = [];
  inner = add_waiting ⦃m = sleeping⦄ ⦃h = sample_heap ⦃m = sleeping⦄⦄ 6 (some 8) 30 0 (
      add_waiting ⦃m = sleeping⦄ ⦃h = sample_heap ⦃m = sleeping⦄⦄ 5 none 10 0
        (new ⦃m = sleeping⦄ ⦃h = sample_heap ⦃m = sleeping⦄⦄));
  responses = [];
}

abbrev at_40 : ℕ → Turn ⦃m = sleeping⦄ ⦃h = sample_heap ⦃m = sleeping⦄⦄
at_40 i = record { now = 40; others = [] }

abbrev sleepers_and_one : World ⦃m = sleeping⦄ ⦃h = sample_heap ⦃m = sleeping⦄⦄
unfolding sleepers
sleepers_and_one = record sleepers {
  inner = add_deferred ⦃m = sleeping⦄ ⦃h = sample_heap ⦃m = sleeping⦄⦄ 7 2 sleepers.inner;
}

defers_none :
    LuaKeeps ⦃m = sleeping⦄ ⦃h = sample_heap ⦃m = sleeping⦄⦄
      (deferred_count ⦃m = sleeping⦄ ⦃h = sample_heap ⦃m = sleeping⦄⦄)
defers_none = record { on_resume = λ t v l. (tt, tt) }

process-ends_example :
    (v : World ⦃m = sleeping⦄ ⦃h = sample_heap ⦃m = sleeping⦄⦄) × (process ⦃m = sleeping⦄
        ⦃h = sample_heap ⦃m = sleeping⦄⦄ 3 at_40
        (λ i. [])
        sleepers_and_one
      ≡ some v)
    × ((v.deferred_queue ≡ [])
        ⊎ (check_lua ⦃m = sleeping⦄ ⦃h = sample_heap ⦃m = sleeping⦄⦄ v ≡ false))
    × (due ⦃m = sleeping⦄ ⦃h = sample_heap ⦃m = sleeping⦄⦄ 50 v.inner ≤ 2)
    × (length v.deferred_queue ≤ 1)
unfolding sleepers_and_one sleepers new add_waiting add_deferred due sum
process-ends_example =
    process-ends ⦃m = sleeping⦄ ⦃h = sample_heap ⦃m = sleeping⦄⦄ 3 50 at_40 (λ i. [])
      sleepers_and_one late_lua defers_none (λ i. omega arith) (λ i. tt) (λ i. tt) (λ i. tt)
      (λ i. tt) (omega arith) (omega arith)

-- Other tasks stop the manager after the second tick.
abbrev sleeps_and_stops : ℕ → Tick ⦃m = sleeping⦄ ⦃h = sample_heap ⦃m = sleeping⦄⦄
sleeps_and_stops i = record {
  waits = at_40;
  defers = λ j. [];
  after = stop_at ⦃m = sleeping⦄ ⦃h = sample_heap ⦃m = sleeping⦄⦄ 1 [] i;
}

ticks-Calm : (i : ℕ) → Calm ⦃m = sleeping⦄ ⦃h = sample_heap ⦃m = sleeping⦄⦄ 50 (sleeps_and_stops i)
ticks-Calm i = record {
  on_clock = λ j. omega arith;
  waits_late = λ j. tt;
  waits_defer = λ j. tt;
  defers_late = λ j. tt;
  defers_defer = λ j. tt;
  after_late = late i;
  after_defer = defer i;
}
  where
    late :
        (i : ℕ)
        → OthersKeep ⦃m = sleeping⦄ ⦃h = sample_heap ⦃m = sleeping⦄⦄
            (due_up_to ⦃m = sleeping⦄ ⦃h = sample_heap ⦃m = sleeping⦄⦄ 50)
            (stop_at ⦃m = sleeping⦄ ⦃h = sample_heap ⦃m = sleeping⦄⦄ 1 [] i)
    late zero = tt
    late (suc zero) = (tt, tt)
    late (suc (suc i)) = tt

    defer :
        (i : ℕ)
        → OthersKeep ⦃m = sleeping⦄ ⦃h = sample_heap ⦃m = sleeping⦄⦄
            (deferred_count ⦃m = sleeping⦄ ⦃h = sample_heap ⦃m = sleeping⦄⦄)
            (stop_at ⦃m = sleeping⦄ ⦃h = sample_heap ⦃m = sleeping⦄⦄ 1 [] i)
    defer zero = tt
    defer (suc zero) = (tt, tt)
    defer (suc (suc i)) = tt

stops_after :
    (v : World ⦃m = sleeping⦄ ⦃h = sample_heap ⦃m = sleeping⦄⦄)
    → stopping ⦃m = sleeping⦄ ⦃h = sample_heap ⦃m = sleeping⦄⦄
        (yield_now ⦃m = sleeping⦄ ⦃h = sample_heap ⦃m = sleeping⦄⦄ (sleeps_and_stops 1).after v)
      ≡ true
unfolding stopping yield_now call call_inner
stops_after v = refl

run-halts_example :
    (v : World ⦃m = sleeping⦄ ⦃h = sample_heap ⦃m = sleeping⦄⦄) × (run ⦃m = sleeping⦄
        ⦃h = sample_heap ⦃m = sleeping⦄⦄ 3 3 sleeps_and_stops sleepers_and_one
      ≡ some v)
    × (v.is_running ≡ false)
    × (stopping ⦃m = sleeping⦄ ⦃h = sample_heap ⦃m = sleeping⦄⦄ v ≡ true)
unfolding sleepers_and_one sleepers new add_waiting add_deferred due sum
run-halts_example =
    run-halts ⦃m = sleeping⦄ ⦃h = sample_heap ⦃m = sleeping⦄⦄ 1 3 50 sleeps_and_stops
      sleepers_and_one late_lua defers_none ticks-Calm stops_after (omega arith) (omega arith) refl
