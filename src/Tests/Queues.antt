-- ===== src/Tests/Queues.antt =====
-- taskmgr_v1.rs on concrete queues.
use mlua_scheduler.Base.{
  ℕ, ◌+◌, ◌≡◌, ◌≤◌, ◌<◌, refl, true, false, none, some, List, [], ◌∷◌, ◌++◌, All, arith,
}
use mathlib.Core.List.{foldl}
use mlua_scheduler.Deps.Samples.{sample_mlua}
use mlua_scheduler.Deps.SampleHeap.{sample_heap}
use mlua_scheduler.V1.State.{WaitingThread, TaskManagerInner, World, new, add_waiting, add_deferred}
use mlua_scheduler.V1.Process.{process_deferred_thread, deferred_loop, process, run}
use mlua_scheduler.V1.Pass.{process_lem}
use mlua_scheduler.V1.Stop.{ticks, run-stops}
use mlua_scheduler.V1.Loops.{Silent, deferred_loop_lem, with_inner, quiet}

-- Two threads wait, and two are deferred.
abbrev queued : TaskManagerInner
unfolding new add_waiting add_deferred
queued =
    add_deferred 9 2 (add_deferred 7 1 (add_waiting 6 (some 8) 30 0 (add_waiting 5 none 10 0 new)))

abbrev world : World
world = record { lua = []; inner = queued; responses = [] }

silent : Silent
silent = record { no_calls = λ t v l. refl; alive = λ l. refl }

deferred_loop_lem_example :
    deferred_loop 3 (λ _. []) world
    ≡ some (
        foldl
          (λ v d. process_deferred_thread [] d v)
          (with_inner silent (record world.inner { deferred_queue = [] }) world)
          (record { thread = 9; args = 2 } ∷ record { thread = 7; args = 1 } ∷ []))
unfolding new add_waiting add_deferred
deferred_loop_lem_example =
    deferred_loop_lem silent 3
      (record { thread = 9; args = 2 } ∷ record { thread = 7; args = 1 } ∷ []) world (omega arith)
      refl

process_lem_example :
    (v : World) × (process 3 (quiet silent (λ i. 20 + i)) (λ _. []) world ≡ some v)
    × (v.deferred_queue ≡ [])
    × (i : ℕ) × (taken : List WaitingThread) × (world.waiting_queue.0 ≡ taken ++ v.waiting_queue.0)
    × All (λ e. e.wake_at ≤ 20 + i) taken
    × All (λ e. 20 + i < e.wake_at) v.waiting_queue.0
    × (v.inner ≡ record world.inner { waiting_queue = v.waiting_queue; deferred_queue = [] })
unfolding new add_waiting add_deferred
process_lem_example =
    process_lem silent 3 (λ i. 20 + i) world (λ i. omega arith) (omega arith) (omega arith)

-- Two rounds, each at time 20; the manager is stopped after the second.
run-stops_example :
    (v : World) × (run 3 3 (ticks silent (λ i j. 20) 1 []) world ≡ some v)
    × (v.is_running ≡ false)
    × (v.is_cancelled ≡ true)
    × (v.deferred_queue ≡ [])
    × (v.pending_asyncs ≡ world.pending_asyncs)
unfolding new add_waiting add_deferred
run-stops_example =
    run-stops silent 1 3 (λ i j. 20) [] world (λ i j. omega arith) (omega arith) (omega arith) refl
      refl
