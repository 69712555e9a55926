-- ===== src/Tests/Cells.antt =====
-- The counter of the first manager (taskmgr_v1.rs) under concrete schedules.
use mlua_scheduler.Base.{◌+◌, ◌≤◌, ◌≡◌, refl, false, [], ◌∷◌, arith}
use mlua_scheduler.Deps.Samples.{sample_mlua}
use mlua_scheduler.Deps.SampleHeap.{sample_heap}
use mlua_scheduler.V1.State.{World, new}
use mlua_scheduler.AsyncFunction.Defs.{done_now_v1}
use mlua_scheduler.Cells.Cell as Cell
use mlua_scheduler.Cells.Counter.{incr, decr, next, move, step, run, count_ended, count}
use mlua_scheduler.Cells.Bounds.{run-bounds}
use mlua_scheduler.Cells.Turns.{turns, run-turns}
use mlua_scheduler.Cells.Lost.{ended_at_once, ended_at_once-waits}

-- The second task starts between the two steps of the first, and stores last.
run-bounds_example : (5 ≤ 6 + 1) × (6 ≤ 5 + 1)
unfolding run step move next count_ended count Cell.new Cell.get Cell.set
run-bounds_example =
    run-bounds 5 (decr ∷ incr ∷ []) (0 ∷ 1 ∷ 0 ∷ 1 ∷ []) (omega arith) (omega arith)

run-turns_example : 6 + 1 ≡ 5 + 2
unfolding run step move next count_ended count turns Cell.new Cell.get Cell.set
run-turns_example =
    run-turns 5 (incr ∷ decr ∷ incr ∷ []) (2 ∷ 1 ∷ 0 ∷ []) (omega arith) (omega arith)

-- Three async functions are pending.
abbrev pending : World
unfolding new
pending = record { lua = []; inner = record new { pending_asyncs = 3 }; responses = [] }

ended_at_once-waits_example : done_now_v1 (ended_at_once 3 pending) ≡ false
unfolding pending new
ended_at_once-waits_example = ended_at_once-waits 1 pending refl (omega arith) refl
