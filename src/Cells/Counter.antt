-- ===== src/Cells/Counter.antt =====
-- incr_async and decr_async of taskmgr_v1.rs in `send` mode, where the tasks of the JoinSet run on
-- several threads: each is a load and a store of `pending_asyncs`, and other tasks can come between
-- the two. A schedule is the list of the tasks that take a step, in order.
use mlua_scheduler.Base.{ℕ, zero, suc, ◌+◌, ◌-◌, ◌%◌, ◌^◌, List, [], ◌∷◌}
use mlua_scheduler.Cells.Cell.{Cell, get, set}

pub data Op : Type 0 where
  incr decr : Op

-- `current_pending + 1` and `current_pending - 1`, as `usize`.
unfoldable pub next : Op → ℕ → ℕ
next incr v = (v + 1) % 2 ^ 64
next decr v = (v + 2 ^ 64 - 1) % 2 ^ 64

-- Where a task is: before the load, between the load and the store, or after it.
pub data Pc : Type 0 where
  starts : Op → Pc
  loaded : Op → ℕ → Pc
  finished : Op → Pc

unfoldable pub move : Cell ℕ → Pc → Cell ℕ × Pc
unfolding get set next
move c (starts o) = (c, loaded o (get c))
move c (loaded o v) = (set (next o v) c, finished o)
move c (finished o) = (c, finished o)

-- The task at an index takes a step.
unfoldable pub step : ℕ → Cell ℕ × List Pc → Cell ℕ × List Pc
unfolding move
step i (c, []) = (c, [])
step zero (c, p ∷ ps) = let (d, q) = move c p in (d, q ∷ ps)
step (suc i) (c, p ∷ ps) = let (d, qs) = step i (c, ps) in (d, p ∷ qs)

unfoldable pub run : List ℕ → Cell ℕ × List Pc → Cell ℕ × List Pc
unfolding step
run [] s = s
run (i ∷ is) s = run is (step i s)

-- How many tasks of a list have finished an operation.
abbrev pub same : Op → Op → ℕ
same incr incr = 1
same decr decr = 1
same _ _ = 0

abbrev pub ended : Op → Pc → ℕ
ended o (finished p) = same o p
ended o _ = 0

unfoldable pub count_ended : Op → List Pc → ℕ
count_ended o [] = 0
count_ended o (p ∷ ps) = ended o p + count_ended o ps

-- How many of some operations are `o`.
unfoldable pub count : Op → List Op → ℕ
count o [] = 0
count o (p ∷ ps) = same o p + count o ps
