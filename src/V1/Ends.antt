-- ===== src/V1/Ends.antt =====
-- taskmgr_v1.rs: a pass of `process` comes to an end, for Lua code that does not defer.
use mathlib.Core.Option.{some-injective}
use native.Mathlib.Nat.{le_trans}
use mlua_scheduler.Base.{
  ℕ, zero, suc, ◌≤◌, ◌<◌, ◌≡◌, ◌⊎◌, refl, ap, not, false, some, [], ◌∷◌, arith, length,
  length-append, length-filter, Bool-cases, Option-cases, inl, inr,
}
use mlua_scheduler.Deps.Mlua.{Mlua, Call, add_deferred_thread, cancel_task, clear}
use mlua_scheduler.Deps.BinaryHeap.{BinaryHeap}
use mlua_scheduler.V1.State.{
  WaitingThread, at_most, TaskManagerInner, World, check_lua, call_inner, add_waiting, add_deferred,
  cancel, incr_async,
}
use mlua_scheduler.V1.Process.{
  Others, Turn, pop_back, process_deferred_thread, process_waiting_thread, waiting_loop,
  deferred_loop, process,
}
use mlua_scheduler.V1.Queues.{next_waiting_cases, pop_back-eq-none, pop_back-eq-some}
use mlua_scheduler.V1.Measure.{
  Measure, LuaKeeps, OthersKeep, process_deferred_thread-le, process_waiting_thread-le,
}
use mlua_scheduler.V1.Due.{due, due_up_to, waiting_loop-ends}

module _ ⦃m : Mlua⦄ ⦃h : BinaryHeap WaitingThread at_most⦄ where
  open m use {Thread, Values, Error, Fut, same_thread}
  open h use {Heap}

  -- A call that defers no thread.
  abbrev pub NoDefer : Call Thread Values Error Fut → Type 0
  NoDefer (add_deferred_thread t args) = ⊥
  NoDefer _ = Unit

  pub call_inner-deferred :
      (c : Call Thread Values Error Fut) (i : TaskManagerInner)
      → NoDefer c
      → length (call_inner c i).deferred_queue ≤ length i.deferred_queue
  unfolding call_inner add_waiting add_deferred cancel incr_async
  call_inner-deferred (add_deferred_thread t args) i never = absurd never
  call_inner-deferred (cancel_task t) i k =
      length-filter (λ x. not (same_thread x.thread t)) i.deferred_queue
  call_inner-deferred clear i k = omega arith
  call_inner-deferred _ i k = omega arith

  abbrev pub deferred_count : Measure
  deferred_count = record {
    of = λ i. length i.deferred_queue;
    Keeps = NoDefer;
    kept = λ c i. call_inner-deferred c i;
  }

  -- Lua code and other tasks that defer nothing leave no more deferred threads behind.
  waiting_loop-deferred :
      (fuel : ℕ) (env : ℕ → Turn) (w : World) {v : World}
      → LuaKeeps deferred_count
      → ((i : ℕ) → OthersKeep deferred_count (env i).others)
      → waiting_loop fuel env w ≡ some v
      → length v.deferred_queue ≤ length w.deferred_queue
  unfolding waiting_loop
  waiting_loop-deferred zero env w lua keep r = cc
  waiting_loop-deferred (suc fuel) env w {v} lua keep r =
      elim (next_waiting_cases (env 0).now w.waiting_queue) [
        | inl (n, later) ↦ same w (rw (n, waiting_loop) at r)
        | inr (e, q, n, is_over, order, behind) ↦
            let popped = record w { inner = record w.inner { waiting_queue = q } } in
            elim (Bool-cases (check_lua popped)) [
              | inr dead ↦ same popped (rw (n, waiting_loop, dead) at r)
              | inl alive ↦
                  le_trans
                    (waiting_loop-deferred fuel (λ i. env (suc i))
                      (process_waiting_thread (env 0) e popped) lua (λ i. keep (suc i))
                      (rw (n, waiting_loop, alive) at r))
                    (process_waiting_thread-le deferred_count (env 0) e popped lua (keep 0))
            ]
      ]
    where
      same : (u : World) → some u ≡ some v → length v.deferred_queue ≤ length u.deferred_queue
      same u e = omega (arith, ap (λ x. length x.deferred_queue) (some-injective u v e))

  -- After the loop over the deferred threads no more threads wait for a time up to the limit.
  deferred_loop-due :
      (fuel limit : ℕ) (env : ℕ → Others) (w : World) {v : World}
      → LuaKeeps (due_up_to limit)
      → ((i : ℕ) → OthersKeep (due_up_to limit) (env i))
      → deferred_loop fuel env w ≡ some v
      → due limit v.inner ≤ due limit w.inner
  unfolding deferred_loop due
  deferred_loop-due zero limit env w lua keep r = cc
  deferred_loop-due (suc fuel) limit env w {v} lua keep r =
      elim (Option-cases (pop_back w.deferred_queue)) [
        | inl n ↦ same w (rw (n, deferred_loop) at r)
        | inr ((d, rest), n) ↦
            let popped = record w { inner = record w.inner { deferred_queue = rest } } in
            elim (Bool-cases (check_lua popped)) [
              | inr dead ↦ same popped (rw (n, deferred_loop, dead) at r)
              | inl alive ↦
                  le_trans
                    (deferred_loop-due fuel limit (λ i. env (suc i))
                      (process_deferred_thread (env 0) d popped) lua (λ i. keep (suc i))
                      (rw (n, deferred_loop, alive) at r))
                    (process_deferred_thread-le (due_up_to limit) (env 0) d popped lua (keep 0))
            ]
      ]
    where
      same : (u : World) → some u ≡ some v → due limit v.inner ≤ due limit u.inner
      same u e = omega (arith, ap (λ x. due limit x.inner) (some-injective u v e))

  -- The loop over the deferred threads ends, with fuel for one round more than there are.
  pub deferred_loop-ends :
      (fuel : ℕ) (env : ℕ → Others) (w : World)
      → LuaKeeps deferred_count
      → ((i : ℕ) → OthersKeep deferred_count (env i))
      → length w.deferred_queue < fuel
      → (v : World) × (deferred_loop fuel env w ≡ some v)
        × ((v.deferred_queue ≡ []) ⊎ (check_lua v ≡ false))
        × (length v.deferred_queue ≤ length w.deferred_queue)
  unfolding deferred_loop check_lua
  deferred_loop-ends zero env w lua keep enough = absurd (omega arith)
  deferred_loop-ends (suc fuel) env w lua keep enough =
      elim (Option-cases (pop_back w.deferred_queue)) [
        | inl n ↦
            (w, rw (n, deferred_loop) refl, inl (pop_back-eq-none w.deferred_queue n), omega arith)
        | inr ((d, rest), n) ↦
            let popped = record w { inner = record w.inner { deferred_queue = rest } } in
            let next = process_deferred_thread (env 0) d popped in
            let one_less = ap length (pop_back-eq-some w.deferred_queue {d = d} {rest = rest} n) in
            let snoc = length-append rest (d ∷ []) in
            elim (Bool-cases (check_lua popped)) [
              | inr dead ↦ (
                popped,
                rw (n, deferred_loop, dead) refl,
                inr dead,
                omega (arith, one_less, snoc),
              )
              | inl alive ↦
                  let kept =
                    process_deferred_thread-le deferred_count (env 0) d popped lua (keep 0) in
                  let (v, p, over, less) =
                    deferred_loop-ends fuel (λ i. env (suc i)) next lua (λ i. keep (suc i))
                      (omega (arith, kept, one_less, snoc, enough)) in
                  (
                    v,
                    rw (n, deferred_loop, alive) p,
                    over,
                    omega (arith, less, kept, one_less, snoc),
                  )
            ]
      ]

  -- For any Lua code: where the clock of a pass stays at or below a limit, and neither Lua code nor
  -- other tasks let a thread wait for a time up to that limit or defer one, `process` ends, with fuel
  -- for one round more than there are threads that wait for a time up to the limit and one more than
  -- there are deferred threads. Then no deferred thread is left, or Lua has died; and no more threads
  -- than before are deferred, or wait for a time up to the limit.
  pub process-ends :
      (fuel limit : ℕ) (waits : ℕ → Turn) (defers : ℕ → Others) (w : World)
      → LuaKeeps (due_up_to limit)
      → LuaKeeps deferred_count
      → ((i : ℕ) → (waits i).now ≤ limit)
      → ((i : ℕ) → OthersKeep (due_up_to limit) (waits i).others)
      → ((i : ℕ) → OthersKeep deferred_count (waits i).others)
      → ((i : ℕ) → OthersKeep (due_up_to limit) (defers i))
      → ((i : ℕ) → OthersKeep deferred_count (defers i))
      → due limit w.inner < fuel
      → length w.deferred_queue < fuel
      → (v : World) × (process fuel waits defers w ≡ some v)
        × ((v.deferred_queue ≡ []) ⊎ (check_lua v ≡ false))
        × (due limit v.inner ≤ due limit w.inner)
        × (length v.deferred_queue ≤ length w.deferred_queue)
  unfolding process
  process-ends fuel limit waits defers w late none_deferred clock k l n o enough enough_deferred =
      let (u, p, less) = waiting_loop-ends fuel limit waits w late clock k enough in
      let fewer = waiting_loop-deferred fuel waits w {v = u} none_deferred l p in
      let (v, q, over, no_more) =
        deferred_loop-ends fuel defers u none_deferred o (omega (arith, fewer, enough_deferred)) in
      (
        v,
        rw (p, process) q,
        over,
        le_trans (deferred_loop-due fuel limit defers u {v = v} late n q) less,
        le_trans no_more fewer,
      )
