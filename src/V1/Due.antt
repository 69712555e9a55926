-- ===== src/V1/Due.antt =====
-- taskmgr_v1.rs: the loop of `process` over the waiting threads, for any Lua code.
use native.Mathlib.Nat.{le_trans}
use mlua_scheduler.Base.{
  ℕ, zero, suc, ◌+◌, ◌≤◌, ◌<◌, ◌≡◌, refl, ap, not, Bool, some, List, [], ◌∷◌, arith, leb,
  if◌then◌else◌, filter, Bool-cases, inl, inr,
}
use mlua_scheduler.Deps.Mlua.{Mlua, Call, add_waiting_thread, cancel_task, clear}
use mlua_scheduler.Deps.BinaryHeap.{BinaryHeap}
use mlua_scheduler.Contract.Tally.{sum, sum-of_perm}
use mlua_scheduler.V1.State.{
  WaitingThread, at_most, TaskManagerInner, World, check_lua, call_inner, add_waiting, add_deferred,
  cancel, incr_async,
}
use mlua_scheduler.V1.Process.{Turn, process_waiting_thread, waiting_loop}
use mlua_scheduler.V1.Measure.{Measure, LuaKeeps, OthersKeep, process_waiting_thread-le}
use mlua_scheduler.V1.Queues.{next_waiting_cases}

module _ ⦃m : Mlua⦄ where
  open m use {Thread, Values, Error, Fut, State, resume}

  abbrev one_due : (limit n : ℕ) → ℕ
  one_due limit n = if leb n limit then 1 else 0

  abbrev is_due : ℕ → WaitingThread → ℕ
  is_due limit e = one_due limit e.wake_at

  -- A call that lets no thread wait for a time up to the limit.
  abbrev pub LateCall : ℕ → Call Thread Values Error Fut → Type 0
  LateCall limit (add_waiting_thread t args duration now) = limit < now + duration
  LateCall limit _ = Unit

  late_is_not_due : (limit n : ℕ) → limit < n → one_due limit n ≡ 0
  late_is_not_due limit n late = ground arith

  over_is_due : (limit n : ℕ) → n ≤ limit → one_due limit n ≡ 1
  over_is_due limit n is_over = ground arith

  sum-filter :
      (p : WaitingThread → Bool) (limit : ℕ) (es : List WaitingThread)
      → sum (is_due limit) (filter p es) ≤ sum (is_due limit) es
  unfolding sum filter
  sum-filter p limit [] = omega arith
  sum-filter p limit (e ∷ es) = elim (Bool-cases (p e)) [
    | inl kept ↦ rw kept (omega (arith, sum-filter p limit es))
    | inr out ↦ rw out (omega (arith, sum-filter p limit es))
  ]

module _ ⦃m : Mlua⦄ ⦃h : BinaryHeap WaitingThread at_most⦄ where
  open m use {Thread, Values, Error, Fut, State, resume, status, same_thread}
  open h use {Heap, items, items-push, items-retain, items-clear}

  -- How many threads wait for a time up to the limit.
  unfoldable pub due : ℕ → TaskManagerInner → ℕ
  unfolding sum
  due limit i = sum (is_due limit) (items i.waiting_queue)

  pub call_inner-due :
      (limit : ℕ) (c : Call Thread Values Error Fut) (i : TaskManagerInner)
      → LateCall limit c
      → due limit (call_inner c i) ≤ due limit i
  unfolding due call_inner add_waiting add_deferred cancel incr_async sum
  call_inner-due limit (add_waiting_thread t args duration now) i late = omega (
    arith,
    sum-of_perm (is_due limit) (items-push _ i.waiting_queue),
    late_is_not_due limit (now + duration) late,
  )
  call_inner-due limit (cancel_task t) i late = omega (
    arith,
    sum-of_perm (is_due limit) (items-retain (λ x. not (same_thread x.thread t)) i.waiting_queue),
    sum-filter (λ x. not (same_thread x.thread t)) limit (items i.waiting_queue),
  )
  call_inner-due limit clear i late =
      omega (arith, ap (sum (is_due limit)) (items-clear i.waiting_queue))
  call_inner-due limit _ i late = omega arith

  abbrev pub due_up_to : ℕ → Measure
  due_up_to limit = record {
    of = due limit;
    Keeps = LateCall limit;
    kept = λ c i. call_inner-due limit c i;
  }

  popped-due :
      (limit : ℕ) (e : WaitingThread) (q : Heap) (i : TaskManagerInner)
      → items i.waiting_queue ≡ e ∷ items q
      → e.wake_at ≤ limit
      → due limit (record i { waiting_queue = q }) + 1 ≡ due limit i
  unfolding due sum
  popped-due limit e q i order is_over =
      omega (arith, ap (sum (is_due limit)) order, over_is_due limit e.wake_at is_over)

  -- For any Lua code: where the clock of a pass stays at or below a limit, and neither Lua code nor
  -- other tasks let a thread wait for a time up to that limit, the loop over the waiting threads
  -- ends, with fuel for one round more than there are threads that wait for a time up to the limit.
  -- It does not matter what else they call, whether Lua dies and which threads are over.
  pub waiting_loop-ends :
      (fuel limit : ℕ) (env : ℕ → Turn) (w : World)
      → LuaKeeps (due_up_to limit)
      → ((i : ℕ) → (env i).now ≤ limit)
      → ((i : ℕ) → OthersKeep (due_up_to limit) (env i).others)
      → due limit w.inner < fuel
      → (v : World) × (waiting_loop fuel env w ≡ some v) × (due limit v.inner ≤ due limit w.inner)
  unfolding waiting_loop
  waiting_loop-ends zero limit env w lua clock late enough = absurd (omega arith)
  waiting_loop-ends (suc fuel) limit env w lua clock late enough =
      elim (next_waiting_cases (env 0).now w.waiting_queue) [
        | inl (n, later) ↦ (w, rw (n, waiting_loop) refl, omega arith)
        | inr (e, q, n, is_over, order, behind) ↦
            let popped = record w { inner = record w.inner { waiting_queue = q } } in
            let next = process_waiting_thread (env 0) e popped in
            let fewer = popped-due limit e q w.inner order (le_trans is_over (clock 0)) in
            elim (Bool-cases (check_lua popped)) [
              | inr dead ↦ (popped, rw (n, waiting_loop, dead) refl, omega (arith, fewer))
              | inl alive ↦
                  let kept =
                    process_waiting_thread-le (due_up_to limit) (env 0) e popped lua (late 0) in
                  let (v, p, less) =
                    waiting_loop-ends fuel limit (λ i. env (suc i)) next lua (λ i. clock (suc i))
                      (λ i. late (suc i)) (omega (arith, kept, fewer, enough)) in
                  (v, rw (n, waiting_loop, alive) p, omega (arith, less, kept, fewer))
            ]
      ]
