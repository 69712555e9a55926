-- ===== src/V1/Pass.antt =====
-- taskmgr_v1.rs: a whole pass of `process`, when Lua code makes no calls, other tasks do nothing and
-- Lua stays alive.
use mathlib.Core.List.{reverse, reverse-cons, reverse-reverse, foldl}
use mlua_scheduler.Base.{
  ℕ, suc, ◌≤◌, ◌<◌, ◌≡◌, refl, sym, ap, subst, ◌∙◌, some, List, [], ◌∷◌, ◌++◌, arith, All, length,
  length-append,
}
use mlua_scheduler.Deps.Mlua.{Mlua}
use mlua_scheduler.Deps.BinaryHeap.{BinaryHeap}
use mlua_scheduler.V1.State.{WaitingThread, DeferredThread, at_most, TaskManagerInner, World}
use mlua_scheduler.V1.Process.{process_deferred_thread, process}
use mlua_scheduler.V1.Loops.{
  Silent, with_inner, serve-inner, deferred_loop_lem, waiting_loop_lem, quiet,
}

module _ {A : Type 0} where
  pub length-reverse : (xs : List A) → length (reverse xs) ≡ length xs
  length-reverse [] = refl
  length-reverse (x ∷ xs) =
      rw (reverse-cons x xs) (omega (arith, length-append (reverse xs) (x ∷ []), length-reverse xs))

module _ ⦃m : Mlua⦄ ⦃h : BinaryHeap WaitingThread at_most⦄ (silent : Silent) where
  open h use {items}

  -- To serve deferred threads does not touch the manager's own state.
  serves-inner :
      (ds : List DeferredThread) (w : World)
      → (foldl (λ v d. process_deferred_thread [] d v) w ds).inner ≡ w.inner
  serves-inner [] w = refl
  serves-inner (d ∷ ds) w =
      serves-inner ds (process_deferred_thread [] d w)
      ∙ ap (λ v. v.inner) (serve-inner silent d w.inner w)

  -- For Lua code that makes no calls of the manager and keeps Lua alive, with nothing done by other
  -- tasks, with fuel for one round more than the larger queue has entries, and with a clock that
  -- does not go back: a pass of `process` ends. It leaves no deferred thread and no waiting thread
  -- that was due at its last reading of the clock; the waiting threads that it took were due, and
  -- nothing else of the manager's state has changed.
  pub process_lem :
      (fuel : ℕ) (clock : ℕ → ℕ) (w : World)
      → ((i : ℕ) → clock i ≤ clock (suc i))
      → length (items w.waiting_queue) < fuel
      → length w.deferred_queue < fuel
      → (v : World) × (process fuel (quiet silent clock) (λ _. []) w ≡ some v)
        × (v.deferred_queue ≡ [])
        × (i : ℕ) × (taken : List WaitingThread) × (items w.waiting_queue
            ≡ taken ++ items v.waiting_queue)
        × All (λ e. e.wake_at ≤ clock i) taken
        × All (λ e. clock i < e.wake_at) (items v.waiting_queue)
        × (v.inner ≡ record w.inner { waiting_queue = v.waiting_queue; deferred_queue = [] })
  unfolding process
  process_lem fuel clock w mono waits defers =
      let (u, p, i, taken, parts, due, late, same) =
        waiting_loop_lem silent fuel clock w mono waits in
      let queue : u.deferred_queue ≡ w.deferred_queue = ap (λ c. c.deferred_queue) same in
      let emptied : World = with_inner silent (record u.inner { deferred_queue = [] }) u in
      let kept = serves-inner (reverse u.deferred_queue) emptied in
      let left = ap (λ c. c.waiting_queue) kept in
      (
        foldl (λ v d. process_deferred_thread [] d v) emptied (reverse u.deferred_queue),
        rw (p, process)
            (deferred_loop_lem silent fuel (reverse u.deferred_queue) u
              (omega (arith, length-reverse u.deferred_queue, ap length queue))
              (sym (reverse-reverse u.deferred_queue))),
        ap (λ c. c.deferred_queue) kept,
        i,
        taken,
        subst (λ q. items w.waiting_queue ≡ taken ++ items q) (sym left) parts,
        due,
        subst (λ q. All (λ e. clock i < e.wake_at) (items q)) (sym left) late,
        kept
            ∙ ap (λ (c : TaskManagerInner). record c { deferred_queue = [] }) same
            ∙ ap (λ q. record w.inner { waiting_queue = q; deferred_queue = [] }) (sym left),
      )
