-- ===== src/V1/Serve.antt =====
-- taskmgr_v1.rs: the serving of one thread as steps of the specification.
use mlua_scheduler.Base.{◌-◌, ◌≡◌, ◌≢◌, false, refl, sym, ◌∙◌, none, some}
use mlua_scheduler.Deps.Mlua.{Mlua, Ran, ThreadStatus, finished, error, other}
use mlua_scheduler.Deps.BinaryHeap.{BinaryHeap}
use mlua_scheduler.Contract.Bag.{put}
use mlua_scheduler.Contract.Asks.{DropMay, LuaMay}
use mlua_scheduler.Contract.Spec.{Rules, Steps, Steps-trans, Steps-drop, wait as wait_job}
use mlua_scheduler.V1.State.{
  WaitOp, wait, delay, WaitingThread, DeferredThread, at_most, World, ran, respond,
}
use mlua_scheduler.V1.Process.{
  Others, Turn, yield_now, process_deferred_thread, process_waiting_thread,
}
use mlua_scheduler.V1.View.{
  Spec, view, OthersMay, op_args, waiting_job, queued_job, ran-Steps, yield_now-Steps,
  respond-Steps,
}

module _ ⦃m : Mlua⦄ ⦃h : BinaryHeap WaitingThread at_most⦄ where
  -- The jobs that the manager may drop by itself: those of threads that are over, and any queued job
  -- where Lua is dead.
  pub record MayLose (D : Rules m.Thread m.Values m.Error m.Fut) : Type 0 where
    pub over : (l : m.State) → DropMay D (λ t. m.status l t ≢ other)
    pub dead : (l : m.State) → m.is_alive l ≡ false → DropMay D (λ t. Unit)

module _ ⦃m : Mlua⦄ ⦃h : BinaryHeap WaitingThread at_most⦄
    (D : Rules m.Thread m.Values m.Error m.Fut) (lose : MayLose D) (lua : LuaMay D) where
  open m use {Thread, Values, Error, Fut, State, status, resume, from_f64, as_secs_f64}
  open h use {items, Heap}

  pub process_deferred_thread-Steps :
      (os : Others) (d : DeferredThread) (w : World) (x : Spec)
      → OthersMay D os
      → x.jobs ≡ put (queued_job d) (view w).jobs
      → x.reports ≡ (view w).reports
      → Steps D x (view (process_deferred_thread os d w))
  unfolding process_deferred_thread
  process_deferred_thread-Steps os d w x k p e = by_status (status w.lua d.thread) refl
    where
      r : Ran Thread Values Error Fut State
      r = resume d.thread d.args w.lua

      resumed : World
      resumed = respond "DeferredThread" d.thread r.result (ran r w)

      by_status :
          (u : ThreadStatus)
          → status w.lua d.thread ≡ u
          → Steps D x (
              view (elim u as (λ _. World) [
                | finished ↦ w
                | error ↦ w
                | other ↦ yield_now os resumed
              ]))
      by_status finished i =
          Steps-drop (queued_job d) ((lose.over w.lua).queued d.thread d.args (λ o. cc (sym i ∙ o)))
            p (sym e)
      by_status error i =
          Steps-drop (queued_job d) ((lose.over w.lua).queued d.thread d.args (λ o. cc (sym i ∙ o)))
            p (sym e)
      by_status other i =
          Steps-trans
            (respond-Steps D "DeferredThread" d.thread r.result (queued_job d) x w (ran r w) refl p
              e (ran-Steps D r w (lua.on_resume d.thread d.args w.lua)))
            (yield_now-Steps D os resumed k)

  pub process_waiting_thread-Steps :
      (turn : Turn) (e : WaitingThread) (w : World) (x : Spec)
      → OthersMay D turn.others
      → x.jobs ≡ put (waiting_job e) (view w).jobs
      → x.reports ≡ (view w).reports
      → Steps D x (view (process_waiting_thread turn e w))
  unfolding process_waiting_thread
  process_waiting_thread-Steps turn e w x k p q = by_status (status w.lua e.thread) e.op refl p
    where
      elapsed : Values
      elapsed = from_f64 (as_secs_f64 (turn.now - e.start))

      woken : Values → Ran Thread Values Error Fut State
      woken args = resume e.thread args w.lua

      after : Values → World
      after args = ran (woken args) w

      waited : World
      waited = respond "WaitingThread" e.thread (woken elapsed).result (after elapsed)

      delayed : Values → World
      delayed args =
          respond "DelayedThread" e.thread (woken args).result (yield_now turn.others (after args))

      by_status :
          (u : ThreadStatus) (o : WaitOp)
          → status w.lua e.thread ≡ u
          → x.jobs ≡ put (wait_job e.thread (op_args o)) (view w).jobs
          → Steps D x (
              view (elim u as (λ _. World) [
                | finished ↦ w
                | error ↦ w
                | other ↦ elim o as (λ _. World) [
                  | wait ↦ yield_now turn.others waited
                  | delay args ↦ delayed args
                ]
              ]))
      by_status finished o i j =
          Steps-drop (wait_job e.thread (op_args o))
            ((lose.over w.lua).waits e.thread (op_args o) (λ x. cc (sym i ∙ x))) j (sym q)
      by_status error o i j =
          Steps-drop (wait_job e.thread (op_args o))
            ((lose.over w.lua).waits e.thread (op_args o) (λ x. cc (sym i ∙ x))) j (sym q)
      by_status other wait i j =
          Steps-trans
            (respond-Steps D "WaitingThread" e.thread (woken elapsed).result
              (wait_job e.thread none) x w (after elapsed) refl j q
              (ran-Steps D (woken elapsed) w (lua.on_resume e.thread elapsed w.lua)))
            (yield_now-Steps D turn.others waited k)
      by_status other (delay args) i j =
          respond-Steps D "DelayedThread" e.thread (woken args).result
            (wait_job e.thread (some args)) x w (yield_now turn.others (after args)) refl j q
            (Steps-trans (ran-Steps D (woken args) w (lua.on_resume e.thread args w.lua))
              (yield_now-Steps D turn.others (after args) k))
