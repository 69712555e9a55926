-- ===== src/V1/View.antt =====
-- taskmgr_v1.rs as a bag of jobs: what the manager holds, and what calls, Lua code and other tasks do
-- to that.
use mathlib.Core.List.{map-append, Perm}
use mathlib.Core.List.Perm
use mlua_scheduler.Base.{
  All, ◌≡◌, refl, sym, ap, ◌∙◌, true, false, not, Bool, Option, List, [], ◌∷◌, ◌++◌, map, filter,
  Bool-cases, inl, inr, String, Result,
}
use mlua_scheduler.Deps.Mlua.{
  Mlua, Call, Ran, add_waiting_thread, add_deferred_thread, add_async, cancel_task, stop, unstop,
  clear, on_response,
}
use mlua_scheduler.Deps.BinaryHeap.{BinaryHeap}
use mlua_scheduler.Contract.Bag.{
  Bag, bag, put, put_all, put_all-put, put_all-snoc, put_all_comm, put_all_of_perm,
}
use mlua_scheduler.Contract.Asks.{CallMay}
use mlua_scheduler.Contract.Spec.{
  Job, Rules, Report, State as SpecState, Steps, done, Steps-trans, Steps-same, Steps-add,
  Steps-drop, Steps-report, Steps-serve, thread_of, wait as wait_job, deferred as deferred_job,
  async as async_job,
}
use mlua_scheduler.V1.State.{
  WaitOp, wait, delay, WaitingThread, DeferredThread, at_most, TaskManagerInner, World, Response,
  call, call_inner, calls, ran, respond, add_waiting, add_deferred, cancel, incr_async,
}
use mlua_scheduler.V1.Process.{Others, yield_now}

module _ ⦃m : Mlua⦄ ⦃h : BinaryHeap WaitingThread at_most⦄ where
  open m use {Thread, Values, Error, Fut, State, same_thread}
  open h use {items, items-push, items-retain, items-clear}

  abbrev pub Jobs : Type 0
  Jobs = Bag (Job Thread Values Fut)

  abbrev pub Spec : Type 0
  Spec = SpecState Thread Values Error Fut

  abbrev pub op_args : WaitOp → Option Values
  op_args wait = Option.none
  op_args (delay args) = Option.some args

  abbrev pub waiting_job : WaitingThread → Job Thread Values Fut
  waiting_job e = wait_job e.thread (op_args e.op)

  abbrev pub queued_job : DeferredThread → Job Thread Values Fut
  queued_job d = deferred_job d.thread d.args

  abbrev pub future_job : Thread × Fut → Job Thread Values Fut
  future_job (t, f) = async_job t f

  abbrev pub futures : TaskManagerInner → Jobs
  futures c = put_all (map future_job c.async_task_executor) (bag [])

  abbrev pub inner_jobs : TaskManagerInner → Jobs
  inner_jobs c =
      put_all (map waiting_job (items c.waiting_queue))
        (put_all (map queued_job c.deferred_queue) (futures c))

  abbrev pub report_of : Response → Report Thread Values Error
  report_of r = record { label = r.label; thread = r.thread; result = r.result }

  -- What the manager holds, as a state of the specification.
  abbrev pub view : World → Spec
  view w = record { jobs = inner_jobs w.inner; reports = map report_of w.responses }

  -- What other tasks ask for is what the rules allow.
  abbrev pub OthersMay : Rules Thread Values Error Fut → Others → Type 0
  OthersMay D os = All (λ p. CallMay D p.1) os

module _ ⦃m : Mlua⦄ ⦃h : BinaryHeap WaitingThread at_most⦄
    (D : Rules m.Thread m.Values m.Error m.Fut) where
  open m use {Thread, Values, Error, Fut, State, same_thread, same_thread_iff, to_pointer}
  open h use {items, items-push, items-retain, items-clear}

  -- Items that a filter leaves out are dropped.
  Steps-filter :
      {B : Type 0} (f : B → Job Thread Values Fut) (p : B → Bool) (xs : List B) (q : Jobs)
      (rs : List (Report Thread Values Error))
      → ((x : B) → p x ≡ false → D.may_drop (f x))
      → Steps D
          (record { jobs = put_all (map f xs) q; reports = rs })
          (record { jobs = put_all (map f (filter p xs)) q; reports = rs })
  unfolding put_all filter
  Steps-filter f p [] q rs may = done _
  Steps-filter f p (x ∷ xs) q rs may = elim (Bool-cases (p x)) [
    | inl kept ↦ rw kept (
        Steps-trans (Steps-same (put_all-put (map f xs) (f x) q) refl) (
          Steps-trans (Steps-filter f p xs (put (f x) q) rs may)
            (Steps-same (sym (put_all-put (map f (filter p xs)) (f x) q)) refl)))
    | inr out ↦
        rw out (Steps-trans (Steps-drop (f x) (may x out) refl refl) (Steps-filter f p xs q rs may))
  ]

  not-eq-false : (b : Bool) → not b ≡ false → b ≡ true
  not-eq-false true p = refl
  not-eq-false false p = cc p

  filter-nothing : {B : Type 0} (xs : List B) → filter (λ x. false) xs ≡ []
  unfolding filter
  filter-nothing [] = refl
  filter-nothing (x ∷ xs) = filter-nothing xs

  waits-perm :
      {xs ys : List WaitingThread} (q : Jobs)
      → Perm xs ys
      → put_all (map waiting_job xs) q ≡ put_all (map waiting_job ys) q
  waits-perm q p = put_all_of_perm (Perm.map waiting_job p) q

  -- Entries are dropped from both queues.
  thin :
      (p : WaitingThread → Bool) (k : DeferredThread → Bool) (c d : TaskManagerInner)
      (rs : List (Report Thread Values Error))
      → ((x : WaitingThread) → p x ≡ false → D.may_drop (waiting_job x))
      → ((x : DeferredThread) → k x ≡ false → D.may_drop (queued_job x))
      → Perm (items d.waiting_queue) (filter p (items c.waiting_queue))
      → d.deferred_queue ≡ filter k c.deferred_queue
      → d.async_task_executor ≡ c.async_task_executor
      → Steps D
          (record { jobs = inner_jobs c; reports = rs })
          (record { jobs = inner_jobs d; reports = rs })
  thin p k c d rs may_wait may_defer a e s =
      Steps-trans
        (Steps-filter waiting_job p (items c.waiting_queue) (deferred_over c.deferred_queue) rs
          may_wait)
        (Steps-trans (Steps-same (put_all_comm ds ws (futures c)) refl) (
          Steps-trans
            (Steps-filter queued_job k c.deferred_queue (put_all ws (futures c)) rs may_defer)
            (Steps-same
              (waits-perm _ a
                ∙ ap (λ l. put_all ws (put_all (map queued_job l) (futures d))) e
                ∙ ap (λ l. put_all ws (put_all fs (put_all (map future_job l) (bag [])))) s
                ∙ put_all_comm ws fs (futures c))
              refl)))
    where
      deferred_over : List DeferredThread → Jobs
      deferred_over l = put_all (map queued_job l) (futures c)

      ws : List (Job Thread Values Fut)
      ws = map waiting_job (filter p (items c.waiting_queue))

      ds : List (Job Thread Values Fut)
      ds = map queued_job c.deferred_queue

      fs : List (Job Thread Values Fut)
      fs = map queued_job (filter k c.deferred_queue)

  respond-reports :
      (label : String) (t : Thread) (r : Result Values Error) (w : World)
      → map report_of (respond label t r w).responses
        ≡ map report_of w.responses ++ record { label = label; thread = t; result = r } ∷ []
  unfolding respond
  respond-reports label t r w =
      map-append report_of w.responses (record { label = label; thread = t; result = r } ∷ [])

  call-Steps :
      (c : Call Thread Values Error Fut) (w : World)
      → CallMay D c
      → Steps D (view w) (view (call c w))
  unfolding call call_inner add_waiting add_deferred cancel incr_async put_all
  call-Steps (add_waiting_thread t (Option.some args) duration now) w k =
      Steps-add (wait_job t (Option.some args)) k (waits-perm _ (items-push _ w.waiting_queue)) refl
  call-Steps (add_waiting_thread t Option.none duration now) w k =
      Steps-add (wait_job t Option.none) k (waits-perm _ (items-push _ w.waiting_queue)) refl
  call-Steps (add_deferred_thread t args) w k =
      Steps-add (deferred_job t args) k
        (ap (λ js. put_all ws (put_all js (futures w.inner)))
            (map-append queued_job w.deferred_queue (record { thread = t; args = args } ∷ []))
          ∙ ap (put_all ws) (
              put_all-snoc (map queued_job w.deferred_queue) (deferred_job t args)
                (futures w.inner))
          ∙ put_all-put ws (deferred_job t args) _)
        refl
    where
      ws : List (Job Thread Values Fut)
      ws = map waiting_job (items w.waiting_queue)
  call-Steps (add_async t fut) w k =
      Steps-add (async_job t fut) k
        (ap (put_all ws)
            (put_all-put (map queued_job w.deferred_queue) (async_job t fut) (futures w.inner))
          ∙ put_all-put ws (async_job t fut) _)
        refl
    where
      ws : List (Job Thread Values Fut)
      ws = map waiting_job (items w.waiting_queue)
  call-Steps (cancel_task t) w k =
      thin (λ x. not (same_thread x.thread t)) (λ x. not (same_thread x.thread t)) w.inner
        (cancel t w.inner) (map report_of w.responses)
        (λ x out. k.waits x.thread (op_args x.op) (same x.thread out))
        (λ x out. k.queued x.thread x.args (same x.thread out)) (items-retain _ w.waiting_queue)
        refl refl
    where
      same : (u : Thread) → not (same_thread u t) ≡ false → to_pointer u ≡ to_pointer t
      same u out = (same_thread_iff u t).0 (not-eq-false (same_thread u t) out)
  call-Steps stop w k = done _
  call-Steps unstop w k = done _
  call-Steps clear w k =
      thin (λ x. false) (λ x. false) w.inner (call_inner clear w.inner) (map report_of w.responses)
        (λ x out. k.waits x.thread (op_args x.op) tt) (λ x out. k.queued x.thread x.args tt)
        (rw (items-clear, filter-nothing) Perm.rfl) (sym (filter-nothing w.deferred_queue)) refl
  call-Steps (on_response label t r) w k =
      Steps-report (record { label = label; thread = t; result = r }) k refl
        (respond-reports label t r w)

  calls-Steps :
      (cs : List (Call Thread Values Error Fut)) (w : World)
      → All (CallMay D) cs
      → Steps D (view w) (view (calls cs w))
  unfolding calls
  calls-Steps [] w k = done _
  calls-Steps (c ∷ cs) w (k, ks) = Steps-trans (call-Steps c w k) (calls-Steps cs (call c w) ks)

  pub ran-Steps :
      (r : Ran Thread Values Error Fut State) (w : World)
      → All (CallMay D) r.calls
      → Steps D (view w) (view (ran r w))
  unfolding ran
  ran-Steps r w k = calls-Steps r.calls (record w { lua = r.lua }) k

  pub yield_now-Steps :
      (os : Others) (w : World) → OthersMay D os → Steps D (view w) (view (yield_now os w))
  unfolding yield_now
  yield_now-Steps [] w k = done _
  yield_now-Steps ((l, c) ∷ os) w (k, ks) =
      Steps-trans (call-Steps c (record w { lua = l }) k)
        (yield_now-Steps os (call c (record w { lua = l })) ks)

  -- The report of a thread ends the service of its job, which began before `w`.
  pub respond-Steps :
      (label : String) (t : Thread) (r : Result Values Error) (j : Job Thread Values Fut) (x : Spec)
      (w v : World)
      → t ≡ thread_of j
      → x.jobs ≡ put j (view w).jobs
      → x.reports ≡ (view w).reports
      → Steps D (view w) (view v)
      → Steps D x (view (respond label t r v))
  unfolding respond
  respond-Steps label t r j x w v same p e inner =
      Steps-serve {u = view w} {v = view v} j (record { label = label; thread = t; result = r })
        same p (sym e) inner refl (respond-reports label t r v)
