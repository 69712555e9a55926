-- ===== src/V2/View.antt =====
-- taskmgr_v2.rs as a bag of jobs: what the manager holds, and what a call and Lua code do to that.
use mathlib.Core.List.{map-append, append_assoc}
use mlua_scheduler.Base.{All, ◌≡◌, refl, sym, ap, ◌∙◌, List, [], ◌∷◌, ◌++◌, map, String, Result}
use mlua_scheduler.Deps.Mlua.{
  Call, Ran, add_waiting_thread, add_deferred_thread, add_async, cancel_task, stop, unstop, clear,
  on_response,
}
use mlua_scheduler.Deps.DelayQueue.{Entry}
use mlua_scheduler.Deps.Runtime.{Runtime}
use mlua_scheduler.Contract.Bag.{Bag, bag, put, put_all, put_all-put, put_all-append}
use mlua_scheduler.Contract.Asks.{CallMay}
use mlua_scheduler.Contract.Spec.{
  Job, Rules, Report, State as SpecState, Steps, done, Steps-trans, Steps-same, Steps-add,
  Steps-report, Steps-serve, thread_of, wait as wait_job, deferred as deferred_job,
  async as async_job,
}
use mlua_scheduler.V2.State.{
  World, Loop, Locals, WaitingThread, DeferredThread, SchedulerEvent, Response, wait,
  deferred_thread, add_async_event, clear_event, close_event, call_core, call, calls, respond,
  push_event,
}
use mlua_scheduler.V2.Arms.{resumed}

module _ ⦃rt : Runtime⦄ where
  open rt use {Thread, Values, Error, Fut, State, contents, contents-send, entries, pending}

  abbrev pub Jobs : Type 0
  Jobs = Bag (Job Thread Values Fut)

  abbrev pub Spec : Type 0
  Spec = SpecState Thread Values Error Fut

  -- The jobs that an event stands for.
  abbrev pub event_jobs : SchedulerEvent → List (Job Thread Values Fut)
  event_jobs (wait args t start_at duration) = wait_job t args ∷ []
  event_jobs (deferred_thread t args) = deferred_job t args ∷ []
  event_jobs (add_async_event t fut) = async_job t fut ∷ []
  event_jobs clear_event = []
  event_jobs close_event = []

  abbrev pub sent_jobs : List SchedulerEvent → List (Job Thread Values Fut)
  sent_jobs [] = []
  sent_jobs (e ∷ es) = event_jobs e ++ sent_jobs es

  sent_jobs-snoc :
      (es : List SchedulerEvent) (e : SchedulerEvent)
      → sent_jobs (es ++ e ∷ []) ≡ sent_jobs es ++ event_jobs e
  sent_jobs-snoc [] (wait args t start_at duration) = refl
  sent_jobs-snoc [] (deferred_thread t args) = refl
  sent_jobs-snoc [] (add_async_event t fut) = refl
  sent_jobs-snoc [] clear_event = refl
  sent_jobs-snoc [] close_event = refl
  sent_jobs-snoc (x ∷ es) e =
      ap (λ l. event_jobs x ++ l) (sent_jobs-snoc es e)
      ∙ sym (append_assoc (event_jobs x) (sent_jobs es) (event_jobs e))

  abbrev pub waiting_job : Entry WaitingThread → Job Thread Values Fut
  waiting_job e = wait_job e.value.thread e.value.delay_args

  abbrev pub queued_job : DeferredThread → Job Thread Values Fut
  queued_job d = deferred_job d.thread d.args

  abbrev pub future_job : Thread × Fut → Job Thread Values Fut
  future_job (t, f) = async_job t f

  -- The jobs in the local queues of `run`.
  abbrev pub queued : Locals → Jobs
  queued l = put_all (map waiting_job (entries l.wait_queue)) (
      put_all (map queued_job (contents l.deferred_queue))
        (put_all (map future_job (pending l.async_queue)) (bag [])))

  abbrev pub report_of : Response → Report Thread Values Error
  report_of r = record { label = r.label; thread = r.thread; result = r.result }

  -- A world, where the local queues hold `q`.
  abbrev pub world_view : Jobs → World → Spec
  world_view q w = record {
    jobs = put_all (sent_jobs (contents w.events)) q;
    reports = map report_of w.responses;
  }

  -- What the manager holds, as a state of the specification.
  abbrev pub view : Loop → Spec
  view s = world_view (queued s.locals) s.world

  sent :
      (e : SchedulerEvent) (q : Jobs) (w : World)
      → put_all (sent_jobs (contents (rt.channels.send e w.events))) q
        ≡ put_all (sent_jobs (contents w.events)) (put_all (event_jobs e) q)
  sent e q w =
      ap (λ l. put_all (sent_jobs l) q) (contents-send e w.events)
      ∙ ap (λ l. put_all l q) (sent_jobs-snoc (contents w.events) e)
      ∙ put_all-append (sent_jobs (contents w.events)) (event_jobs e) q

  respond-reports :
      (label : String) (t : Thread) (r : Result Values Error) (w : World)
      → map report_of (respond label t r w).responses
        ≡ map report_of w.responses ++ record { label = label; thread = t; result = r } ∷ []
  unfolding respond
  respond-reports label t r w =
      map-append report_of w.responses (record { label = label; thread = t; result = r } ∷ [])

  -- A call adds the job that it is for, if any, or makes a report.
  pub call-Steps :
      {D : Rules Thread Values Error Fut} (c : Call Thread Values Error Fut) (q : Jobs) (w : World)
      → CallMay ⦃m = rt.mlua⦄ D c
      → Steps D (world_view q w) (world_view q (call c w))
  unfolding call call_core push_event put_all
  call-Steps (add_waiting_thread t args duration now) q w m =
      Steps-add (wait_job t args) m
        (sent (wait args t now duration) q w ∙ put_all-put (sent_jobs (contents w.events)) _ q) refl
  call-Steps (add_deferred_thread t args) q w m =
      Steps-add (deferred_job t args) m
        (sent (deferred_thread t args) q w ∙ put_all-put (sent_jobs (contents w.events)) _ q) refl
  call-Steps (add_async t fut) q w m =
      Steps-add (async_job t fut) m
        (sent (add_async_event t fut) q w ∙ put_all-put (sent_jobs (contents w.events)) _ q) refl
  call-Steps (cancel_task t) q w m = done _
  call-Steps stop q w m = done _
  call-Steps unstop q w m = done _
  call-Steps clear q w m = Steps-same (sent clear_event q w) refl
  call-Steps (on_response label t r) q w m =
      Steps-report (record { label = label; thread = t; result = r }) m refl
        (respond-reports label t r w)

  pub calls-Steps :
      {D : Rules Thread Values Error Fut} (cs : List (Call Thread Values Error Fut)) (q : Jobs)
      (w : World)
      → All (CallMay ⦃m = rt.mlua⦄ D) cs
      → Steps D (world_view q w) (world_view q (calls cs w))
  unfolding calls
  calls-Steps [] q w m = done _
  calls-Steps (c ∷ cs) q w (m, ms) =
      Steps-trans (call-Steps c q w m) (calls-Steps cs q (call c w) ms)

  -- To resume the thread of a job that was taken out serves the job.
  pub resumed-Steps :
      {D : Rules Thread Values Error Fut} (label : String) (t : Thread)
      (r : Ran Thread Values Error Fut State) (j : Job Thread Values Fut) (q : Jobs) (w : World)
      (s : Spec)
      → All (CallMay ⦃m = rt.mlua⦄ D) r.calls
      → t ≡ thread_of j
      → s.jobs ≡ put j (put_all (sent_jobs (contents w.events)) q)
      → s.reports ≡ map report_of w.responses
      → Steps D s (world_view q (resumed label t r w))
  unfolding resumed
  resumed-Steps label t r j q w s may same p e =
      Steps-serve {u = world_view q w} {v = world_view q after} j
        (record { label = label; thread = t; result = r.result }) same p (sym e)
        (calls-Steps r.calls q (record w { lua = r.lua }) may) refl
        (respond-reports label t r.result after)
    where
      after : World
      after = calls r.calls (record w { lua = r.lua })
