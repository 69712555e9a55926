-- ===== src/V2/Branches.antt =====
-- taskmgr_v2.rs: what each branch of the loop handles, as steps of the specification. Which jobs may
-- be dropped is a parameter (`MayLose`, and V2.Marks.MarksMay).
use mathlib.Core.List.{map-append}
use mlua_scheduler.Base.{
  ◌≡◌, ◌≢◌, refl, sym, ap, ◌∙◌, [], ◌∷◌, map, Option-cases, Bool-cases, inl, inr, length, ◌==◌, ℕ,
  Result, ok, err,
}
use mlua_scheduler.Collections.{contains, get}
use mlua_scheduler.Deps.Mlua.{ThreadStatus, finished, error, other}
use mlua_scheduler.Deps.DelayQueue.{Entry}
use mlua_scheduler.Deps.Futures.{Outcome, completed, panicked}
use mlua_scheduler.Deps.Runtime.{Runtime}
use mlua_scheduler.Contract.Bag.{bag, put, put_all, put_all-put, put_all-snoc}
use mlua_scheduler.Contract.Asks.{LuaMay}
use mlua_scheduler.Contract.Spec.{
  Job, Rules, Steps, Steps-same, Steps-drop, wait as wait_job, deferred as deferred_job,
  async as async_job,
}
use mlua_scheduler.V2.State.{
  World, Loop, WaitingThread, DeferredThread, SchedulerEvent, wait, deferred_thread,
  add_async_event, clear_event, close_event, from_ptr, check_lua,
}
use mlua_scheduler.V2.Clear.{handle_clear-always}
use mlua_scheduler.V2.Arms.{
  Flow, falls, continues, returns, panics, hangs, resumed, handle_event, handle_wait, handle_wake,
  handle_deferred, wake_args, drop_key, uncancel,
}
use mlua_scheduler.V2.Run.{handle_async, handle_outcome, resume_completed, error_payload}
use mlua_scheduler.V2.Marks.{MarksMay}
use mlua_scheduler.V2.View.{
  Jobs, Spec, view, world_view, queued, event_jobs, sent_jobs, waiting_job, queued_job, future_job,
  resumed-Steps,
}

module _ ⦃rt : Runtime⦄ where
  open rt use {Thread, Values, Error, Fut, State, contents, entries, pending}

  -- The local queues from the parts that they consist of.
  abbrev pub waits_over : Loop → Jobs → Jobs
  waits_over s q = put_all (map waiting_job (entries s.wait_queue)) q

  abbrev pub deferred_over : Loop → Jobs → Jobs
  deferred_over s q = put_all (map queued_job (contents s.deferred_queue)) q

  abbrev pub futures : Loop → Jobs
  futures s = put_all (map future_job (pending s.async_queue)) (bag [])

  abbrev pub sent_over : Loop → Jobs → Jobs
  sent_over s q = put_all (sent_jobs (contents s.events)) q

  -- A job comes out through the queues above it.
  pub out_of_waits :
      (s : Loop) (j : Job Thread Values Fut) (q : Jobs)
      → sent_over s (waits_over s (put j q)) ≡ put j (sent_over s (waits_over s q))
  out_of_waits s j q =
      ap (put_all (sent_jobs (contents s.events)))
        (put_all-put (map waiting_job (entries s.wait_queue)) j q)
      ∙ put_all-put (sent_jobs (contents s.events)) j (waits_over s q)

  pub out_of_deferred :
      (s : Loop) (j : Job Thread Values Fut) (q : Jobs)
      → sent_over s (waits_over s (deferred_over s (put j q)))
        ≡ put j (sent_over s (waits_over s (deferred_over s q)))
  out_of_deferred s j q =
      ap (λ c. sent_over s (waits_over s c))
        (put_all-put (map queued_job (contents s.deferred_queue)) j q)
      ∙ out_of_waits s j (deferred_over s q)

module _ ⦃rt : Runtime⦄ where
  open rt use {Thread, Values, Error, Fut, State, status}

  -- The jobs that the manager may drop without a cancellation: deferred threads, and the futures of
  -- threads that are over.
  pub record MayLose (D : Rules Thread Values Error Fut) : Type 0 where
    pub queued : (t : Thread) (args : Values) → D.may_drop (deferred_job t args)
    pub over :
        (l : State) (t : Thread) (fut : Fut) → status l t ≢ other → D.may_drop (async_job t fut)

module _ ⦃rt : Runtime⦄ (D : Rules rt.Thread rt.Values rt.Error rt.Fut)
    (lua_may : LuaMay ⦃m = rt.mlua⦄ D) (lose : MayLose D) where
  open rt use {
    Thread, Values, Error, Fut, State, contents, contents-send, entries, entries-insert, pending,
    pending-push,
  }
  open rt use {
    recv, next, next-Removed, poll_next, poll_next-Removed, resume, resume_error, error_text,
    status, DelayQueue,
  }

  -- Where a branch goes on, it takes the specification from `x` to what the manager holds then.
  abbrev pub Follows : Spec → Flow Loop → Type 0
  Follows x (falls t) = Steps D x (view t)
  Follows x (continues t) = Steps D x (view t)
  Follows x (returns t) = Unit
  Follows x (panics p) = Unit
  Follows x (hangs t) = Unit

  pub handle_event-Follows :
      (now : ℕ) (e : SchedulerEvent) (s : Loop) (x : Spec)
      → x.jobs ≡ put_all (event_jobs e) (view s).jobs
      → x.reports ≡ (view s).reports
      → Follows x (handle_event now e s)
  unfolding handle_event handle_wait put_all
  handle_event-Follows now (wait args t start duration) s x p q =
      elim (Bool-cases (check_lua s.world)) [
        | inr dead ↦ rw dead tt
        | inl alive ↦ elim (Bool-cases (rt.too_far duration now s.wait_queue)) [
          | inl far ↦ rw (alive, far) tt
          | inr near ↦
              rw (alive, near)
                (Steps-same
                  (ap
                      (λ es.
                        sent_over s (put_all (map waiting_job es) (deferred_over s (futures s))))
                      (entries-insert (record { delay_args = args; start_at = start; thread = t })
                        duration now s.wait_queue)
                    ∙ put_all-put (sent_jobs (contents s.events)) (wait_job t args)
                        (queued s.locals)
                    ∙ sym p)
                  (sym q))
        ]
      ]
  handle_event-Follows now (deferred_thread t args) s x p q =
      Steps-same
        (ap (λ ds. sent_over s (waits_over s (put_all (map queued_job ds) (futures s))))
            (contents-send d s.deferred_queue)
          ∙ ap (λ js. sent_over s (waits_over s (put_all js (futures s))))
              (map-append queued_job (contents s.deferred_queue) (d ∷ []))
          ∙ ap (λ c. sent_over s (waits_over s c))
              (put_all-snoc (map queued_job (contents s.deferred_queue)) (deferred_job t args)
                (futures s))
          ∙ out_of_waits s (deferred_job t args) (deferred_over s (futures s))
          ∙ sym p)
        (sym q)
    where
      d : DeferredThread
      d = record { thread = t; args = args; xid = rt.to_pointer t }
  handle_event-Follows now (add_async_event t fut) s x p q =
      Steps-same
        (ap
            (λ ps.
              sent_over s (waits_over s (deferred_over s (put_all (map future_job ps) (bag [])))))
            (pending-push t fut s.async_queue)
          ∙ out_of_deferred s (async_job t fut) (futures s)
          ∙ sym p)
        (sym q)
  handle_event-Follows now clear_event s x p q = handle_clear-always (Follows x) s (λ t. tt)
  handle_event-Follows now close_event s x p q = tt

  drop_key-Follows :
      (key xid : ℕ) (s : Loop) (x : Spec) → Steps D x (view s) → Follows x (drop_key key xid s)
  unfolding drop_key
  drop_key-Follows key xid s x p = elim (Option-cases (get xid s.wait_keys)) [
    | inl n ↦ rw (n, drop_key) p
    | inr (ks, n) ↦ elim (Bool-cases (length ks == 0)) [
      | inl z ↦ rw (n, drop_key) (rw z tt)
      | inr z ↦ rw (n, drop_key) (rw z p)
    ]
  ]

  pub handle_wake-Follows :
      (now : ℕ) (e : Entry WaitingThread) (s : Loop) (x : Spec)
      → MarksMay D s.cancel
      → x.jobs ≡ put (waiting_job e) (view s).jobs
      → x.reports ≡ (view s).reports
      → Follows x (handle_wake now e.key e.value s)
  unfolding handle_wake uncancel
  handle_wake-Follows now e s x may p q = elim (Bool-cases (check_lua s.world)) [
    | inr dead ↦ rw dead tt
    | inl alive ↦ elim (Bool-cases (contains (from_ptr e.value.thread) s.cancel)) [
      | inl marked ↦
          rw (alive, marked)
            (Steps-drop (waiting_job e) (may e.value.thread e.value.delay_args marked) p (sym q))
      | inr unmarked ↦
          rw (alive, unmarked)
            (drop_key-Follows e.key (from_ptr e.value.thread) (record s { world = after }) x
              (resumed-Steps "WaitingThread" e.value.thread
                (resume e.value.thread (wake_args now e.value) s.lua) (waiting_job e)
                (queued s.locals) s.world x
                (lua_may.on_resume e.value.thread (wake_args now e.value) s.lua) refl p q))
    ]
  ]
    where
      after : World
      after =
          resumed "WaitingThread" e.value.thread
            (resume e.value.thread (wake_args now e.value) s.lua) s.world

  pub handle_deferred-Follows :
      (d : DeferredThread) (s : Loop) (x : Spec)
      → x.jobs ≡ put (queued_job d) (view s).jobs
      → x.reports ≡ (view s).reports
      → Follows x (handle_deferred d s)
  unfolding handle_deferred uncancel
  handle_deferred-Follows d s x p q = elim (Bool-cases (check_lua s.world)) [
    | inr dead ↦ rw dead tt
    | inl alive ↦ elim (Bool-cases (contains d.xid s.cancel)) [
      | inl marked ↦
          rw (alive, marked) (Steps-drop (queued_job d) (lose.queued d.thread d.args) p (sym q))
      | inr unmarked ↦ elim (Bool-cases (contains d.xid s.known_deferred_threads)) [
        | inl known ↦
            rw (alive, unmarked, known)
              (resumed-Steps "DeferredThread" d.thread (resume d.thread d.args s.lua) (queued_job d)
                (queued s.locals) s.world x (lua_may.on_resume d.thread d.args s.lua) refl p q)
        | inr lost ↦
            rw (alive, unmarked, lost)
              (Steps-drop (queued_job d) (lose.queued d.thread d.args) p (sym q))
      ]
    ]
  ]

  handle_outcome-Steps :
      (t : Thread) (fut : Fut) (o : Outcome Values Error) (q : Jobs) (w : World) (x : Spec)
      → x.jobs ≡ put (async_job t fut) (world_view q w).jobs
      → x.reports ≡ (world_view q w).reports
      → Steps D x (world_view q (handle_outcome t o w))
  unfolding handle_outcome resume_completed
  handle_outcome-Steps t fut (completed r) q w x p e = by_status (status w.lua t) r refl
    where
      by_status :
          (u : ThreadStatus) (r : Result Values Error)
          → status w.lua t ≡ u
          → Steps D x (
              world_view q (elim u as (λ _. World) [
                | finished ↦ w
                | error ↦ w
                | other ↦ resume_completed t r w
              ]))
      by_status finished r i =
          Steps-drop (async_job t fut) (lose.over w.lua t fut (λ o. cc (sym i ∙ o))) p (sym e)
      by_status error r i =
          Steps-drop (async_job t fut) (lose.over w.lua t fut (λ o. cc (sym i ∙ o))) p (sym e)
      by_status other (ok v) i =
          resumed-Steps "DeferredThread" t (resume t v w.lua) (async_job t fut) q w x
            (lua_may.on_resume t v w.lua) refl p e
      by_status other (err f) i =
          resumed-Steps "DeferredThread" t (resume_error t (error_text f) w.lua) (async_job t fut) q
            w x (lua_may.on_error t (error_text f) w.lua) refl p e
  handle_outcome-Steps t fut (panicked c) q w x p e =
      resumed-Steps "DeferredThread" t (resume_error t (error_payload c) w.lua) (async_job t fut) q
        w x (lua_may.on_error t (error_payload c) w.lua) refl p e

  pub handle_async-Follows :
      (t : Thread) (fut : Fut) (o : Outcome Values Error) (s : Loop) (x : Spec)
      → x.jobs ≡ put (async_job t fut) (view s).jobs
      → x.reports ≡ (view s).reports
      → Follows x (handle_async t o s)
  unfolding handle_async
  handle_async-Follows t fut o s x p q = elim (Bool-cases (check_lua s.world)) [
    | inr dead ↦ rw dead tt
    | inl alive ↦ rw alive (handle_outcome-Steps t fut o (queued s.locals) s.world x p q)
  ]
