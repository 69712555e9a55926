-- ===== src/V2/Work.antt =====
-- taskmgr_v2.rs: a measure of what is queued, and what each event does to it.
use mlua_scheduler.Base.{
  ℕ, ◌+◌, ◌*◌, ◌<◌, ◌≡◌, ap, Option, [], ◌∷◌, arith, length, length-append, String,
}
use mlua_scheduler.Deps.Mlua.{Ran}
use mlua_scheduler.Deps.Runtime.{Runtime}
use mlua_scheduler.V2.State.{
  World, Loop, SchedulerEvent, wait, deferred_thread, add_async_event, clear_event, close_event,
  calls, from_ptr,
}
use mlua_scheduler.V2.Clear.{handle_clear-always}
use mlua_scheduler.V2.Arms.{Flow, falls, continues, resumed, handle_event, handle_wait, drop_key}

module _ ⦃rt : Runtime⦄ where
  open rt use {Thread, Values, Error, Fut, State}
  open rt use {resume, resume_error, contents, entries, pending, recv, next, poll_next}
  open rt use {contents-send, entries-insert, pending-push, next-Removed, poll_next-Removed}

  -- Lua code that makes no calls of the manager when it is resumed.
  pub record Silent : Type 0 where
    pub no_calls : (t : Thread) (v : Values) (l : State) → (resume t v l).calls ≡ []
    pub no_error_calls : (t : Thread) (e : String) (l : State) → (resume_error t e l).calls ≡ []

  -- An event is work twice: it is handled, and what it puts into a queue is handled later.
  unfoldable pub work : Loop → ℕ
  work s =
      2 * length (contents s.events)
      + length (contents s.cancel_events)
      + length (entries s.wait_queue)
      + length (pending s.async_queue)
      + length (contents s.deferred_queue)

  abbrev pub Lowers : ℕ → Flow Loop → Type 0
  Lowers n (falls t) = work t < n
  Lowers n (continues t) = work t < n
  Lowers n _ = Unit

  pub resumed-core :
      (label : String) (t : Thread) (r : Ran Thread Values Error Fut State) (w : World)
      → r.calls ≡ []
      → (resumed label t r w).core ≡ w.core
  unfolding resumed calls
  resumed-core label t r w e = rw (e, calls)

  -- Only the core counts: `work` of a loop whose world has another core of equal content.
  pub work-world : (w : World) (s : Loop) → w.core ≡ s.core → work (record s { world = w }) ≡ work s
  unfolding work
  work-world w s e =
      ap
        (λ c.
          2 * length (contents c.events)
          + length (contents c.cancel_events)
          + length (entries s.wait_queue)
          + length (pending s.async_queue)
          + length (contents s.deferred_queue))
        e

  pub drop_key-Lowers : (n key xid : ℕ) (s : Loop) → work s < n → Lowers n (drop_key key xid s)
  unfolding drop_key work
  drop_key-Lowers n key xid s h = ground arith

  handle_wait-Lowers :
      (now : ℕ) (args : Option Values) (t : Thread) (start duration n : ℕ) (s : Loop)
      → work s + 1 < n
      → Lowers n (handle_wait now args t start duration s)
  unfolding handle_wait work
  handle_wait-Lowers now args t start duration n s h = ground (
    arith,
    ap length (
        entries-insert (record { delay_args = args; start_at = start; thread = t }) duration now
          s.wait_queue),
  )

  pub handle_event-Lowers :
      (now : ℕ) (e : SchedulerEvent) (n : ℕ) (s : Loop)
      → work s + 1 < n
      → Lowers n (handle_event now e s)
  unfolding handle_event
  handle_event-Lowers now (wait args t start duration) n s h =
      handle_wait-Lowers now args t start duration n s h
  handle_event-Lowers now (deferred_thread t args) n s h =
      unfold work in
      omega (
        arith,
        ap length
            (contents-send (record { thread = t; args = args; xid = from_ptr t }) s.deferred_queue),
        length-append (contents s.deferred_queue)
            (record { thread = t; args = args; xid = from_ptr t } ∷ []),
        h,
      )
  handle_event-Lowers now (add_async_event t fut) n s h =
      unfold work in omega (arith, ap length (pending-push t fut s.async_queue), h)
  handle_event-Lowers now clear_event n s h = handle_clear-always (Lowers n) s (λ t. tt)
  handle_event-Lowers now close_event n s h = tt
