-- ===== src/V2/Marks.antt =====
-- taskmgr_v2.rs: the threads that are marked as cancelled are ones that the rules allow to be.
use mathlib.Core.Option
use mathlib.Core.Option.{some-injective}
use mlua_scheduler.Base.{
  ◌≡◌, sym, ap, subst, ◌∙◌, not, ◌||◌, ◌==◌, true, arith, Option, none, some, List, [], ◌∷◌, All,
  Option-cases, Bool-cases, inl, inr, length, ℕ, Result, ok, err, String,
}
use mlua_scheduler.Collections.{contains, insert, remove, get, contains-insert, contains-remove}
use mlua_scheduler.Deps.Mlua.{
  Call, Ran, cancel_task, on_response, ThreadStatus, finished, error, other,
}
use mlua_scheduler.Deps.Futures.{Outcome, completed, panicked}
use mlua_scheduler.Deps.Lemmas.{recv-of_nil}
use mlua_scheduler.Deps.Runtime.{Runtime}
use mlua_scheduler.Contract.Asks.{CallMay, DropMay, LuaMay}
use mlua_scheduler.Contract.Spec.{Rules, wait as wait_job}
use mlua_scheduler.V2.State.{
  World, Loop, SchedulerEvent, DeferredThread, WaitingThread, wait, deferred_thread,
  add_async_event, clear_event, close_event, check_lua, call, call_core, calls, push_event, respond,
  mark_cancelled, from_ptr,
}
use mlua_scheduler.V2.Clear.{handle_clear-always}
use mlua_scheduler.V2.Arms.{
  Flow, falls, continues, returns, panics, hangs, resumed, handle_event, handle_wait, handle_wake,
  handle_deferred, drop_key, uncancel, wake_args,
}
use mlua_scheduler.V2.Run.{
  Arm, on_event, on_cancel, on_wake, on_deferred, on_async, Event, round_of, outside, select, round,
  happen, after_select, head, update_done, handle_async, handle_outcome, resume_completed,
  error_payload,
}

module _ ⦃rt : Runtime⦄ where
  open rt use {Thread, Values, Error, Fut}

  -- A call from outside that asks only for what the rules allow.
  abbrev pub EventMay : Rules Thread Values Error Fut → Event → Type 0
  EventMay D (round_of arm) = Unit
  EventMay D (outside l c) = CallMay ⦃m = rt.mlua⦄ D c

  -- The waits of the threads that are marked as cancelled may be dropped.
  abbrev pub MarksMay : Rules Thread Values Error Fut → List ℕ → Type 0
  MarksMay D c =
      (t : Thread) (args : Option Values)
      → contains (from_ptr t) c ≡ true
      → D.may_drop (wait_job t args)

module _ ⦃rt : Runtime⦄ (D : Rules rt.Thread rt.Values rt.Error rt.Fut)
    (lua : LuaMay ⦃m = rt.mlua⦄ D) where
  open rt use {
    Thread, Values, Error, Fut, State, contents, recv, next, poll_next, resume, resume_error,
    status, error_text, to_pointer,
  }

  insert-MarksMay :
      (t : Thread) (c : List ℕ)
      → DropMay ⦃m = rt.mlua⦄ D (λ u. to_pointer u ≡ to_pointer t)
      → MarksMay D c
      → MarksMay D (insert (from_ptr t) c)
  insert-MarksMay t c drops may u args h = elim (Bool-cases (from_ptr t == from_ptr u)) [
    | inl same ↦ drops.waits u args (ground arith)
    | inr differs ↦
        may u args (rw (differs) at (sym (contains-insert (from_ptr t) (from_ptr u) c) ∙ h))
  ]

  remove-MarksMay : (k : ℕ) (c : List ℕ) → MarksMay D c → MarksMay D (remove k c)
  remove-MarksMay k c may u args h = elim (Bool-cases (k == from_ptr u)) [
    | inl same ↦ cc (rw same at (sym (contains-remove k (from_ptr u) c) ∙ h))
    | inr differs ↦ may u args (rw differs at (sym (contains-remove k (from_ptr u) c) ∙ h))
  ]

  call-MarksMay :
      (c : Call Thread Values Error Fut) (w : World)
      → CallMay ⦃m = rt.mlua⦄ D c
      → MarksMay D w.cancel
      → MarksMay D (call c w).cancel
  unfolding call call_core push_event respond mark_cancelled
  call-MarksMay (cancel_task t) w may c = insert-MarksMay t w.cancel may c
  call-MarksMay (on_response _ _ _) w may c = c
  call-MarksMay _ w may c = c

  calls-MarksMay :
      (cs : List (Call Thread Values Error Fut)) (w : World)
      → All (CallMay ⦃m = rt.mlua⦄ D) cs
      → MarksMay D w.cancel
      → MarksMay D (calls cs w).cancel
  unfolding calls
  calls-MarksMay [] w may c = c
  calls-MarksMay (a ∷ cs) w (m, ms) c = calls-MarksMay cs (call a w) ms (call-MarksMay a w m c)

  resumed-MarksMay :
      (label : String) (t : Thread) (r : Ran Thread Values Error Fut State) (w : World)
      → All (CallMay ⦃m = rt.mlua⦄ D) r.calls
      → MarksMay D w.cancel
      → MarksMay D (resumed label t r w).cancel
  unfolding resumed respond
  resumed-MarksMay label t r w = calls-MarksMay r.calls (record w { lua = r.lua })

  -- Where the branch goes on, those that are marked may be dropped still.
  abbrev Marks : Flow Loop → Type 0
  Marks (falls t) = MarksMay D t.cancel
  Marks (continues t) = MarksMay D t.cancel
  Marks (returns t) = Unit
  Marks (panics p) = Unit
  Marks (hangs t) = Unit

  handle_event-Marks :
      (now : ℕ) (e : SchedulerEvent) (s : Loop) → MarksMay D s.cancel → Marks (handle_event now e s)
  unfolding handle_event handle_wait
  handle_event-Marks now (wait args t start duration) s c = elim (Bool-cases (check_lua s.world)) [
    | inr dead ↦ rw dead tt
    | inl alive ↦ elim (Bool-cases (rt.too_far duration now s.wait_queue)) [
      | inl far ↦ rw (alive, far) tt
      | inr near ↦ rw (alive, near) c
    ]
  ]
  handle_event-Marks now (deferred_thread t args) s c = c
  handle_event-Marks now (add_async_event t fut) s c = c
  handle_event-Marks now clear_event s c = handle_clear-always Marks s (λ t. tt)
  handle_event-Marks now close_event s c = tt

  drop_key-Marks : (key xid : ℕ) (s : Loop) → MarksMay D s.cancel → Marks (drop_key key xid s)
  unfolding drop_key
  drop_key-Marks key xid s c = elim (Option-cases (get xid s.wait_keys)) [
    | inl n ↦ rw (n, drop_key) c
    | inr (ks, n) ↦ elim (Bool-cases (length ks == 0)) [
      | inl z ↦ rw (n, drop_key) (rw z tt)
      | inr z ↦ rw (n, drop_key) (rw z c)
    ]
  ]

  uncancel-Marks : (xid : ℕ) (s : Loop) → MarksMay D s.cancel → Marks (continues (uncancel xid s))
  unfolding uncancel remove
  uncancel-Marks xid s c = remove-MarksMay xid s.cancel c

  handle_wake-Marks :
      (now key : ℕ) (e : WaitingThread) (s : Loop)
      → MarksMay D s.cancel
      → Marks (handle_wake now key e s)
  unfolding handle_wake
  handle_wake-Marks now key e s c = elim (Bool-cases (check_lua s.world)) [
    | inr dead ↦ rw dead tt
    | inl alive ↦ elim (Bool-cases (contains (from_ptr e.thread) s.cancel)) [
      | inl marked ↦ rw (alive, marked) (uncancel-Marks (from_ptr e.thread) s c)
      | inr unmarked ↦
          rw (alive, unmarked)
            (drop_key-Marks key (from_ptr e.thread)
              (record s {
                world =
                    resumed "WaitingThread" e.thread (resume e.thread (wake_args now e) s.lua)
                      s.world;
              })
              (resumed-MarksMay "WaitingThread" e.thread (resume e.thread (wake_args now e) s.lua)
                s.world (lua.on_resume e.thread (wake_args now e) s.lua) c))
    ]
  ]

  handle_deferred-Marks :
      (d : DeferredThread) (s : Loop) → MarksMay D s.cancel → Marks (handle_deferred d s)
  unfolding handle_deferred
  handle_deferred-Marks d s c = elim (Bool-cases (check_lua s.world)) [
    | inr dead ↦ rw dead tt
    | inl alive ↦ elim (Bool-cases (contains d.xid s.cancel)) [
      | inl marked ↦ rw (alive, marked) (uncancel-Marks d.xid s c)
      | inr unmarked ↦ elim (Bool-cases (contains d.xid s.known_deferred_threads)) [
        | inl known ↦
            rw (alive, unmarked, known)
              (resumed-MarksMay "DeferredThread" d.thread (resume d.thread d.args s.lua) s.world
                (lua.on_resume d.thread d.args s.lua) c)
        | inr lost ↦ rw (alive, unmarked, lost) c
      ]
    ]
  ]

  resume_completed-MarksMay :
      (t : Thread) (r : Result Values Error) (w : World)
      → MarksMay D w.cancel
      → MarksMay D (resume_completed t r w).cancel
  unfolding resume_completed
  resume_completed-MarksMay t (ok v) w =
      resumed-MarksMay "DeferredThread" t (resume t v w.lua) w (lua.on_resume t v w.lua)
  resume_completed-MarksMay t (err e) w =
      resumed-MarksMay "DeferredThread" t (resume_error t (error_text e) w.lua) w
        (lua.on_error t (error_text e) w.lua)

  handle_outcome-MarksMay :
      (t : Thread) (o : Outcome Values Error) (w : World)
      → MarksMay D w.cancel
      → MarksMay D (handle_outcome t o w).cancel
  unfolding handle_outcome
  handle_outcome-MarksMay t (completed r) w c = by_status (status w.lua t)
    where
      by_status :
          (u : ThreadStatus)
          → MarksMay D
              (elim u as (λ _. World) [
                | finished ↦ w
                | error ↦ w
                | other ↦ resume_completed t r w
              ]).cancel
      by_status finished = c
      by_status error = c
      by_status other = resume_completed-MarksMay t r w c
  handle_outcome-MarksMay t (panicked p) w c =
      resumed-MarksMay "DeferredThread" t (resume_error t (error_payload p) w.lua) w
        (lua.on_error t (error_payload p) w.lua) c

  handle_async-Marks :
      (t : Thread) (o : Outcome Values Error) (s : Loop)
      → MarksMay D s.cancel
      → Marks (handle_async t o s)
  unfolding handle_async
  handle_async-Marks t o s c = elim (Bool-cases (check_lua s.world)) [
    | inr dead ↦ rw dead tt
    | inl alive ↦ rw alive (handle_outcome-MarksMay t o s.world c)
  ]

  abbrev Selects : Option (Flow Loop) → Type 0
  Selects none = Unit
  Selects (some f) = Marks f

  select-Marks :
      (arm : Arm) (s : Loop)
      → contents s.cancel_events ≡ []
      → MarksMay D s.cancel
      → Selects (select arm s)
  unfolding select
  select-Marks (on_event now) s v c = elim (Option-cases (recv s.events)) [
    | inl p ↦ rw (p, Selects) tt
    | inr (r, p) ↦ rw (p, Selects) (handle_event-Marks now r.0 _ c)
  ]
  select-Marks on_cancel s v c = rw (recv-of_nil s.cancel_events v, Selects) tt
  select-Marks (on_wake now) s v c = elim (Option-cases (next now s.wait_queue)) [
    | inl p ↦ rw (p, Selects) tt
    | inr (r, p) ↦ rw (p, Selects) (handle_wake-Marks now r.0.key r.0.value _ c)
  ]
  select-Marks on_deferred s v c = elim (Option-cases (recv s.deferred_queue)) [
    | inl p ↦ rw (p, Selects) tt
    | inr (r, p) ↦ rw (p, Selects) (handle_deferred-Marks r.0 _ c)
  ]
  select-Marks (on_async now) s v c = elim (Option-cases (poll_next now s.async_queue)) [
    | inl p ↦ rw (p, Selects) tt
    | inr (r, p) ↦ rw (p, Selects) (handle_async-Marks r.0.0 r.1 _ c)
  ]

  head-Marks : (s : Loop) → MarksMay D s.cancel → Marks (head s)
  unfolding head
  head-Marks s c = elim (Bool-cases (s.is_cancelled || not (check_lua s.world))) [
    | inl stops ↦ rw stops tt
    | inr goes ↦ rw goes c
  ]

  after_select-Marks : (f : Flow Loop) → Marks f → Marks (after_select f)
  unfolding after_select update_done
  after_select-Marks (falls t) c = head-Marks (update_done t) c
  after_select-Marks (continues t) c = head-Marks t c
  after_select-Marks (returns t) c = tt
  after_select-Marks (panics p) c = tt
  after_select-Marks (hangs t) c = tt

  -- Rounds and allowed calls keep it so.
  pub happen-MarksMay :
      (e : Event) (s : Loop) {t : Loop}
      → EventMay D e
      → contents s.cancel_events ≡ []
      → MarksMay D s.cancel
      → happen e s ≡ some (falls t)
      → MarksMay D t.cancel
  unfolding happen round
  happen-MarksMay (round_of arm) s {t} may v c p = elim (Option-cases (select arm s)) [
    | inl n ↦ cc (ap (Option.map after_select) n)
    | inr (f, q) ↦
        subst Marks (some-injective _ _ (sym (ap (Option.map after_select) q) ∙ p))
          (after_select-Marks f (subst Selects q (select-Marks arm s v c)))
  ]
  happen-MarksMay (outside l a) s may v c p =
      subst Marks (some-injective _ _ p) (call-MarksMay a (record s.world { lua = l }) may c)
