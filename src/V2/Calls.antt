-- ===== src/V2/Calls.antt =====
-- taskmgr_v2.rs: what calls of the manager, and so Lua code, leave alone.
use mlua_scheduler.Base.{◌≡◌, refl, ◌∙◌, true, List, [], ◌∷◌, String, Result, ok, err, arith}
use mlua_scheduler.Deps.Mlua.{
  Call, Ran, add_waiting_thread, on_response, ThreadStatus, finished, error, other,
}
use mlua_scheduler.Deps.Futures.{Outcome, completed, panicked}
use mlua_scheduler.Deps.Runtime.{Runtime}
use mlua_scheduler.V2.State.{CoreScheduler, World, call_core, call, calls}
use mlua_scheduler.V2.Arms.{resumed}
use mlua_scheduler.V2.Run.{resume_completed, handle_outcome, error_payload}

module _ ⦃rt : Runtime⦄ where
  open rt use {Thread, Values, Error, Fut, State}

  -- `done` can only be true afterwards if it was, and then no event was sent.
  pub record Kept (c d : CoreScheduler) : Type 0 where
    pub running : d.is_running ≡ c.is_running
    pub cancels : d.cancel_events ≡ c.cancel_events
    pub receiver : d.rx ≡ c.rx
    pub cancel_receiver : d.cancel_rx ≡ c.cancel_rx
    pub still_done : d.done ≡ true → c.done ≡ true
    pub no_event : d.done ≡ true → d.events ≡ c.events

  pub Kept-refl : (c : CoreScheduler) → Kept c c
  Kept-refl c = record {
    running = refl;
    cancels = refl;
    receiver = refl;
    cancel_receiver = refl;
    still_done = λ h. h;
    no_event = λ h. refl;
  }

  pub Kept-trans : {c d e : CoreScheduler} → Kept c d → Kept d e → Kept c e
  Kept-trans p q = record {
    running = q.running ∙ p.running;
    cancels = q.cancels ∙ p.cancels;
    receiver = q.receiver ∙ p.receiver;
    cancel_receiver = q.cancel_receiver ∙ p.cancel_receiver;
    still_done = λ h. p.still_done (q.still_done h);
    no_event = λ h. q.no_event h ∙ p.no_event (q.still_done h);
  }

  call_core-Kept : (a : Call Thread Values Error Fut) (c : CoreScheduler) → Kept c (call_core a c)
  unfolding call_core
  call_core-Kept (add_waiting_thread t args duration now) c = ground arith
  call_core-Kept _ c = ground arith

  -- The effect of a call on the world: the machine stays, the core is kept.
  pub call-Kept : (a : Call Thread Values Error Fut) (w : World) → Kept w.core (call a w).core
  unfolding call
  call-Kept (on_response _ _ _) w = Kept-refl w.core
  call-Kept a w = call_core-Kept a w.core

  pub calls-Kept :
      (cs : List (Call Thread Values Error Fut)) (w : World) → Kept w.core (calls cs w).core
  unfolding calls
  calls-Kept [] w = Kept-refl w.core
  calls-Kept (c ∷ cs) w = Kept-trans (call-Kept c w) (calls-Kept cs (call c w))

  pub resumed-Kept :
      (label : String) (t : Thread) (r : Ran Thread Values Error Fut State) (w : World)
      → Kept w.core (resumed label t r w).core
  unfolding resumed
  resumed-Kept label t r w = calls-Kept r.calls (record w { lua = r.lua })

  resume_completed-Kept :
      (t : Thread) (r : Result Values Error) (w : World) → Kept w.core (resume_completed t r w).core
  unfolding resume_completed
  resume_completed-Kept t (ok v) w = resumed-Kept "DeferredThread" t (rt.resume t v w.lua) w
  resume_completed-Kept t (err e) w =
      resumed-Kept "DeferredThread" t (rt.resume_error t (rt.error_text e) w.lua) w

  pub handle_outcome-Kept :
      (t : Thread) (o : Outcome Values Error) (w : World) → Kept w.core (handle_outcome t o w).core
  unfolding handle_outcome
  handle_outcome-Kept t (completed r) w = by_status (rt.status w.lua t)
    where
      by_status :
          (u : ThreadStatus)
          → Kept w.core
              (elim u as (λ _. World) [
                | finished ↦ w
                | error ↦ w
                | other ↦ resume_completed t r w
              ]).core
      by_status finished = Kept-refl w.core
      by_status error = Kept-refl w.core
      by_status other = resume_completed-Kept t r w
  handle_outcome-Kept t (panicked p) w =
      resumed-Kept "DeferredThread" t (rt.resume_error t (error_payload p) w.lua) w
