-- ===== src/AsyncFunction/Enters.antt =====
-- crates/scheduler/src/async.rs with taskmgr_v2.rs: how the future of a call comes to the manager.
use mlua_scheduler.Base.{ℕ, ◌≡◌, refl, sym, ap, ◌∙◌, true, some, [], ◌∷◌, ◌++◌, inl, inr, ok}
use mlua_scheduler.Deps.Lemmas.{recv-of_cons}
use mlua_scheduler.Deps.Runtime.{Runtime}
use mlua_scheduler.V2.State.{World, Loop, add_async_event, SchedulerEvent}
use mlua_scheduler.V2.Arms.{falls, handle_event}
use mlua_scheduler.V2.Run.{on_event, select}
use mlua_scheduler.TaskLib.Defs.{yields}
use mlua_scheduler.AsyncFunction.Defs.{Func}
use mlua_scheduler.AsyncFunction.Calls.{machine, func_called}
use mlua_scheduler.AsyncFunction.Agree.{func_called_cases}

module _ ⦃rt : Runtime⦄ where
  open rt use {Thread, Values, Fut, contents, pending, pending-push}

  -- The state after a future has been taken in.
  abbrev pub taken_in : Thread → Fut → rt.Chan SchedulerEvent → Loop → Loop
  taken_in t fut q s = record s {
    world = record s.world { core = record s.core { events = q } };
    locals = record s.locals { async_queue = rt.push t fut s.async_queue };
  }

  select-async :
      (now : ℕ) (t : Thread) (fut : Fut) (s : Loop) (q : rt.Chan SchedulerEvent)
      → rt.recv s.events ≡ some (add_async_event t fut, q)
      → select (on_event now) s ≡ some (falls (taken_in t fut q s))
  unfolding select handle_event
  select-async now t fut s q p = rw (p, select) refl

  -- Where the manager waits with no event under way, and an async function is called and yields, the
  -- manager takes one event for it. The future of the converted arguments is then in its set, for the
  -- calling thread, with those that were there; no event is left, and the machine is as it was.
  pub func_called-enters :
      {A R : Type 0} (f : Func A R) (box : A → Fut) (t : Thread) (args : Values) (now : ℕ)
      (s : Loop) {w : World}
      → contents s.events ≡ []
      → func_called f box true t args s.world ≡ (yields, w)
      → (a : A) × (u : Loop) × (f.from_lua_multi args ≡ ok a)
        × (select (on_event now) (record s { world = w }) ≡ some (falls u))
        × (pending u.async_queue ≡ (t, box a) ∷ pending s.async_queue)
        × (contents u.events ≡ [])
        × (u.lua ≡ s.lua)
  func_called-enters f box t args now s {w} empty yielded =
      elim (func_called_cases f box t args s.world true true) [
        | inl (e, p, q, r) ↦ cc (sym q ∙ yielded)
        | inr (a, v, p, called, events, busy, lua, same) ↦
            let at : v ≡ w = ap (λ (r, u). u) (sym called ∙ yielded) in
            let (q, r, rest) = recv-of_cons w.events (
              sym (ap (λ u. contents u.events) at)
              ∙ events
              ∙ ap (λ l. l ++ add_async_event t (box a) ∷ []) empty) in
            (
              a,
              taken_in t (box a) q (record s { world = w }),
              p,
              select-async now t (box a) (record s { world = w }) q r,
              pending-push t (box a) s.async_queue,
              rest,
              sym (ap (λ u. u.lua) at) ∙ lua,
            )
      ]
