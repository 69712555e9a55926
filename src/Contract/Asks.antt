-- ===== src/Contract/Asks.antt =====
-- What Lua code and other code ask of a manager, against the rules of a specification.
use mlua_scheduler.Base.{◌≡◌, All, String, Option}
use mlua_scheduler.Deps.Mlua.{
  Mlua, Call, add_waiting_thread, add_deferred_thread, add_async, cancel_task, clear, on_response,
}
use mlua_scheduler.Contract.Spec.{
  Rules, wait as wait_job, deferred as deferred_job, async as async_job,
}

module _ ⦃m : Mlua⦄ where
  open m use {Thread, Values, Error, Fut, State, resume, resume_error, to_pointer}

  -- The waits and the deferred threads of the threads in `P` may be dropped.
  pub record DropMay (D : Rules Thread Values Error Fut) (P : Thread → Type 0) : Type 0 where
    pub waits : (t : Thread) (args : Option Values) → P t → D.may_drop (wait_job t args)
    pub queued : (t : Thread) (args : Values) → P t → D.may_drop (deferred_job t args)

  -- The job that a call adds, the report that it makes, or the jobs that it asks to drop are ones
  -- that the rules allow.
  abbrev pub CallMay : Rules Thread Values Error Fut → Call Thread Values Error Fut → Type 0
  CallMay D (add_waiting_thread t args duration now) = D.may_add (wait_job t args)
  CallMay D (add_deferred_thread t args) = D.may_add (deferred_job t args)
  CallMay D (add_async t fut) = D.may_add (async_job t fut)
  CallMay D (on_response label t r) =
      D.may_report (record { label = label; thread = t; result = r })
  CallMay D (cancel_task t) = DropMay D (λ u. to_pointer u ≡ to_pointer t)
  CallMay D clear = DropMay D (λ u. Unit)
  CallMay D _ = Unit

  -- Lua code that asks only for what the rules allow.
  pub record LuaMay (D : Rules Thread Values Error Fut) : Type 0 where
    pub on_resume : (t : Thread) (v : Values) (l : State) → All (CallMay D) (resume t v l).calls
    pub on_error :
        (t : Thread) (e : String) (l : State) → All (CallMay D) (resume_error t e l).calls
