-- ===== src/V2/NoLoss.antt =====
-- taskmgr_v2.rs: no wait is lost where no one cancels.
use mlua_scheduler.Base.{◌≡◌, List, [], All}
use mlua_scheduler.Collections.{contains}
use mlua_scheduler.Deps.Runtime.{Runtime}
use mlua_scheduler.Contract.Asks.{LuaMay}
use mlua_scheduler.Contract.Spec.{
  Rules, Report, Job, wait as wait_job, deferred as deferred_job, async as async_job,
}
use mlua_scheduler.Contract.Conserve.{Account}
use mlua_scheduler.V2.State.{World, Loop, new}
use mlua_scheduler.V2.Run.{Event}
use mlua_scheduler.V2.Reach.{Reach}
use mlua_scheduler.V2.View.{view}
use mlua_scheduler.V2.Account.{Schedule, Schedule-Account}
use mlua_scheduler.V2.Marks.{EventMay}

module _ ⦃rt : Runtime⦄ where
  open rt use {Thread, Values, Error, Fut, contents}

  abbrev NotWait : Job Thread Values Fut → Type 0
  NotWait (wait_job t args) = ⊥
  NotWait (deferred_job t args) = Unit
  NotWait (async_job t fut) = Unit

  -- The rules by which waits may not be dropped.
  abbrev pub waits_kept :
      (Job Thread Values Fut → Type 0)
      → (Report Thread Values Error → Type 0)
      → Rules Thread Values Error Fut
  waits_kept N O = record { may_drop = NotWait; may_add = N; may_report = O }

-- Lua code that asks only for jobs in N and reports in O, and so cancels nothing.
module _ ⦃rt : Runtime⦄ (N : Job rt.Thread rt.Values rt.Fut → Type 0)
    (O : Report rt.Thread rt.Values rt.Error → Type 0)
    (lua : LuaMay ⦃m = rt.mlua⦄ (waits_kept N O)) where
  -- Where Lua code and the calls from outside cancel no thread and none is marked, and the jobs that
  -- they ask for are in N and the reports that they make in O: over any schedule of a manager that
  -- was made by `new` and then run, no thread that waits is dropped. Each wait that was held, or was
  -- given since and is then in N, has been served once, with a report for its thread, or is held
  -- still; and a new report is that of a service, or is in O.
  no_wait_lost :
      {w : World} {s t : Loop} {es : List Event}
      → w.core ≡ new
      → Reach w s
      → s.cancel ≡ []
      → Schedule s es t
      → All (EventMay (waits_kept N O)) es
      → Account (waits_kept N O) (view s) (view t)
  unfolding contains
  no_wait_lost n r c p may =
      Schedule-Account (waits_kept N O) (record { queued = λ t args. tt; over = λ l t f o. tt }) lua
        n r (λ t args marked. cc (rw c at marked)) p may
