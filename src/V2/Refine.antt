-- ===== src/V2/Refine.antt =====
-- taskmgr_v2.rs refines the specification: each step of a manager that waits is one of the bag of
-- jobs.
use mathlib.Core.Option.{some-injective}
use mlua_scheduler.Base.{◌≡◌, subst, some}
use mlua_scheduler.Deps.Runtime.{Runtime}
use mlua_scheduler.Contract.Spec.{Rules, Steps}
use mlua_scheduler.Contract.Asks.{LuaMay}
use mlua_scheduler.V2.State.{World, Loop, new}
use mlua_scheduler.V2.Arms.{Flow, falls}
use mlua_scheduler.V2.Run.{Event, round_of, outside, happen}
use mlua_scheduler.V2.Reach.{Reach, Reach-Inv}
use mlua_scheduler.V2.Marks.{EventMay, MarksMay}
use mlua_scheduler.V2.Branches.{MayLose}
use mlua_scheduler.V2.Follow.{round-Follows}
use mlua_scheduler.V2.View.{Spec, view, queued, call-Steps}

module _ ⦃rt : Runtime⦄ where
  open rt use {Thread, Values, Error, Fut}

  abbrev Goes : Rules Thread Values Error Fut → Spec → Flow Loop → Type 0
  Goes D x (falls t) = Steps D x (view t)
  Goes D x _ = Unit

  -- From every state in which a manager that was made by `new` and then run waits: a round after
  -- which it waits again, and a call from outside, are steps of the specification
  -- (Contract.Spec.Steps), for all rules that allow the jobs, the reports and the cancellations that
  -- Lua code and the call ask for, and by which these may be dropped: the waits of the threads that
  -- are marked as cancelled, the deferred threads, and the futures of threads that can be over. So a
  -- wait is dropped only where it was cancelled, and a job comes into the bag, or a report is made
  -- without a job, only where it was asked for.
  pub happen_refines :
      (D : Rules Thread Values Error Fut)
      → MayLose D
      → LuaMay ⦃m = rt.mlua⦄ D
      → {w : World} {s t : Loop} (ev : Event) → EventMay D ev
      → MarksMay D s.cancel
      → w.core ≡ new
      → Reach w s
      → happen ev s ≡ some (falls t)
      → Steps D (view s) (view t)
  unfolding happen
  happen_refines D lose lua {w} {s} (round_of arm) may marks e r p =
      round-Follows D lua lose arm s marks (Reach-Inv e r).no_cancels p
  happen_refines D lose lua {w} {s} (outside l c) may marks e r p =
      subst (Goes D (view s)) (some-injective _ _ p)
        (call-Steps c (queued s.locals) (record s.world { lua = l }) may)
