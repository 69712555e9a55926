-- ===== src/V2/Account.antt =====
-- taskmgr_v2.rs: what becomes of every job, over a whole schedule of branches and calls.
use mlua_scheduler.Base.{All, ◌≡◌, some, List, [], ◌∷◌}
use mlua_scheduler.Deps.Runtime.{Runtime}
use mlua_scheduler.Contract.Asks.{LuaMay}
use mlua_scheduler.Contract.Spec.{Rules, Steps, done, Steps-trans}
use mlua_scheduler.Contract.Conserve.{Account, Steps-Account}
use mlua_scheduler.V2.State.{World, Loop, new}
use mlua_scheduler.V2.Arms.{falls}
use mlua_scheduler.V2.Run.{Event, happen}
use mlua_scheduler.V2.Reach.{Reach, Reach-Inv, later}
use mlua_scheduler.V2.View.{view}
use mlua_scheduler.V2.Marks.{EventMay, MarksMay, happen-MarksMay}
use mlua_scheduler.V2.Branches.{MayLose}
use mlua_scheduler.V2.Refine.{happen_refines}

module _ ⦃rt : Runtime⦄ where
  open rt use {Thread, Values, Error, Fut}

  -- The schedule `es`, after each event of which the manager waits.
  pub data Schedule (s : Loop) : List Event → Loop → Type 0 where
    start_here : Schedule s [] s
    and_then :
        {es : List Event} {t u : Loop} (e : Event)
        → Schedule s es t
        → happen e t ≡ some (falls u)
        → Schedule s (e ∷ es) u

  pub Schedule-Reach :
      {w : World} {s t : Loop} {es : List Event} → Reach w s → Schedule s es t → Reach w t
  Schedule-Reach r start_here = r
  Schedule-Reach r (and_then e p q) = later e (Schedule-Reach r p) q

  Schedule-MarksMay :
      (D : Rules Thread Values Error Fut)
      → LuaMay ⦃m = rt.mlua⦄ D
      → {w : World} {s t : Loop} {es : List Event} → w.core ≡ new
      → Reach w s
      → MarksMay D s.cancel
      → Schedule s es t
      → All (EventMay D) es
      → MarksMay D t.cancel
  Schedule-MarksMay D lua n r c start_here may = c
  Schedule-MarksMay D lua n r c (and_then {t} e p q) (m, ms) =
      happen-MarksMay D lua e t m (Reach-Inv n (Schedule-Reach r p)).no_cancels
        (Schedule-MarksMay D lua n r c p ms) q

  Schedule-Steps :
      (D : Rules Thread Values Error Fut)
      → MayLose D
      → LuaMay ⦃m = rt.mlua⦄ D
      → {w : World} {s t : Loop} {es : List Event} → w.core ≡ new
      → Reach w s
      → MarksMay D s.cancel
      → Schedule s es t
      → All (EventMay D) es
      → Steps D (view s) (view t)
  Schedule-Steps D lose lua n r c start_here may = done _
  Schedule-Steps D lose lua n r c (and_then e p q) (m, ms) =
      Steps-trans (Schedule-Steps D lose lua n r c p ms) (
        happen_refines D lose lua e m (Schedule-MarksMay D lua n r c p ms) n (Schedule-Reach r p) q)

  -- Over any schedule of a manager that was made by `new` and then run, and for all rules that allow
  -- the jobs, the reports and the cancellations that Lua code and the calls from outside ask for, and
  -- by which these may be dropped: the waits of the threads that were marked as cancelled at the
  -- start, the deferred threads, and the futures of threads that can be over. The waits, deferred
  -- threads and futures that the manager held or was given since have each been served once,
  -- dropped as the rules allow (so a wait only where it was cancelled), or are held still; those
  -- given, and the reports made without a job, are ones that the rules allow; and each service has a
  -- report of its own, for the thread that was served, among the new reports and in their order.
  pub Schedule-Account :
      (D : Rules Thread Values Error Fut)
      → MayLose D
      → LuaMay ⦃m = rt.mlua⦄ D
      → {w : World} {s t : Loop} {es : List Event} → w.core ≡ new
      → Reach w s
      → MarksMay D s.cancel
      → Schedule s es t
      → All (EventMay D) es
      → Account D (view s) (view t)
  Schedule-Account D lose lua n r c p may = Steps-Account (Schedule-Steps D lose lua n r c p may)
