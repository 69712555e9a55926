-- ===== src/Managers.antt =====
-- taskmgr_v1.rs and taskmgr_v2.rs side by side, on threads that only wait.
use mathlib.Core.Bool.{true≢false}
use mlua_scheduler.Base.{ℕ, ◌+◌, ◌≡◌, sym, ap, ◌∙◌, true, some, List, [], All, map, arith, String}
use mlua_scheduler.Collections.{contains}
use mlua_scheduler.Deps.Mlua.{Mlua, other}
use mlua_scheduler.Deps.BinaryHeap.{BinaryHeap}
use mlua_scheduler.Deps.Runtime.{Runtime}
use mlua_scheduler.Contract.Spec.{Rules}
use mlua_scheduler.Contract.Asks.{LuaMay}
use mlua_scheduler.Contract.Conserve.{Steps-Account}
use mlua_scheduler.Contract.Tally.{sum, weight}
use mlua_scheduler.Contract.Waits.{only_waits, not_wait, wait_of, report_for, Account-waits}
use mlua_scheduler.V1.State as V1State
use mlua_scheduler.V1.Process as V1Process
use mlua_scheduler.V1.View as V1View
use mlua_scheduler.V1.Serve as V1Serve
use mlua_scheduler.V1.Refine.{TickMay, run_refines}
use mlua_scheduler.V2.State as V2State
use mlua_scheduler.V2.Run.{Event}
use mlua_scheduler.V2.Reach.{Reach}
use mlua_scheduler.V2.View as V2View
use mlua_scheduler.V2.Marks.{EventMay}
use mlua_scheduler.V2.Account.{Schedule, Schedule-Account}

module _ ⦃m : Mlua⦄ where
  open m use {Thread, Values, State, resume, resume_error, status, is_alive}

  -- Lua code that makes no calls of a manager, in a machine that stays alive and in which no thread
  -- is ever over: each yields at the end of every run.
  pub record Steady : Type 0 where
    pub no_calls : (t : Thread) (v : Values) (l : State) → (resume t v l).calls ≡ []
    pub no_error_calls : (t : Thread) (e : String) (l : State) → (resume_error t e l).calls ≡ []
    pub alive : (l : State) → is_alive l ≡ true
    pub goes_on : (l : State) (t : Thread) → status l t ≡ other

  Steady-LuaMay : Steady → (D : Rules Thread Values m.Error m.Fut) → LuaMay D
  Steady-LuaMay steady D = record {
    on_resume = λ t v l. rw (steady.no_calls t v l) tt;
    on_error = λ t e l. rw (steady.no_error_calls t e l) tt;
  }

  Steady-MayLose :
      ⦃h : BinaryHeap V1State.WaitingThread V1State.at_most⦄ → Steady → V1Serve.MayLose only_waits
  Steady-MayLose steady = record {
    over = λ l. record {
      waits = λ t args over. absurd (over (steady.goes_on l t));
      queued = λ t args over. tt;
    };
    dead = λ l dead. absurd (true≢false (sym (steady.alive l) ∙ dead));
  }

  -- In a run of the first manager that began with nothing but waits, what a thread waits and what it
  -- was reported are in balance.
  run-waits :
      ⦃h : BinaryHeap V1State.WaitingThread V1State.at_most⦄ (steady : Steady) (k : ℕ)
      (ticks fuel : ℕ) (env : ℕ → V1Process.Tick) (w : V1State.World) {v : V1State.World}
      → ((i : ℕ) → TickMay only_waits (env i))
      → V1Process.run ticks fuel env w ≡ some v
      → weight not_wait (V1View.view w).jobs ≡ 0
      → weight (wait_of m.to_pointer k) (V1View.view w).jobs
          + sum (report_for m.to_pointer k) (V1View.view w).reports
        ≡ weight (wait_of m.to_pointer k) (V1View.view v).jobs
          + sum (report_for m.to_pointer k) (V1View.view v).reports
  run-waits steady k ticks fuel env w may r only =
      Account-waits m.to_pointer k
        (Steps-Account (
          run_refines only_waits (Steady-MayLose steady) (Steady-LuaMay steady only_waits) ticks
            fuel env w may r))
        only

module _ ⦃rt : Runtime⦄ where
  open rt use {Thread, Values, Error, Fut, to_pointer}

  -- The same for a schedule of the second manager that began where no thread was marked as cancelled.
  Schedule-waits :
      (steady : Steady ⦃m = rt.mlua⦄) (k : ℕ) {w : V2State.World} {s t : V2State.Loop}
      {es : List Event}
      → w.core ≡ V2State.new
      → Reach w s
      → s.cancel ≡ []
      → Schedule s es t
      → All (EventMay only_waits) es
      → weight not_wait (V2View.view s).jobs ≡ 0
      → weight (wait_of to_pointer k) (V2View.view s).jobs
          + sum (report_for to_pointer k) (V2View.view s).reports
        ≡ weight (wait_of to_pointer k) (V2View.view t).jobs
          + sum (report_for to_pointer k) (V2View.view t).reports
  unfolding contains
  Schedule-waits steady k made reach clean run may only =
      Account-waits to_pointer k
        (Schedule-Account only_waits (record { queued = λ t args. tt; over = λ l t f o. tt })
          (Steady-LuaMay ⦃m = rt.mlua⦄ steady only_waits) made reach
          (λ t args marked. cc (rw clean at marked)) run may)
        only

module _ ⦃rt : Runtime⦄
    ⦃h : BinaryHeap (V1State.WaitingThread ⦃m = rt.mlua⦄) (V1State.at_most ⦃m = rt.mlua⦄)⦄ where
  open rt use {Thread, Values, Error, Fut, to_pointer}

  abbrev view1 : V1State.World ⦃m = rt.mlua⦄ → V1View.Spec ⦃m = rt.mlua⦄
  view1 w = V1View.view ⦃m = rt.mlua⦄ w

  -- The two managers agree on threads that only wait. Lua code makes no calls, the machine stays
  -- alive and no thread is ever over; other tasks ask for nothing that adds or cancels a job, or
  -- reports. Both start without reports and with the same jobs, all of them waits, the second with
  -- no thread marked as cancelled. When a run of the first has ended with no wait of the threads
  -- with id `k` left, and a schedule of the second has come to where it holds none: both have
  -- reported these threads as often as they waited at the start.
  pub managers_agree :
      (steady : Steady ⦃m = rt.mlua⦄) (k : ℕ) (ticks fuel : ℕ)
      (env : ℕ → V1Process.Tick ⦃m = rt.mlua⦄) (w : V1State.World ⦃m = rt.mlua⦄)
      {v : V1State.World ⦃m = rt.mlua⦄} {u : V2State.World} {s t : V2State.Loop} {es : List Event}
      → ((i : ℕ) → TickMay ⦃m = rt.mlua⦄ only_waits (env i))
      → V1Process.run ⦃m = rt.mlua⦄ ticks fuel env w ≡ some v
      → u.core ≡ V2State.new
      → Reach u s
      → s.cancel ≡ []
      → Schedule s es t
      → All (EventMay only_waits) es
      → (view1 w).jobs ≡ (V2View.view s).jobs
      → weight not_wait (V2View.view s).jobs ≡ 0
      → w.responses ≡ []
      → s.responses ≡ []
      → weight (wait_of to_pointer k) (view1 v).jobs ≡ 0
      → weight (wait_of to_pointer k) (V2View.view t).jobs ≡ 0
      → (sum (report_for to_pointer k) (view1 v).reports
          ≡ weight (wait_of to_pointer k) (V2View.view s).jobs)
        × (sum (report_for to_pointer k) (V2View.view t).reports
            ≡ weight (wait_of to_pointer k) (V2View.view s).jobs)
  unfolding sum
  managers_agree steady k ticks fuel env w {s} may r made reach clean run asks same only none1 none2
        left1 left2 =
      let first =
        run-waits ⦃m = rt.mlua⦄ steady k ticks fuel env w may r
          (ap (weight not_wait) same ∙ only) in
      let second = Schedule-waits steady k made reach clean run asks only in
      let start = ap (weight (wait_of to_pointer k)) same in
      (
        omega (
          arith,
          first,
          left1,
          start,
          ap (λ rs. sum (report_for to_pointer k) (map V1View.report_of rs)) none1,
        ),
        omega (
          arith,
          second,
          left2,
          ap (λ rs. sum (report_for to_pointer k) (map V2View.report_of rs)) none2,
        ),
      )
