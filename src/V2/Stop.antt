-- ===== src/V2/Stop.antt =====
-- taskmgr_v2.rs: `stop` while `run` waits with nothing to do.
use mathlib.Core.Option
use mlua_scheduler.Base.{◌≡◌, refl, ap, true, none, some}
use mlua_scheduler.Deps.Mlua.{stop}
use mlua_scheduler.Deps.Runtime.{Runtime}
use mlua_scheduler.V2.State.{World, Loop, new, call, call_core}
use mlua_scheduler.V2.Arms.{falls}
use mlua_scheduler.V2.Run.{Arm, outside, happen, round, after_select}
use mlua_scheduler.V2.Invariant.{Idle}
use mlua_scheduler.V2.Rounds.{Idle-select}
use mlua_scheduler.V2.Reach.{Reach, Reach-Inv, later}

module _ ⦃rt : Runtime⦄ where
  -- The state after other code has called `stop`.
  abbrev pub told_to_stop : Loop → Loop
  unfolding call
  told_to_stop s = record s { world = call stop s.world }

  -- Where a manager that was made by `new` and then run waits with nothing queued, and `stop` is
  -- called: it counts as cancelled, but also as running, and no branch is ready by which `run` could
  -- come to the head of its loop and return.
  pub stop-waits :
      {w : World} {s : Loop} (arm : Arm)
      → w.core ≡ new
      → Reach w s
      → Idle s
      → (happen (outside s.lua stop) s ≡ some (falls (told_to_stop s)))
        × ((told_to_stop s).is_cancelled ≡ true)
        × ((told_to_stop s).is_running ≡ true)
        × (round arm (told_to_stop s) ≡ none)
  unfolding happen call call_core round
  stop-waits {s} arm made reach idle = (
    refl,
    refl,
    (Reach-Inv made reach).sound.running,
    ap (Option.map after_select) (
        Idle-select arm (told_to_stop s) (Reach-Inv made (later (outside s.lua stop) reach refl))
          (record {
            no_events = idle.no_events;
            no_waits = idle.no_waits;
            no_asyncs = idle.no_asyncs;
            no_deferred = idle.no_deferred;
          })),
  )
