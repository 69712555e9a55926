-- ===== src/V2/Safety.antt =====
-- taskmgr_v2.rs: what the flags and keys of the manager promise to those who wait for it.
use mlua_scheduler.Base.{◌≡◌, true, false, some}
use mlua_scheduler.Deps.Mlua.{unstop}
use mlua_scheduler.Deps.Runtime.{Runtime}
use mlua_scheduler.V2.State.{World, Loop, new, call}
use mlua_scheduler.V2.Arms.{returns, panics, no_receiver}
use mlua_scheduler.V2.Run.{Event, happen, start}
use mlua_scheduler.V2.Keys.{Keyed, Distinct}
use mlua_scheduler.V2.Invariant.{Idle, thread_id}
use mlua_scheduler.V2.Reach.{Reach, Reach-Inv, Reach-Rounded}

module _ ⦃rt : Runtime⦄ where
  open rt use {entries}

  -- Where a manager that was made by `new` and then run waits for its next branch, after any calls,
  -- any schedule of branches and anything that Lua code did, its `done` flag is true only if no
  -- event, no waiting thread, no deferred thread and no future is queued: `wait_till_done` does not
  -- return early.
  pub done-Idle : {w : World} {s : Loop} → w.core ≡ new → Reach w s → s.done ≡ true → Idle s
  done-Idle e r h = (Reach-Inv e r).quiet h

  -- In every state in which a manager that was made by `new` and then run waits, the keys of the
  -- delay queue are distinct, and each stands in the list that `wait_keys` has for the thread that
  -- waits under it.
  pub wait_keys-Keyed :
      {w : World} {s : Loop}
      → w.core ≡ new
      → Reach w s
      → Keyed thread_id s.wait_keys (entries s.wait_queue) × Distinct (entries s.wait_queue)
  wait_keys-Keyed e r = let v = Reach-Inv e r in (v.keyed, v.distinct)

  -- In every state in which a manager that was made by `new` and then run waits, it says that it is
  -- running; and where `run` returns from it, by whatever path, `is_running` is false and `done` is
  -- true.
  pub happen-returns :
      {w : World} {s t : Loop} (ev : Event)
      → w.core ≡ new
      → Reach w s
      → happen ev s ≡ some (returns t)
      → (s.is_running ≡ true) × (t.is_running ≡ false) × (t.done ≡ true)
  happen-returns ev e r p = let q = Reach-Rounded ev e r p in ((Reach-Inv e r).running, q.0, q.1)

  -- A manager runs once: where a manager that was made by `new` and then run
  -- waits, and `run` returns from there, the receivers are gone, and to run it
  -- again, after `unstop` and whatever the state of Lua, panics.
  pub start_again-panics :
      {w : World} {s t : Loop} (ev : Event)
      → w.core ≡ new
      → Reach w s
      → happen ev s ≡ some (returns t)
      → start (call unstop t.world) ≡ panics no_receiver
  unfolding start call
  start_again-panics ev e r p = rw (Reach-Rounded ev e r p).2
