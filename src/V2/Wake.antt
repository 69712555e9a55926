-- ===== src/V2/Wake.antt =====
-- taskmgr_v2.rs: the end of a wait, for threads that were cancelled and threads that were not.
use mlua_scheduler.Base.{
  ℕ, ◌≡◌, ap, false, none, some, [], arith, Bool-cases, inl, inr, Removed-nil,
}
use mathlib.Core.Option
use mlua_scheduler.Collections.{contains-remove}
use mlua_scheduler.Deps.DelayQueue.{Entry}
use mlua_scheduler.Deps.Runtime.{Runtime}
use mlua_scheduler.V2.State.{World, Loop, WaitingThread, new, check_lua}
use mlua_scheduler.V2.Arms.{falls}
use mlua_scheduler.V2.Run.{Arm, on_wake, round, select, after_select, happen, round_of}
use mlua_scheduler.V2.Invariant.{Idle, Inv, thread_id}
use mlua_scheduler.V2.Rounds.{Idle-select}
use mlua_scheduler.V2.Reach.{Reach, Reach-Inv, later}
use mlua_scheduler.V2.Cancel.{Marked, skipped, round-Marked, woken, select_unmarked}

module _ ⦃rt : Runtime⦄ where
  open rt use {DelayQueue, entries, next, next-Removed, contents, pending}

  -- A mark is used up by the first wait that ends: in a state that a manager made by `new` reaches,
  -- and with Lua alive and the manager not stopped, where two waits of one marked thread end one
  -- after the other, `cancel_task` stops the first, and the second resumes the thread.
  pub cancel_once :
      {w : World} {s : Loop} (now later_on : ℕ) (e d : Entry WaitingThread)
      (q r : DelayQueue WaitingThread)
      → w.core ≡ new
      → Reach w s
      → Marked now s e q
      → thread_id d.value ≡ thread_id e.value
      → next later_on q ≡ some (d, r)
      → (round (on_wake now) s ≡ some (falls (skipped s e q)))
        × (t : Loop) × (select (on_wake later_on) (skipped s e q) ≡ some (falls t))
        × (t.world ≡ woken later_on d (skipped s e q))
        × (t.wait_queue ≡ r)
  unfolding happen
  cancel_once {s} now later_on e d q r new_core reach m same due =
      let step = round-Marked now s e q m in
      let v = Reach-Inv new_core (later (round_of (on_wake now)) reach step) in
      let (t, p, a, b) =
        select_unmarked later_on (skipped s e q) d r v due (unfold check_lua in m.alive)
          (ground (arith, contains-remove (thread_id e.value) (thread_id d.value) s.cancel)) in
      (step, t, p, a, b)

  -- In a state that a manager made by `new` reaches, with Lua alive and the manager not stopped, if
  -- the last thing queued is a wait of a cancelled thread, its end leaves nothing queued and
  -- `done` false, and no branch is ready that could set it, so `wait_till_done` waits on.
  pub cancel_last_wait :
      {w : World} {s : Loop} (now : ℕ) (e : Entry WaitingThread) (q : DelayQueue WaitingThread)
      (arm : Arm)
      → w.core ≡ new
      → Reach w s
      → Marked now s e q
      → entries q ≡ []
      → contents s.events ≡ []
      → pending s.async_queue ≡ []
      → contents s.deferred_queue ≡ []
      → (round (on_wake now) s ≡ some (falls (skipped s e q)))
        × Idle (skipped s e q)
        × ((skipped s e q).done ≡ false)
        × (round arm (skipped s e q) ≡ none)
  unfolding happen round
  cancel_last_wait {s} now e q arm new_core reach m no_waits no_events no_asyncs no_deferred =
      (step, idle, busy, ap (Option.map after_select) (Idle-select arm _ v idle))
    where
      step : round (on_wake now) s ≡ some (falls (skipped s e q))
      step = round-Marked now s e q m

      v : Inv (skipped s e q)
      v = Reach-Inv new_core (later (round_of (on_wake now)) reach step)

      idle : Idle (skipped s e q)
      idle = record {
        no_events = no_events;
        no_waits = no_waits;
        no_asyncs = no_asyncs;
        no_deferred = no_deferred;
      }

      busy : s.done ≡ false
      busy = elim (Bool-cases s.done) [
        | inr h ↦ h
        | inl h ↦ absurd (
            Removed-nil (
              rw ((Reach-Inv new_core reach).quiet h).no_waits at
                (next-Removed now s.wait_queue m.due)))
      ]
