-- ===== src/TaskLib/Laws.antt =====
-- crates/scheduler/src/userdata.rs: what the functions of the library leave in the manager.
use mlua_scheduler.Base.{
  ℕ, ◌≤◌, ◌≡◌, ◌⊎◌, refl, subst, sym, ◌∙◌, true, false, Option, none, some, [], ◌∷◌, ◌++◌, arith,
  Option-cases, inl, inr, Result-cases, ==_refl,
}
use mlua_scheduler.Collections.{contains, insert, contains-insert}
use mlua_scheduler.Deps.Mlua.{add_waiting_thread}
use mlua_scheduler.Deps.Runtime.{Runtime}
use mlua_scheduler.V2.State.{World, call, wait as wait_event, from_ptr, mark_cancelled}
use mlua_scheduler.TaskLib.Defs.{panics, yields, Seconds, cancel, wait, wait_duration}

module _ ⦃rt : Runtime⦄ where
  open rt use {Thread, Values, Error, F64, close, contents, contents-send}

  abbrev Bounded : Option ℕ → Type 0
  Bounded none = Unit
  Bounded (some d) = 50_000_000 ≤ d

  pub at_least :
      (sec : Seconds F64) (time : Option F64) {d : ℕ}
      → wait_duration sec time ≡ some d
      → 50_000_000 ≤ d
  at_least sec none p = subst Bounded (sym sec.from_min_wait ∙ p) (omega arith)
  at_least sec (some t) p = sec.from_max t p

  -- `task.wait` either panics, where the number of seconds is no duration, and leaves the world as it
  -- was; or it sends the manager one event, behind all others, which wakes the calling thread after
  -- at least 50 milliseconds, clears `done`, and yields.
  pub wait_cases :
      (sec : Seconds F64) (time : Option F64) (current : Thread) (now : ℕ) (w : World)
      → (wait sec time current now w ≡ (panics, w))
        ⊎ ((d : ℕ) × (v : World) × (50_000_000 ≤ d)
            × (wait sec time current now w ≡ (yields, v))
            × (contents v.events ≡ contents w.events ++ wait_event none current now d ∷ [])
            × (v.done ≡ false)
            × (v.lua ≡ w.lua))
  unfolding wait call
  wait_cases sec time current now w = elim (Option-cases (wait_duration sec time)) [
    | inl p ↦ inl (rw (p, wait))
    | inr (d, p) ↦ inr (
      d,
      call (add_waiting_thread current none d now) w,
      at_least sec time p,
      rw (p, wait),
      contents-send _ w.events,
      refl,
      refl,
    )
  ]

  -- `task.cancel` marks the thread's id, whether or not `coroutine.close` fails, and sends no event.
  cancel_marks :
      (t : Thread) (w : World)
      → (contains (from_ptr t) (cancel t w).1.cancel ≡ true)
        × ((cancel t w).1.events ≡ w.events)
        × ((cancel t w).1.done ≡ w.done)
  unfolding cancel call mark_cancelled
  cancel_marks t w = elim (Result-cases (close t w.lua).0) [
    | inl (u, p) ↦ rw (p, cancel) (marked, refl, refl)
    | inr (e, p) ↦ rw (p, cancel) (marked, refl, refl)
  ]
    where
      marked : contains (from_ptr t) (insert (from_ptr t) w.cancel) ≡ true
      marked = rw (contains-insert, ==_refl)
