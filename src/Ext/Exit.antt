-- ===== src/Ext/Exit.antt =====
-- crates/ext/src/lib.rs: what `exit_with_code_clear` leads to.
use mlua_scheduler.Base.{ℕ, ◌≡◌, ap, ◌∙◌, some, [], ◌∷◌, ◌++◌}
use mlua_scheduler.Deps.Runtime.{Runtime}
use mlua_scheduler.V2.State.{World, Loop, clear_event, call, push_event}
use mlua_scheduler.V2.Arms.{hangs}
use mlua_scheduler.V2.Run.{on_event, round}
use mlua_scheduler.V2.Deferred.{clear-hangs}
use mlua_scheduler.Ext.Scheduler.{Scheduler, exit_with_code, exit_with_code_clear}

module _ ⦃rt : Runtime⦄ where
  open rt use {contents, contents-send}

  -- After `exit_with_code_clear` on a manager with no event under way, the run is told to stop, but
  -- the branch that takes the next event hangs, and the run never stops.
  exit_with_code_clear-hangs :
      (now code : ℕ) (s : Scheduler) (l : Loop)
      → contents s.events ≡ []
      → l.world ≡ (exit_with_code_clear code s).task_manager
      → (t : Loop) × (round (on_event now) l ≡ some (hangs t)) × (t.is_running ≡ s.is_running)
  unfolding exit_with_code_clear exit_with_code call push_event
  exit_with_code_clear-hangs now code s l empty same =
      let first =
        ap (λ (w : World). contents w.events) same
        ∙ contents-send clear_event s.events
        ∙ ap (λ es. es ++ clear_event ∷ []) empty in
      let (t, p, waiting, deferred, events, running, d) = clear-hangs now l first in
      (t, p, running ∙ ap (λ (w : World). w.is_running) same)
