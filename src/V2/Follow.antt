-- ===== src/V2/Follow.antt =====
-- taskmgr_v2.rs: a round of the loop as steps of the specification. Which jobs may be dropped is a
-- parameter.
use mathlib.Core.Option
use mathlib.Core.Option.{some-injective}
use mlua_scheduler.Base.{
  ◌≡◌, refl, sym, ap, subst, ◌∙◌, not, ◌||◌, Option, none, some, [], map, Option-cases, Bool-cases,
  inl, inr,
}
use mlua_scheduler.Deps.Lemmas.{recv-eq-some, recv-of_nil}
use mlua_scheduler.Deps.Runtime.{Runtime}
use mlua_scheduler.Contract.Bag.{bag, put_all, put_all-put, put_all-append, put_all-Removed}
use mlua_scheduler.Contract.Asks.{LuaMay}
use mlua_scheduler.Contract.Spec.{Rules, Steps}
use mlua_scheduler.V2.State.{Loop, check_lua}
use mlua_scheduler.V2.Arms.{Flow, falls, continues, returns, panics, hangs}
use mlua_scheduler.V2.Run.{
  Arm, on_event, on_cancel, on_wake, on_deferred, on_async, select, round, after_select, head,
  update_done,
}
use mlua_scheduler.V2.Marks.{MarksMay}
use mlua_scheduler.V2.View.{
  Spec, view, queued, event_jobs, sent_jobs, waiting_job, queued_job, future_job,
}
use mlua_scheduler.V2.Branches.{
  waits_over, deferred_over, futures, sent_over, out_of_waits, out_of_deferred, MayLose, Follows,
  handle_event-Follows, handle_wake-Follows, handle_deferred-Follows, handle_async-Follows,
}

module _ ⦃rt : Runtime⦄ (D : Rules rt.Thread rt.Values rt.Error rt.Fut)
    (lua_may : LuaMay ⦃m = rt.mlua⦄ D) (lose : MayLose D) where
  open rt use {
    Thread, Values, Error, Fut, State, contents, contents-send, entries, entries-insert, pending,
    pending-push,
  }
  open rt use {
    recv, next, next-Removed, poll_next, poll_next-Removed, resume, resume_error, error_text,
    status, DelayQueue,
  }

  abbrev Selects : Spec → Option (Flow Loop) → Type 0
  Selects x none = Unit
  Selects x (some f) = Follows D lua_may lose x f

  select-Selects :
      (arm : Arm) (s : Loop)
      → MarksMay D s.cancel
      → contents s.cancel_events ≡ []
      → Selects (view s) (select arm s)
  unfolding select put_all
  select-Selects (on_event now) s may v = elim (Option-cases (recv s.events)) [
    | inl p ↦ rw (p, Selects) tt
    | inr (r, p) ↦
        rw (p, Selects)
          (handle_event-Follows D lua_may lose now r.0 _ (view s)
            (ap (λ es. put_all (sent_jobs es) (queued s.locals))
                (recv-eq-some s.events {a = r.0} {d = r.1} p)
              ∙ put_all-append (event_jobs r.0) (sent_jobs (contents r.1)) (queued s.locals))
            refl)
  ]
  select-Selects on_cancel s may v = rw (recv-of_nil s.cancel_events v, Selects) tt
  select-Selects (on_wake now) s may v = elim (Option-cases (next now s.wait_queue)) [
    | inl p ↦ rw (p, Selects) tt
    | inr (r, p) ↦
        rw (p, Selects)
          (handle_wake-Follows D lua_may lose now r.0 _ (view s) may
            (ap (put_all (sent_jobs (contents s.events))) (
                put_all-Removed waiting_job (deferred_over s (futures s))
                  (next-Removed now s.wait_queue {e = r.0} {q' = r.1} p))
              ∙ put_all-put (sent_jobs (contents s.events)) (waiting_job r.0)
                  (put_all (map waiting_job (entries r.1)) (deferred_over s (futures s))))
            refl)
  ]
  select-Selects on_deferred s may v = elim (Option-cases (recv s.deferred_queue)) [
    | inl p ↦ rw (p, Selects) tt
    | inr (r, p) ↦
        rw (p, Selects)
          (handle_deferred-Follows D lua_may lose r.0 _ (view s)
            (ap (λ ds. sent_over s (waits_over s (put_all (map queued_job ds) (futures s))))
                (recv-eq-some s.deferred_queue {a = r.0} {d = r.1} p)
              ∙ out_of_waits s (queued_job r.0)
                  (put_all (map queued_job (contents r.1)) (futures s)))
            refl)
  ]
  select-Selects (on_async now) s may v = elim (Option-cases (poll_next now s.async_queue)) [
    | inl p ↦ rw (p, Selects) tt
    | inr (r, p) ↦
        rw (p, Selects)
          (handle_async-Follows D lua_may lose r.0.0 r.0.1 r.1 _ (view s)
            (ap (λ c. sent_over s (waits_over s (deferred_over s c)))
                (put_all-Removed future_job (bag [])
                  (poll_next-Removed now s.async_queue {tf = r.0} {o = r.1} {p' = r.2} p))
              ∙ out_of_deferred s (future_job r.0)
                  (put_all (map future_job (pending r.2)) (bag [])))
            refl)
  ]

  -- The end of the body and the head of the loop leave the jobs alone.
  head-Follows : (x : Spec) (s : Loop) → Steps D x (view s) → Follows D lua_may lose x (head s)
  unfolding head
  head-Follows x s p = elim (Bool-cases (s.is_cancelled || not (check_lua s.world))) [
    | inl stops ↦ rw stops tt
    | inr goes ↦ rw goes p
  ]

  after_select-Follows :
      (x : Spec) (f : Flow Loop)
      → Follows D lua_may lose x f
      → Follows D lua_may lose x (after_select f)
  unfolding after_select update_done
  after_select-Follows x (falls t) p = head-Follows x (update_done t) p
  after_select-Follows x (continues t) p = head-Follows x t p
  after_select-Follows x (returns t) p = tt
  after_select-Follows x (panics e) p = tt
  after_select-Follows x (hangs t) p = tt

  pub round-Follows :
      (arm : Arm) (s : Loop) {t : Loop}
      → MarksMay D s.cancel
      → contents s.cancel_events ≡ []
      → round arm s ≡ some (falls t)
      → Steps D (view s) (view t)
  unfolding round
  round-Follows arm s {t} may v p = elim (Option-cases (select arm s)) [
    | inl n ↦ cc (ap (Option.map after_select) n)
    | inr (g, q) ↦
        subst (Follows D lua_may lose (view s))
          (some-injective _ _ (sym (ap (Option.map after_select) q) ∙ p))
          (after_select-Follows (view s) g
            (subst (Selects (view s)) q (select-Selects arm s may v)))
  ]
