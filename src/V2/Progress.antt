-- ===== src/V2/Progress.antt =====
-- taskmgr_v2.rs: with Lua code that makes no calls, every round leaves less to do.
use mlua_scheduler.Base.{
  ℕ, zero, suc, ◌+◌, ◌≤◌, ◌<◌, ◌≡◌, refl, sym, ap, subst, ◌∙◌, Option, none, some, arith,
  Bool-cases, Option-cases, inl, inr, length, String, Result, ok, err, Removed-length,
}
use mathlib.Core.Option
use mathlib.Core.Option.{some-injective}
use mlua_scheduler.Collections.{contains}
use mlua_scheduler.Deps.Futures.{Outcome, completed, panicked}
use mlua_scheduler.Deps.Lemmas.{recv-eq-some, recv-of_nil}
use mlua_scheduler.Deps.Mlua.{ThreadStatus, finished, error, other}
use mlua_scheduler.Deps.Runtime.{Runtime}
use mlua_scheduler.V2.State.{World, Loop, WaitingThread, DeferredThread, check_lua, new}
use mlua_scheduler.V2.Invariant.{Inv, thread_id}
use mlua_scheduler.V2.Reach.{Reach, Reach-Inv, later}
use mlua_scheduler.V2.Work.{
  Silent, work, Lowers, resumed-core, work-world, drop_key-Lowers, handle_event-Lowers,
}
use mlua_scheduler.V2.Arms.{
  Flow, falls, continues, returns, panics, hangs, resumed, handle_wake, handle_deferred, wake_args,
}
use mlua_scheduler.V2.Run.{
  Arm, on_event, on_cancel, on_wake, on_deferred, on_async, round, select, after_select, head,
  update_done, round_of, happen, handle_async, handle_outcome, resume_completed, error_payload,
}

module _ ⦃rt : Runtime⦄ (silent : Silent) where
  open rt use {Thread, Values, Error, Fut, State}
  open rt use {resume, resume_error, error_text, contents, entries, pending, recv, next, poll_next}
  open rt use {next-Removed, poll_next-Removed, status}

  resumed-work :
      (label : String) (t : Thread) (v : Values) (s : Loop)
      → work (record s { world = resumed label t (resume t v s.lua) s.world }) ≡ work s
  resumed-work label t v s =
      work-world _ s (resumed-core label t (resume t v s.lua) s.world (silent.no_calls t v s.lua))

  resumed_error-work :
      (label : String) (t : Thread) (e : String) (s : Loop)
      → work (record s { world = resumed label t (resume_error t e s.lua) s.world }) ≡ work s
  resumed_error-work label t e s =
      work-world _ s
        (resumed-core label t (resume_error t e s.lua) s.world (silent.no_error_calls t e s.lua))

  handle_wake-Lowers :
      (now key : ℕ) (w : WaitingThread) (n : ℕ) (s : Loop)
      → work s < n
      → Lowers n (handle_wake now key w s)
  unfolding handle_wake
  handle_wake-Lowers now key w n s h = elim (Bool-cases (check_lua s.world)) [
    | inr dead ↦ rw dead tt
    | inl alive ↦ elim (Bool-cases (contains (thread_id w) s.cancel)) [
      | inl marked ↦ rw (alive, marked) (unfold work in h)
      | inr unmarked ↦
          rw (alive, unmarked)
            (drop_key-Lowers n key (thread_id w) _
              (rw (resumed-work "WaitingThread" w.thread (wake_args now w) s) h))
    ]
  ]

  handle_deferred-Lowers :
      (d : DeferredThread) (n : ℕ) (s : Loop) → work s < n → Lowers n (handle_deferred d s)
  unfolding handle_deferred
  handle_deferred-Lowers d n s h = elim (Bool-cases (check_lua s.world)) [
    | inr dead ↦ rw dead tt
    | inl alive ↦ elim (Bool-cases (contains d.xid s.cancel)) [
      | inl marked ↦ rw (alive, marked) (unfold work in h)
      | inr unmarked ↦ elim (Bool-cases (contains d.xid s.known_deferred_threads)) [
        | inl known ↦
            rw (alive, unmarked, known)
              (unfold work in (rw (resumed-work "DeferredThread" d.thread d.args s) h))
        | inr lost ↦ rw (alive, unmarked, lost) h
      ]
    ]
  ]

  handle_outcome-work :
      (t : Thread) (o : Outcome Values Error) (s : Loop)
      → work (record s { world = handle_outcome t o s.world }) ≡ work s
  unfolding handle_outcome resume_completed
  handle_outcome-work t (panicked p) s = resumed_error-work "DeferredThread" t (error_payload p) s
  handle_outcome-work t (completed r) s = by_status (status s.lua t) r
    where
      by_status :
          (u : ThreadStatus) (r : Result Values Error)
          → work (record s {
            world = elim u as (λ _. World) [
              | finished ↦ s.world
              | error ↦ s.world
              | other ↦ resume_completed t r s.world
            ];
          })
            ≡ work s
      by_status finished r = refl
      by_status error r = refl
      by_status other (ok v) = resumed-work "DeferredThread" t v s
      by_status other (err e) = resumed_error-work "DeferredThread" t (error_text e) s

  handle_async-Lowers :
      (t : Thread) (o : Outcome Values Error) (n : ℕ) (s : Loop)
      → work s < n
      → Lowers n (handle_async t o s)
  unfolding handle_async
  handle_async-Lowers t o n s h = elim (Bool-cases (check_lua s.world)) [
    | inr dead ↦ rw dead tt
    | inl alive ↦ rw alive (rw (handle_outcome-work t o s) h)
  ]

  abbrev Selects : ℕ → Option (Flow Loop) → Type 0
  Selects n none = Unit
  Selects n (some f) = Lowers n f

  select-Selects : (arm : Arm) (s : Loop) → Inv s → Selects (work s) (select arm s)
  unfolding select
  select-Selects (on_event now) s v = elim (Option-cases (recv s.events)) [
    | inl p ↦ rw (p, Selects) tt
    | inr (r, p) ↦
        rw (p, Selects)
          (handle_event-Lowers now r.0 (work s) _
            (unfold work in (omega (arith, ap length (recv-eq-some s.events p)))))
  ]
  select-Selects on_cancel s v = rw (recv-of_nil s.cancel_events v.no_cancels, Selects) tt
  select-Selects (on_wake now) s v = elim (Option-cases (next now s.wait_queue)) [
    | inl p ↦ rw (p, Selects) tt
    | inr (r, p) ↦
        rw (p, Selects)
          (handle_wake-Lowers now r.0.key r.0.value (work s) _
            (unfold work in (omega (arith, Removed-length (next-Removed now s.wait_queue p)))))
  ]
  select-Selects on_deferred s v = elim (Option-cases (recv s.deferred_queue)) [
    | inl p ↦ rw (p, Selects) tt
    | inr (r, p) ↦
        rw (p, Selects)
          (handle_deferred-Lowers r.0 (work s) _
            (unfold work in (omega (arith, ap length (recv-eq-some s.deferred_queue p)))))
  ]
  select-Selects (on_async now) s v = elim (Option-cases (poll_next now s.async_queue)) [
    | inl p ↦ rw (p, Selects) tt
    | inr (r, p) ↦
        rw (p, Selects)
          (handle_async-Lowers r.0.0 r.1 (work s) _ (
            unfold work in (omega (arith, Removed-length (poll_next-Removed now s.async_queue p)))))
  ]

  head-Lowers : (n : ℕ) (s : Loop) → work s < n → Lowers n (head s)
  unfolding head
  head-Lowers n s h = ground arith

  after_select-Lowers : (n : ℕ) (f : Flow Loop) → Lowers n f → Lowers n (after_select f)
  unfolding after_select
  after_select-Lowers n (falls t) h = head-Lowers n (update_done t) (unfold work update_done in h)
  after_select-Lowers n (continues t) h = head-Lowers n t h
  after_select-Lowers n (returns t) h = tt
  after_select-Lowers n (panics p) h = tt
  after_select-Lowers n (hangs t) h = tt

  -- Each round that a waiting manager comes back from leaves less work, if Lua code makes no calls.
  pub round-work :
      {w : World} {s t : Loop} (arm : Arm)
      → w.core ≡ new
      → Reach w s
      → round arm s ≡ some (falls t)
      → work t < work s
  unfolding round
  round-work {s} {t} arm e r p = lowers (select arm s) refl
    where
      lowers : (o : Option (Flow Loop)) → select arm s ≡ o → work t < work s
      lowers none q = cc (ap (Option.map after_select) q)
      lowers (some f) q =
          subst (Lowers (work s)) (some-injective _ _ (sym (ap (Option.map after_select) q) ∙ p)) (
            after_select-Lowers (work s) f
              (subst (Selects (work s)) q (select-Selects arm s (Reach-Inv e r))))

  -- `n` rounds one after the other.
  pub data Rounds (s : Loop) : ℕ → Loop → Type 0 where
    none_yet : Rounds s zero s
    one_more :
        {n : ℕ} {t u : Loop} (arm : Arm)
        → Rounds s n t
        → round arm t ≡ some (falls u)
        → Rounds s (suc n) u

  Rounds-Reach : {w : World} {s t : Loop} {n : ℕ} → Reach w s → Rounds s n t → Reach w t
  unfolding happen
  Rounds-Reach r none_yet = r
  Rounds-Reach r (one_more arm rs p) = later (round_of arm) (Rounds-Reach r rs) p

  -- If Lua code makes no calls and no one else does, a manager that waits takes at most `work s` more
  -- branches, in whatever order they are chosen: it runs out of work.
  pub Rounds-le-work :
      {w : World} {s t : Loop} {n : ℕ}
      → w.core ≡ new
      → Reach w s
      → Rounds s n t
      → n + work t ≤ work s
  Rounds-le-work e r none_yet = omega arith
  Rounds-le-work e r (one_more arm rs p) =
      omega (arith, Rounds-le-work e r rs, round-work arm e (Rounds-Reach r rs) p)
