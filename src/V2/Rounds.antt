-- ===== src/V2/Rounds.antt =====
-- taskmgr_v2.rs: one round of the loop keeps the invariant and panics only in `DelayQueue::insert`.
use mathlib.Core.Option
use mathlib.Core.Option.{some-injective}
use mlua_scheduler.Base.{
  ◌≡◌, refl, sym, ap, ◌∙◌, subst, true, false, not, ◌||◌, Option, none, some, arith, Removed-All,
  Removed-nil, Option-cases, Bool-cases, inl, inr, Bool,
}
use mlua_scheduler.Deps.Lemmas.{recv-of_nil}
use mlua_scheduler.Deps.Runtime.{Runtime}
use mlua_scheduler.V2.State.{Loop, SchedulerEvent, check_lua}
use mlua_scheduler.V2.Arms.{Flow, falls, continues, returns, panics, insert_too_far, hangs}
use mlua_scheduler.V2.Run.{
  Arm, on_event, on_cancel, on_wake, on_deferred, on_async, round, select, head, after_select,
  update_done,
}
use mlua_scheduler.V2.Keys.{Removed-Distinct}
use mlua_scheduler.V2.Invariant.{
  Idle, Inv, Branched, TooFar, update_done-Inv, handle_event-Branched, handle_wake-Branched,
  handle_deferred-Branched, handle_async-Branched,
}

module _ ⦃rt : Runtime⦄ where
  open rt use {Thread, Values, Error, Fut, State, contents, entries, recv, next, next-Removed}
  open rt use {poll_next, poll_next-Removed, contents-new, entries-new}

  abbrev Selected : Type 0 → Bool → Option (Flow Loop) → Type 0
  Selected far d none = Unit
  Selected far d (some f) = Branched far d f

  -- The branch takes a wait for a time that is too far ahead.
  abbrev pub TakesTooFar : Arm → Loop → Type 0
  TakesTooFar (on_event now) s =
      (e : SchedulerEvent) × (q : rt.Chan SchedulerEvent) × (recv s.events ≡ some (e, q))
      × TooFar now e s.wait_queue
  TakesTooFar _ s = ⊥

  weaker :
      {far wide : Type 0} (d : Bool) (f : Flow Loop)
      → (far → wide)
      → Branched far d f
      → Branched wide d f
  weaker d (falls t) g b = b
  weaker d (continues t) g b = b
  weaker d (returns t) g b = b
  weaker d (panics p) g (e, x) = (e, g x)
  weaker d (hangs t) g b = b

  -- Whatever branch runs, it leaves the keys sound, or panics in `insert`.
  select-Selected :
      (arm : Arm) (s : Loop) → Inv s → Selected (TakesTooFar arm s) s.done (select arm s)
  unfolding select
  select-Selected (on_event now) s v = elim (Option-cases (recv s.events)) [
    | inl p ↦ rw (p, Selected) tt
    | inr (r, p) ↦
        rw (p, Selected)
          (weaker s.done _ (λ far. (r.0, r.1, p, far))
            (handle_event-Branched now r.0 _ (ground arith)))
  ]
  select-Selected on_cancel s v = rw (recv-of_nil s.cancel_events v.no_cancels, Selected) tt
  select-Selected (on_wake now) s v = elim (Option-cases (next now s.wait_queue)) [
    | inl p ↦ rw (p, Selected) tt
    | inr (r, p) ↦
        let gone = next-Removed now s.wait_queue {e = r.0} {q' = r.1} p in
        let (known, keyed) = Removed-All _ gone v.keyed in
        let (others, distinct) = Removed-Distinct gone v.distinct in
        rw (p, Selected)
          (handle_wake-Branched now r.0.key r.0.value _
            (record {
              running = v.running;
              taken = v.taken;
              no_cancels = v.no_cancels;
              keyed = keyed;
              distinct = distinct;
            })
            others known)
  ]
  select-Selected on_deferred s v = elim (Option-cases (recv s.deferred_queue)) [
    | inl p ↦ rw (p, Selected) tt
    | inr (r, p) ↦ rw (p, Selected) (handle_deferred-Branched r.0 _ (ground arith))
  ]
  select-Selected (on_async now) s v = elim (Option-cases (poll_next now s.async_queue)) [
    | inl p ↦ rw (p, Selected) tt
    | inr (r, p) ↦ rw (p, Selected) (handle_async-Branched r.0.0 r.1 _ (ground arith))
  ]

  -- Where nothing is queued, no branch can run.
  pub Idle-select : (arm : Arm) (s : Loop) → Inv s → Idle s → select arm s ≡ none
  unfolding select
  Idle-select (on_event now) s v i = rw (recv-of_nil s.events i.no_events, select)
  Idle-select on_cancel s v i = rw (recv-of_nil s.cancel_events v.no_cancels, select)
  Idle-select on_deferred s v i = rw (recv-of_nil s.deferred_queue i.no_deferred, select)
  Idle-select (on_wake now) s v i = elim (Option-cases (next now s.wait_queue)) [
    | inl p ↦ rw (p, select)
    | inr (r, p) ↦
        absurd
          (Removed-nil (rw i.no_waits at (next-Removed now s.wait_queue {e = r.0} {q' = r.1} p)))
  ]
  Idle-select (on_async now) s v i = elim (Option-cases (poll_next now s.async_queue)) [
    | inl p ↦ rw (p, select)
    | inr (r, p) ↦ absurd (
        Removed-nil
          (rw i.no_asyncs at (poll_next-Removed now s.async_queue {tf = r.0} {o = r.1} p)))
  ]

  -- What a round leaves: it panics only in `insert`, and ends waiting again, stopped, or hanging.
  abbrev pub Rounded : Type 0 → Flow Loop → Type 0
  Rounded far (falls t) = Inv t
  Rounded far (continues t) = ⊥
  Rounded far (returns t) = (t.is_running ≡ false) × (t.done ≡ true) × (t.rx ≡ false)
  Rounded far (panics p) = (p ≡ insert_too_far) × far
  Rounded far (hangs t) = Unit

  pub head-Rounded : (far : Type 0) (s : Loop) → Inv s → Rounded far (head s)
  unfolding head
  head-Rounded far s v = elim (Bool-cases (s.is_cancelled || not (check_lua s.world))) [
    | inl stops ↦ rw stops (refl, refl, v.taken)
    | inr goes ↦ rw goes v
  ]

  -- A branch that falls through to the end of the body, with Lua alive and the manager not stopped:
  -- the manager waits again.
  pub round-falls :
      (arm : Arm) (s t : Loop)
      → select arm s ≡ some (falls t)
      → t.is_cancelled ≡ false
      → check_lua t.world ≡ true
      → round arm s ≡ some (falls (update_done t))
  unfolding round after_select head update_done check_lua
  round-falls arm s t p on alive = ap (Option.map after_select) p ∙ ap some (rw (on, alive) refl)

  after_select-Rounded :
      (far : Type 0) (d : Bool) (f : Flow Loop)
      → d ≡ false
      → Branched far d f
      → Rounded far (after_select f)
  unfolding after_select
  after_select-Rounded far d (falls t) busy v =
      head-Rounded far (update_done t) (update_done-Inv t v)
  after_select-Rounded far d (continues t) busy (v, same) =
      head-Rounded far t (record { sound = v; quiet = λ h. cc })
  after_select-Rounded far d (returns t) busy v = v
  after_select-Rounded far d (panics p) busy v = v
  after_select-Rounded far d (hangs t) busy v = tt

  -- A round from a state with the invariant panics only in `insert`, and keeps it if it goes on.
  pub round-Rounded :
      (arm : Arm) (s : Loop) {f : Flow Loop}
      → Inv s
      → round arm s ≡ some f
      → Rounded (TakesTooFar arm s) f
  unfolding round
  round-Rounded arm s {f} v p = elim (Option-cases (select arm s)) [
    | inl n ↦ cc (ap (Option.map after_select) n)
    | inr (g, q) ↦ subst (Rounded (TakesTooFar arm s)) (ended g q) (
        after_select-Rounded (TakesTooFar arm s) s.done g (busy g q)
          (subst (Selected (TakesTooFar arm s) s.done) q (select-Selected arm s v)))
  ]
    where
      ended : (g : Flow Loop) → select arm s ≡ some g → after_select g ≡ f
      ended g q = some-injective _ _ (sym (ap (Option.map after_select) q) ∙ p)

      busy : (g : Flow Loop) → select arm s ≡ some g → s.done ≡ false
      busy g q = elim (Bool-cases s.done) [
        | inl idle ↦ cc (Idle-select arm s v (v.quiet idle))
        | inr e ↦ e
      ]
