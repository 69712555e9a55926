-- ===== src/V2/Run.antt =====
-- CoreScheduler::run: its start, one round of its loop, and schedules of rounds.
use mathlib.Core.Option
use Prim.Native.String.{◌++◌ as str_append}
use mlua_scheduler.Base.{
  ℕ, Bool, true, false, not, ◌&&◌, ◌||◌, Option, none, some, String, Result, ok, err, if◌then◌else◌,
}
use mlua_scheduler.Deps.Mlua.{Call, finished, error, other}
use mlua_scheduler.Deps.Futures.{Payload, text, opaque, Outcome, completed, panicked}
use mlua_scheduler.Deps.Runtime.{Runtime}
use mlua_scheduler.V2.State.{World, Loop, check_lua, new_locals, call}
use mlua_scheduler.V2.Arms.{
  Flow, falls, continues, returns, panics, no_receiver, hangs, finish, resumed, handle_event,
  handle_cancel, handle_wake, handle_deferred,
}

-- `format!("Error in async thread: {}", …)`
unfoldable pub error_payload : Payload → String
error_payload (text t) = str_append "Error in async thread: " t
error_payload (opaque debug) = str_append "Error in async thread: " debug

-- The branch that `select!` takes, with the reading of the clock.
pub data Arm : Type 0 where
  on_event on_wake on_async : (now : ℕ) → Arm
  on_cancel on_deferred : Arm

module _ ⦃rt : Runtime⦄ where
  open rt use {Thread, Values, Error, Fut, State}
  open rt use {recv, is_empty, next, no_entries, poll_next, no_futures}
  open rt use {resume, resume_error, error_text, status}

  unfoldable pub resume_completed : Thread → Result Values Error → World → World
  unfolding resumed
  resume_completed t (ok v) w = resumed "DeferredThread" t (resume t v w.lua) w
  resume_completed t (err e) w = resumed "DeferredThread" t (resume_error t (error_text e) w.lua) w

  unfoldable pub handle_outcome : Thread → Outcome Values Error → World → World
  unfolding resume_completed resumed error_payload
  handle_outcome t (completed r) w = elim (status w.lua t) [
    | finished ↦ w
    | error ↦ w
    | other ↦ resume_completed t r w
  ]
  handle_outcome t (panicked p) w =
      resumed "DeferredThread" t (resume_error t (error_payload p) w.lua) w

  unfoldable pub handle_async : Thread → Outcome Values Error → Loop → Flow Loop
  unfolding check_lua finish handle_outcome
  handle_async t o s =
      if not (check_lua s.world)
      then returns (finish s)
      else falls (record s { world = handle_outcome t o s.world })

  -- One branch; none where its source has nothing ready.
  unfoldable pub select : Arm → Loop → Option (Flow Loop)
  unfolding handle_event handle_cancel handle_wake handle_deferred handle_async
  select (on_event now) s = elim (recv s.events) [
    | none ↦ none
    | some (event, rest) ↦ some (
        handle_event now event
          (record s { world = record s.world { core = record s.core { events = rest } } }))
  ]
  select on_cancel s = elim (recv s.cancel_events) [
    | none ↦ none
    | some (xid, rest) ↦ some (
        handle_cancel xid
          (record s { world = record s.world { core = record s.core { cancel_events = rest } } }))
  ]
  select (on_wake now) s = elim (next now s.wait_queue) [
    | none ↦ none
    | some (entry, rest) ↦ some (
        handle_wake now entry.key entry.value
          (record s { locals = record s.locals { wait_queue = rest } }))
  ]
  select on_deferred s = elim (recv s.deferred_queue) [
    | none ↦ none
    | some (d, rest) ↦
        some (handle_deferred d (record s { locals = record s.locals { deferred_queue = rest } }))
  ]
  select (on_async now) s = elim (poll_next now s.async_queue) [
    | none ↦ none
    | some (tf, outcome, rest) ↦
        some
          (handle_async tf.0 outcome (record s { locals = record s.locals { async_queue = rest } }))
  ]

  unfoldable pub all_empty : Loop → Bool
  all_empty s =
      no_futures s.async_queue
      && no_entries s.wait_queue
      && is_empty s.deferred_queue
      && is_empty s.events
      && is_empty s.cancel_events

  -- The end of the loop's body.
  unfoldable pub update_done : Loop → Loop
  unfolding all_empty
  update_done s = record s {
    world = record s.world { core = record s.core { done = all_empty s } };
  }

  -- The test at the head of the loop, before it waits in `select!`.
  unfoldable pub head : Loop → Flow Loop
  unfolding check_lua finish
  head s = if s.is_cancelled || not (check_lua s.world) then returns (finish s) else falls s

  unfoldable pub after_select : Flow Loop → Flow Loop
  unfolding update_done head
  after_select (falls s) = head (update_done s)
  after_select (continues s) = head s
  after_select (returns s) = returns s
  after_select (panics p) = panics p
  after_select (hangs s) = hangs s

  -- From one wait in `select!` to the next: a branch, the end of the body, the head of the loop.
  unfoldable pub round : Arm → Loop → Option (Flow Loop)
  unfolding select after_select
  round arm s = Option.map after_select (select arm s)

  -- `run` up to its first wait.
  unfoldable pub start : World → Flow Loop
  unfolding check_lua new_locals head
  start w =
      let taken = record w { core = record w.core { rx = false; cancel_rx = false } } in
      let quick = record taken { core = record taken.core { done = true } } in
      let started = record taken { core = record taken.core { is_running = true } } in
      if not w.rx || not w.cancel_rx
      then panics no_receiver
      else if w.is_running || w.is_cancelled || not (check_lua w)
      then returns (record { world = quick; locals = new_locals })
      else head (record { world = started; locals = new_locals })

  -- What can happen while `run` waits: it takes a branch, or other code of the program, Lua code
  -- started from outside included, changes the machine and calls the manager.
  pub data Event : Type 0 where
    round_of : Arm → Event
    outside : State → Call Thread Values Error Fut → Event

  unfoldable pub happen : Event → Loop → Option (Flow Loop)
  unfolding round call
  happen (round_of arm) s = round arm s
  happen (outside l c) s = some (falls (record s { world = call c (record s.world { lua = l }) }))
