-- ===== src/V2/Parallel.antt =====
-- taskmgr_v2.rs in `send` mode, where push_event can run on another thread than `run`: the steps by
-- which both write `done`. push_event clears it and then sends; the end of the body of `run` looks at
-- the queues and then stores what it saw. A schedule says whose step comes next. Only rounds that
-- reach the end of the body are here.
use mlua_scheduler.Base.{ℕ, zero, suc, Bool, true, false, ◌&&◌, none, some, List, [], ◌∷◌, map}
use mlua_scheduler.Deps.Runtime.{Runtime}
use mlua_scheduler.V2.State.{SchedulerEvent}

-- Where `run` is: before it looks at the queues, between that and the store, or in `select!`.
pub data End : Type 0 where
  checking : End
  decided : Bool → End
  waiting : End

module _ ⦃rt : Runtime⦄ where
  open rt use {Chan, send, recv, is_empty}

  -- A task that calls push_event: before it, between its two steps, or after it.
  pub data Pusher : Type 0 where
    before : SchedulerEvent → Pusher
    cleared : SchedulerEvent → Pusher
    pushed : Pusher

  pub record Shared : Type 0 where
    pub done : Bool
    pub events : Chan SchedulerEvent

  -- `others_empty`: no future, wait, deferred thread or cancellation is in the queues of `run`.
  pub record Parallel : Type 0 where
    pub shared : Shared
    pub open shared use *
    pub others_empty : Bool
    pub at : End
    pub pushers : List Pusher

  unfoldable pub push_move : Pusher → Shared → Pusher × Shared
  push_move (before e) s = (cleared e, record s { done = false })
  push_move (cleared e) s = (pushed, record s { events = send e s.events })
  push_move pushed s = (pushed, s)

  -- The task at an index takes a step.
  unfoldable pub push_step : ℕ → List Pusher → Shared → List Pusher × Shared
  unfolding push_move
  push_step i [] s = ([], s)
  push_step zero (p ∷ ps) s = let (q, t) = push_move p s in (q ∷ ps, t)
  push_step (suc i) (p ∷ ps) s = let (qs, t) = push_step i ps s in (p ∷ qs, t)

  -- The end of the body: the look at the queues, then the store.
  unfoldable pub end_step : Parallel → Parallel
  end_step p = elim p.at [
    | checking ↦ record p { at = decided (p.others_empty && is_empty p.events) }
    | decided v ↦ record p { shared = record p.shared { done = v }; at = waiting }
    | waiting ↦ p
  ]

  -- A branch of `select!`, which leaves the other queues empty or not: that of `rx`, or another.
  unfoldable pub take_step : Bool → Parallel → Parallel
  take_step left p = elim p.at [
    | waiting ↦ elim (recv p.events) [
      | none ↦ p
      | some (e, rest) ↦ record p {
        shared = record p.shared { events = rest };
        others_empty = left;
        at = checking;
      }
    ]
    | _ ↦ p
  ]

  unfoldable pub other_step : Bool → Parallel → Parallel
  other_step left p = elim p.at [
    | waiting ↦ record p { others_empty = left; at = checking }
    | _ ↦ p
  ]

pub data Move : Type 0 where
  pusher : ℕ → Move
  take other : Bool → Move
  body_end : Move

module _ ⦃rt : Runtime⦄ where
  open rt use {unbounded_channel}

  unfoldable pub move : Move → Parallel → Parallel
  unfolding push_step end_step take_step other_step
  move (pusher i) p =
      let (ps, s) = push_step i p.pushers p.shared in record p { shared = s; pushers = ps }
  move (take left) p = take_step left p
  move (other left) p = other_step left p
  move body_end p = end_step p

  unfoldable pub run : List Move → Parallel → Parallel
  unfolding move
  run [] p = p
  run (m ∷ ms) p = run ms (move m p)

  -- `run` waits for the first time, with nothing queued, and tasks are about to push.
  abbrev pub begin : List SchedulerEvent → Parallel
  begin es = record {
    shared = record { done = true; events = unbounded_channel };
    others_empty = true;
    at = waiting;
    pushers = map before es;
  }
