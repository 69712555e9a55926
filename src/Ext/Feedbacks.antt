-- ===== src/Ext/Feedbacks.antt =====
-- crates/ext/src/feedbacks.rs: chains of feedbacks, and the tracker of threads.
--
-- A feedback is what `on_response` does to the feedback's own state. A channel of the tracker has a
-- number; the map `returns` holds the sending ends, `pipes` the channels.
use mlua_scheduler.Base.{ℕ, ◌+◌, none, some, List, [], ◌∷◌, String, Result}
use mlua_scheduler.Collections.{get, insert_key}
use mlua_scheduler.Deps.Runtime.{Runtime}
use mlua_scheduler.V2.State.{Response, from_ptr}

module _ ⦃rt : Runtime⦄ where
  open rt use {Thread, Values, Error, Chan, unbounded_channel, send}

  -- The trait SchedulerFeedback (taskmgr.rs), for a feedback with state `S`.
  pub record SchedulerFeedback (S : Type 0) : Type 0 where
    pub on_response : String → Thread → Result Values Error → S → S

  -- ChainFeedback: the first feedback, then the second.
  unfoldable pub chain :
      {S T : Type 0} → SchedulerFeedback S → SchedulerFeedback T → SchedulerFeedback (S × T)
  chain f g = record {
    on_response = λ label t r s. (f.on_response label t r s.0, g.on_response label t r s.1);
  }

  -- A feedback that is told of several responses in turn.
  unfoldable pub feed : {S : Type 0} → SchedulerFeedback S → List Response → S → S
  feed f [] s = s
  feed f (r ∷ rs) s = feed f rs (f.on_response r.label r.thread r.result s)

  -- The state of a ThreadTracker: `returns` as a map to channel numbers, and the channels.
  pub record ThreadTracker : Type 0 where
    pub returns : List (ℕ × ℕ)
    pub pipes : List (ℕ × Chan (Result Values Error))
    pub next_pipe : ℕ

  -- ThreadTracker::new
  unfoldable pub new_tracker : ThreadTracker
  new_tracker = record { returns = []; pipes = []; next_pipe = 0 }

  -- ThreadTracker::track_thread, with the number of the channel whose receiver it returns
  unfoldable pub track_thread : Thread → ThreadTracker → ℕ × ThreadTracker
  unfolding insert_key
  track_thread t s = (
    s.next_pipe,
    record {
      returns = insert_key (from_ptr t) s.next_pipe s.returns;
      pipes = insert_key s.next_pipe unbounded_channel s.pipes;
      next_pipe = s.next_pipe + 1;
    },
  )

  -- `tx.send(result)` on the channel with this number
  unfoldable pub send_to : ℕ → Result Values Error → ThreadTracker → ThreadTracker
  unfolding get insert_key
  send_to n r s = elim (get n s.pipes) [
    | none ↦ s
    | some c ↦ record s { pipes = insert_key n (send r c) s.pipes }
  ]

  -- ThreadTracker::push_result, and `on_response`, which has the same body but for the log
  unfoldable pub push_result : Thread → Result Values Error → ThreadTracker → ThreadTracker
  unfolding get send_to
  push_result t r s = elim (get (from_ptr t) s.returns) [ none ↦ s | some n ↦ send_to n r s ]

  unfoldable pub tracker : SchedulerFeedback ThreadTracker
  unfolding push_result
  tracker = record { on_response = λ label t r s. push_result t r s }
