-- ===== src/Ext/Tracking.antt =====
-- crates/ext/src/feedbacks.rs: what a chain and a tracker tell from a run of responses.
use mlua_scheduler.Base.{
  ℕ, ◌<◌, ◌≡◌, ◌≢◌, refl, ap, ◌∙◌, some, List, [], ◌∷◌, ◌++◌, arith, ◌==◌, if◌then◌else◌, Result,
  Option-cases, inl, inr, Bool-cases, ==_iff, ==_refl,
}
use mathlib.Core.List.{append-nil, append_assoc}
use mlua_scheduler.Collections.{get, insert_key, get-insert_key}
use mlua_scheduler.Deps.Runtime.{Runtime}
use mlua_scheduler.V2.State.{Response, from_ptr}
use mlua_scheduler.Ext.Feedbacks.{
  SchedulerFeedback, chain, feed, ThreadTracker, track_thread, send_to, push_result, tracker,
}

module _ ⦃rt : Runtime⦄ where
  open rt use {Thread, Values, Error, Chan, contents, contents-new, contents-send}

  -- A chain of two feedbacks tells each of them every response, in order, as if it stood alone.
  pub feed-chain :
      {S T : Type 0} (f : SchedulerFeedback S) (g : SchedulerFeedback T) (rs : List Response)
      (s : S) (t : T)
      → feed (chain f g) rs (s, t) ≡ (feed f rs s, feed g rs t)
  unfolding feed chain
  feed-chain f g [] s t = refl
  feed-chain f g (r ∷ rs) s t =
      feed-chain f g rs (f.on_response r.label r.thread r.result s)
        (g.on_response r.label r.thread r.result t)

  -- The results of one thread among responses, in order.
  abbrev pub results_of : ℕ → List Response → List (Result Values Error)
  results_of x [] = []
  results_of x (r ∷ rs) =
      let rest = results_of x rs in if from_ptr r.thread == x then r.result ∷ rest else rest

  -- Thread `x` sends to channel `n`, which holds `rs`, and no other thread does.
  pub record Tracks (x n : ℕ) (rs : List (Result Values Error)) (s : ThreadTracker) : Type 0 where
    pub pipe : Chan (Result Values Error)
    pub mapped : get x s.returns ≡ some n
    pub open_pipe : get n s.pipes ≡ some pipe
    pub holds : contents pipe ≡ rs
    pub alone : (y : ℕ) → get y s.returns ≡ some n → y ≡ x

  abbrev sent : ℕ → Chan (Result Values Error) → Result Values Error → ThreadTracker → ThreadTracker
  sent n c r s = record s { pipes = insert_key n (rt.channels.send r c) s.pipes }

  push_result-some :
      (t : Thread) (r : Result Values Error) (s : ThreadTracker) {n : ℕ}
      {c : Chan (Result Values Error)}
      → get (from_ptr t) s.returns ≡ some n
      → get n s.pipes ≡ some c
      → push_result t r s ≡ sent n c r s
  unfolding push_result
  push_result-some t r s p q = rw (p, push_result) (rw (q, send_to))

  sent-Tracks :
      (x n : ℕ) (r : Result Values Error) (rs : List (Result Values Error)) (s : ThreadTracker)
      (v : Tracks x n rs s)
      → Tracks x n (rs ++ r ∷ []) (sent n v.pipe r s)
  sent-Tracks x n r rs s v = record {
    pipe = rt.channels.send r v.pipe;
    mapped = v.mapped;
    open_pipe = rw (get-insert_key, ==_refl);
    holds = contents-send r v.pipe ∙ ap (λ l. l ++ r ∷ []) v.holds;
    alone = v.alone;
  }

  -- What is sent to another channel.
  other-Tracks :
      (x n k : ℕ) (c : Chan (Result Values Error)) (r : Result Values Error)
      (rs : List (Result Values Error)) (s : ThreadTracker)
      → k ≢ n
      → Tracks x n rs s
      → Tracks x n rs (sent k c r s)
  other-Tracks x n k c r rs s ne v = record {
    pipe = v.pipe;
    mapped = v.mapped;
    open_pipe = ground (arith, get-insert_key k n (rt.channels.send r c) s.pipes);
    holds = v.holds;
    alone = v.alone;
  }

  push_other-Tracks :
      (x n : ℕ) (t : Thread) (r : Result Values Error) (rs : List (Result Values Error))
      (s : ThreadTracker)
      → from_ptr t ≢ x
      → Tracks x n rs s
      → Tracks x n rs (push_result t r s)
  unfolding push_result
  push_other-Tracks x n t r rs s ne v = elim (Option-cases (get (from_ptr t) s.returns)) [
    | inl p ↦ rw (p, push_result) v
    | inr (k, p) ↦ elim (Option-cases (get k s.pipes)) [
      | inl q ↦ rw (p, push_result) (rw (q, send_to) v)
      | inr (c, q) ↦
          rw (push_result-some t r s p q)
            (other-Tracks x n k c r rs s (λ e. ne (v.alone (from_ptr t) (p ∙ ap some e))) v)
    ]
  ]

  feed-Tracks :
      (x n : ℕ) (rs : List Response) (old : List (Result Values Error)) (s : ThreadTracker)
      → Tracks x n old s
      → Tracks x n (old ++ results_of x rs) (feed tracker rs s)
  unfolding feed tracker
  feed-Tracks x n [] old s v = rw append-nil v
  feed-Tracks x n (r ∷ rs) old s v = elim (Bool-cases (from_ptr r.thread == x)) [
    | inl same ↦ rw same (
        rw (append_assoc old (r.result ∷ []) (results_of x rs)) at (
          feed-Tracks x n rs (old ++ r.result ∷ []) (push_result r.thread r.result s) (
            rw
              (push_result-some r.thread r.result s
                (ap (λ y. get y s.returns) ((==_iff _ x).0 same) ∙ v.mapped) v.open_pipe)
              (sent-Tracks x n r.result old s v))))
    | inr other ↦
        rw other (
          feed-Tracks x n rs old _ (push_other-Tracks x n r.thread r.result old s (ground arith) v))
  ]

  -- The channel numbers in use are below the next one.
  abbrev pub IsFresh : ThreadTracker → Type 0
  IsFresh s = (y k : ℕ) → get y s.returns ≡ some k → k < s.next_pipe

  -- The receiver that `track_thread` returns gets the results of that thread, all of them, in the
  -- order of the responses, and no result of another thread, as long as the thread is not tracked
  -- anew.
  pub track_thread-feed :
      (t : Thread) (rs : List Response) (s : ThreadTracker)
      → IsFresh s
      → (c : Chan (Result Values Error)) × (get
            (track_thread t s).0
            (feed tracker rs (track_thread t s).1).pipes
          ≡ some c)
        × (contents c ≡ results_of (from_ptr t) rs)
  unfolding track_thread
  track_thread-feed t rs s fresh =
      let v = feed-Tracks (from_ptr t) s.next_pipe rs [] (track_thread t s).1 start in
      (v.pipe, v.open_pipe, v.holds)
    where
      start : Tracks (from_ptr t) s.next_pipe [] (track_thread t s).1
      start = record {
        pipe = rt.channels.unbounded_channel;
        mapped = rw (get-insert_key, ==_refl);
        open_pipe = rw (get-insert_key, ==_refl);
        holds = contents-new;
        alone = λ y p.
            ground
              (arith, get-insert_key (from_ptr t) y s.next_pipe s.returns, fresh y s.next_pipe);
      }
