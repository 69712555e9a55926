-- ===== src/V2/Sleeps.antt =====
-- taskmgr_v2.rs: from the event of a wait to the run of its thread.
use mlua_scheduler.Base.{
  ℕ, ◌+◌, ◌≤◌, ◌<◌, ◌≡◌, ◌⊎◌, refl, ap, subst, ◌∙◌, true, false, none, some, List, [], ◌∷◌, ◌++◌,
  All, Removed, Removed-nil, Option-cases, Bool-cases, inl, inr,
}
use mlua_scheduler.Collections.{contains, insert_key, get_or_default}
use mlua_scheduler.Deps.DelayQueue.{Entry}
use mlua_scheduler.Deps.Lemmas.{recv-of_cons}
use mlua_scheduler.Deps.Runtime.{Runtime}
use mlua_scheduler.V2.State.{
  Loop, WaitingThread, check_lua, wait as wait_event, SchedulerEvent, from_ptr,
}
use mlua_scheduler.V2.Resumes.{Resumes, resumed-of}
use mlua_scheduler.V2.Arms.{falls, panics, insert_too_far, handle_event, handle_wait, wake_args}
use mlua_scheduler.V2.Run.{on_event, on_wake, select, round, after_select, update_done}
use mlua_scheduler.V2.Rounds.{round-falls}
use mlua_scheduler.V2.Keys.{Keyed-new}
use mlua_scheduler.V2.Cancel.{drop_key_falls, handle_wake_unmarked, select-wake, woken}

module _ ⦃rt : Runtime⦄ where
  open rt use {Thread, Values, contents, entries, entries-insert, next, next-due, next-none}
  open rt use {next-Removed, resume}

  abbrev pub put_in : Loop → WaitingThread → ℕ → ℕ → ℕ × rt.DelayQueue WaitingThread
  put_in s w d taken = rt.delays.insert w d taken s.wait_queue

  -- The state after a wait has been put into the queue.
  abbrev pub queued : ℕ → WaitingThread → ℕ → Loop → Loop
  queued taken w d s =
      let xid = from_ptr w.thread in
      record s {
        locals = record s.locals {
          wait_queue = (put_in s w d taken).1;
          wait_keys =
              insert_key xid (get_or_default xid s.wait_keys ++ (put_in s w d taken).0 ∷ [])
                s.wait_keys;
        };
      }

  -- The state without an event that was taken.
  abbrev pub taken_out : rt.Chan SchedulerEvent → Loop → Loop
  taken_out q s = record s { world = record s.world { core = record s.core { events = q } } }

  pub select-wait :
      (taken d : ℕ) (w : WaitingThread) (s : Loop) (q : rt.Chan SchedulerEvent)
      → rt.recv s.events ≡ some (wait_event w.delay_args w.thread w.start_at d, q)
      → check_lua s.world ≡ true
      → rt.too_far d taken s.wait_queue ≡ false
      → select (on_event taken) s ≡ some (falls (queued taken w d (taken_out q s)))
  unfolding select handle_event handle_wait check_lua
  select-wait taken d w s q p alive near = rw (p, select, alive, near) refl

  select-far :
      (taken d : ℕ) (w : WaitingThread) (s : Loop) (q : rt.Chan SchedulerEvent)
      → rt.recv s.events ≡ some (wait_event w.delay_args w.thread w.start_at d, q)
      → check_lua s.world ≡ true
      → rt.too_far d taken s.wait_queue ≡ true
      → round (on_event taken) s ≡ some (panics insert_too_far)
  unfolding round after_select select handle_event handle_wait check_lua
  select-far taken d w s q p alive far = rw (p, select, alive, far) refl

  -- What comes out of a queue with one entry is that entry, and nothing is left.
  next-one :
      (now : ℕ) (e : Entry WaitingThread) (q : rt.DelayQueue WaitingThread)
      → entries q ≡ e ∷ []
      → ((now < e.deadline) × (next now q ≡ none))
        ⊎ ((e.deadline ≤ now)
            × (r : rt.DelayQueue WaitingThread) × (next now q ≡ some (e, r))
            × (entries r ≡ []))
  next-one now e q one = elim (Option-cases (next now q)) [
    | inl n ↦ inl ((subst (All (λ e. now < e.deadline)) one (next-none now q n)).0, n)
    | inr (r, n) ↦
        let (same, left) =
          only (subst (λ es. Removed r.0 es (entries r.1)) one (next-Removed now q n)) in
        inr (
          subst (λ e. e.deadline ≤ now) same (next-due now q n),
          r.1,
          n ∙ ap (λ e. some (e, r.1)) same,
          left,
        )
  ]
    where
      only :
          {x : Entry WaitingThread} {l : List (Entry WaitingThread)}
          → Removed x (e ∷ []) l
          → (x ≡ e) × (l ≡ [])
      only (Removed.here xs) = (refl, refl)
      only (Removed.there x r) = absurd (Removed-nil r)

  -- The one wait in the queue is not due yet, or it is due and its thread runs with the arguments.
  abbrev pub WakesAt : (later deadline : ℕ) → Thread → Values → Loop → Type 0
  WakesAt later deadline t args u =
      ((later < deadline) × (select (on_wake later) u ≡ none))
      ⊎ ((deadline ≤ later)
          × (v : Loop) × (select (on_wake later) u ≡ some (falls v))
          × (entries v.wait_queue ≡ [])
          × Resumes "WaitingThread" t (resume t args u.lua) u.world v.world)

  queued-WakesAt :
      (taken later d : ℕ) (w : WaitingThread) (s : Loop)
      → entries s.wait_queue ≡ []
      → check_lua s.world ≡ true
      → contains (from_ptr w.thread) s.cancel ≡ false
      → WakesAt later (taken + d) w.thread (wake_args later w) (update_done (queued taken w d s))
  unfolding select update_done
  queued-WakesAt taken later d w s none_waits alive unmarked =
      elim (next-one later e (put_in s w d taken).1 one) [
        | inl (early, n) ↦ inl (early, rw (n, select) refl)
        | inr (due, r, n, left) ↦
            let (t, a, b, c) =
              drop_key_falls e.key (from_ptr w.thread)
                (record u { world = woken later e u; locals = record u.locals { wait_queue = r } })
                (Keyed-new e.key (from_ptr w.thread) s.wait_keys) in
            inr (
              due,
              t,
              select-wake later u e r n
                  ∙ ap some (handle_wake_unmarked later e.key w _ alive unmarked ∙ a),
              ap entries c ∙ left,
              resumed-of "WaitingThread" w.thread (resume w.thread (wake_args later w) s.lua)
                  u.world b,
            )
      ]
    where
      e : Entry WaitingThread
      e = record { key = (put_in s w d taken).0; deadline = taken + d; value = w }

      u : Loop
      u = update_done (queued taken w d s)

      one : entries (put_in s w d taken).1 ≡ e ∷ []
      one = entries-insert w d taken s.wait_queue ∙ ap (◌∷◌ e) none_waits

  -- What becomes of a wait for `d` that the manager takes from the events at time `taken`: the time
  -- is too far ahead and `run` panics, or the round runs no Lua code, and the thread wakes later.
  abbrev pub Sleeps : (taken d later : ℕ) → Thread → Values → Loop → Type 0
  Sleeps taken d later t args s =
      ((rt.too_far d taken s.wait_queue ≡ true)
        × (round (on_event taken) s ≡ some (panics insert_too_far)))
      ⊎ ((rt.too_far d taken s.wait_queue ≡ false)
          × (u : Loop) × (round (on_event taken) s ≡ some (falls u))
          × (contents u.events ≡ [])
          × (u.lua ≡ s.lua)
          × (u.responses ≡ s.responses)
          × WakesAt later (taken + d) t args u)

  -- Where Lua is alive, the manager is not stopped, no thread waits, and the one event is a wait of
  -- a thread that is not marked as cancelled: if the time is too far ahead, the round in which the
  -- manager takes the event panics. If not, that round runs no Lua code and comes to wait again. At
  -- every time after that, with nothing else done, either the duration has not gone by since the
  -- event was taken, and the branch of waits is not ready; or it has, and that branch runs the
  -- thread once, with the arguments that were given or the seconds since the start, reports its
  -- result, and leaves no wait behind.
  pub wait-Sleeps :
      (w : WaitingThread) (d taken later : ℕ) (s : Loop)
      → contents s.events ≡ wait_event w.delay_args w.thread w.start_at d ∷ []
      → entries s.wait_queue ≡ []
      → s.is_cancelled ≡ false
      → check_lua s.world ≡ true
      → contains (from_ptr w.thread) s.cancel ≡ false
      → Sleeps taken d later w.thread (wake_args later w) s
  unfolding check_lua update_done
  wait-Sleeps w d taken later s first none_waits on alive unmarked =
      let (q, p, rest) = recv-of_cons s.events first in
      elim (Bool-cases (rt.too_far d taken s.wait_queue)) [
        | inl far ↦ inl (far, select-far taken d w s q p alive far)
        | inr near ↦ inr (
          near,
          update_done (queued taken w d (taken_out q s)),
          round-falls (on_event taken) s (queued taken w d (taken_out q s))
              (select-wait taken d w s q p alive near) on alive,
          rest,
          refl,
          refl,
          queued-WakesAt taken later d w (taken_out q s) none_waits alive unmarked,
        )
      ]
