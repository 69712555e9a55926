-- ===== src/V2/Arms.antt =====
-- The branches of `tokio::select!` in CoreScheduler::run, and one round of its loop.
--
-- Which branch runs is the choice of the environment (`Arm`), with the reading of the clock where
-- the branch uses one. A branch whose source has nothing ready cannot be chosen.
use mlua_scheduler.Base.{
  ℕ, zero, suc, ◌-◌, Bool, true, false, not, Option, none, some, List, [], ◌∷◌, ◌++◌, String, ◌==◌,
  if◌then◌else◌, length, filter,
}
use mlua_scheduler.Collections
use mlua_scheduler.Collections.{contains, remove, get, remove_key, insert_key, get_or_default}
use mlua_scheduler.Deps.Mlua.{Ran}
use mlua_scheduler.Deps.Runtime.{Runtime}
use mlua_scheduler.V2.State.{
  World, Loop, WaitingThread, DeferredThread, SchedulerEvent, wait, deferred_thread,
  add_async_event, clear_event, close_event, from_ptr, check_lua, respond, calls,
}

-- Why code panics: `expect` without a receiver, `DelayQueue::insert` of a time that is too far ahead,
-- `DelayQueue::remove` of a key that is not there, and a subtraction below 0.
pub data Panic : Type 0 where
  no_receiver insert_too_far no_key underflow : Panic

-- How a loop over a channel's messages comes to a stop: the channel is closed, or the loop waits.
pub data Drained {ℓ} (C : Type ℓ) : Type ℓ where
  ended waiting : C → Drained C

-- How a branch ends: it reaches the end of the loop's body, it says `continue`, it returns from
-- `run`, it panics, or it awaits something for good.
pub data Flow {ℓ} (S : Type ℓ) : Type ℓ where
  falls : S → Flow S
  continues : S → Flow S
  returns : S → Flow S
  panics : Panic → Flow S
  hangs : S → Flow S

module _ ⦃rt : Runtime⦄ where
  open rt use {Thread, Values, Error, Fut, State, Chan, DelayQueue, Pool}
  open rt use {
    send, recv, is_empty, contents, insert, too_far, next, clear, no_entries, push, poll_next,
  }
  open rt use {no_futures, resume, resume_error, error_text, status, as_secs_f64, from_f64}

  abbrev take_key : ℕ → DelayQueue WaitingThread → Option (DelayQueue WaitingThread)
  take_key = rt.delays.remove

  -- `is_running.set(false); done_tx.send_replace(true)`
  unfoldable pub finish : Loop → Loop
  finish s = record s {
    world = record s.world { core = record s.core { is_running = false; done = true } };
  }

  -- A thread has been resumed: what its code did, then the feedback.
  unfoldable pub resumed : String → Thread → Ran Thread Values Error Fut State → World → World
  unfolding calls respond
  resumed label t r w = respond label t r.result (calls r.calls (record w { lua = r.lua }))

  -- `recv().await` on an empty channel: without a sender it gives `None`, with one it waits.
  abbrev pub awaited : (sender : Bool) → Chan DeferredThread → Drained (Chan DeferredThread)
  awaited sender c = if sender then waiting c else ended c

  -- `while let Some(_) = rx.recv().await {}`, with fuel for the messages that are in the channel.
  unfoldable pub drain : ℕ → (sender : Bool) → Chan DeferredThread → Drained (Chan DeferredThread)
  drain zero sender c = awaited sender c
  drain (suc n) sender c = elim (recv c) [
    | none ↦ awaited sender c
    | some (d, rest) ↦ drain n sender rest
  ]

  -- What `Clear` leaves behind, when the channel of deferred threads is down to `c`.
  abbrev pub cleared : Loop → Chan DeferredThread → Loop
  cleared s c = record s {
    world = record s.world { core = record s.core { cancel = [] } };
    locals = record s.locals {
      wait_queue = clear s.wait_queue;
      wait_keys = [];
      deferred_queue = c;
    };
  }

  -- The sender is `deferred_queue.0`, a local variable of `run` that is not dropped before it ends.
  unfoldable pub handle_clear : Loop → Flow Loop
  unfolding drain
  handle_clear s = elim (drain (length (contents s.deferred_queue)) true s.deferred_queue) [
    | ended c ↦ falls (cleared s c)
    | waiting c ↦ hangs (cleared s c)
  ]

  unfoldable pub handle_wait : ℕ → Option Values → Thread → ℕ → ℕ → Loop → Flow Loop
  unfolding check_lua finish get_or_default insert_key
  handle_wait now args t start_at duration s =
      let xid = from_ptr t in
      let (key, queue) =
        insert (record { delay_args = args; start_at = start_at; thread = t }) duration now
          s.wait_queue in
      let keys = get_or_default xid s.wait_keys ++ key ∷ [] in
      if not (check_lua s.world)
      then returns (finish s)
      else if too_far duration now s.wait_queue
      then panics insert_too_far
      else falls (record s {
        locals = record s.locals {
          wait_queue = queue;
          wait_keys = insert_key xid keys s.wait_keys;
        };
      })

  unfoldable pub handle_event : ℕ → SchedulerEvent → Loop → Flow Loop
  unfolding handle_wait handle_clear finish
  handle_event now (wait args t start_at duration) s = handle_wait now args t start_at duration s
  handle_event now (deferred_thread t args) s =
      let xid = from_ptr t in
      falls (record s {
        locals = record s.locals {
          deferred_queue = send (record { thread = t; args = args; xid = xid }) s.deferred_queue;
          known_deferred_threads = Collections.insert xid s.known_deferred_threads;
        };
      })
  handle_event now (add_async_event t fut) s =
      falls (record s { locals = record s.locals { async_queue = push t fut s.async_queue } })
  handle_event now clear_event s = handle_clear s
  handle_event now close_event s = returns (finish s)

  -- `for key in keys { wait_queue.remove(key); }`
  unfoldable pub remove_keys : List ℕ → DelayQueue WaitingThread → Option (DelayQueue WaitingThread)
  remove_keys [] q = some q
  remove_keys (k ∷ ks) q = elim (take_key k q) [ none ↦ none | some r ↦ remove_keys ks r ]

  unfoldable pub forget : ℕ → Loop → Loop
  unfolding remove
  forget xid s = record s {
    world = record s.world { core = record s.core { cancel = remove xid s.cancel } };
    locals = record s.locals { known_deferred_threads = remove xid s.known_deferred_threads };
  }

  unfoldable pub handle_cancel : ℕ → Loop → Flow Loop
  unfolding get remove_keys remove_key forget
  handle_cancel xid s = elim (get xid s.wait_keys) [
    | none ↦ falls (forget xid s)
    | some keys ↦ elim (remove_keys keys s.wait_queue) [
      | none ↦ panics no_key
      | some q ↦ falls (
          forget xid (record s {
            locals = record s.locals { wait_queue = q; wait_keys = remove_key xid s.wait_keys };
          }))
    ]
  ]

  -- The arguments of a waiting thread: those of `task.delay`, or the seconds that have gone by.
  unfoldable pub wake_args : ℕ → WaitingThread → Values
  wake_args now w = elim w.delay_args [
    | some args ↦ args
    | none ↦ from_f64 (as_secs_f64 (now - w.start_at))
  ]

  -- What becomes of the keys of a thread: `Vec::with_capacity(old_keys.len() - 1)` underflows where
  -- there are none.
  unfoldable pub drop_key : ℕ → ℕ → Loop → Flow Loop
  unfolding get insert_key filter
  drop_key key xid s = elim (get xid s.wait_keys) [
    | none ↦ falls s
    | some old_keys ↦
        if length old_keys == 0
        then panics underflow
        else falls (record s {
          locals = record s.locals {
            wait_keys = insert_key xid (filter (λ k. not (k == key)) old_keys) s.wait_keys;
          };
        })
  ]

  unfoldable pub uncancel : ℕ → Loop → Loop
  unfolding remove
  uncancel xid s = record s {
    world = record s.world { core = record s.core { cancel = remove xid s.cancel } };
  }

  unfoldable pub handle_wake : ℕ → ℕ → WaitingThread → Loop → Flow Loop
  unfolding check_lua finish contains uncancel wake_args resumed drop_key
  handle_wake now key w s =
      let xid = from_ptr w.thread in
      let ran = resume w.thread (wake_args now w) s.lua in
      if not (check_lua s.world)
      then returns (finish s)
      else if contains xid s.cancel
      then continues (uncancel xid s)
      else drop_key key xid (record s { world = resumed "WaitingThread" w.thread ran s.world })

  unfoldable pub handle_deferred : DeferredThread → Loop → Flow Loop
  unfolding check_lua finish contains uncancel resumed remove
  handle_deferred d s =
      let ran = resume d.thread d.args s.lua in
      if not (check_lua s.world)
      then returns (finish s)
      else if contains d.xid s.cancel
      then continues (uncancel d.xid s)
      else if contains d.xid s.known_deferred_threads
      then falls (record s {
        world = resumed "DeferredThread" d.thread ran s.world;
        locals = record s.locals { known_deferred_threads = remove d.xid s.known_deferred_threads };
      })
      else falls s
