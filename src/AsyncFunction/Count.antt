-- ===== src/AsyncFunction/Count.antt =====
-- crates/scheduler/src/async.rs, over the first manager: how async functions are counted.
use native.Mathlib.Nat.{mod-eq_of_lt}
use mlua_scheduler.Base.{
  List, ◌∷◌, ◌+◌, ◌^◌, ◌<◌, ◌≡◌, refl, ap, ◌∙◌, true, false, Result, ok, err, arith, String, length,
  [],
}
use mlua_scheduler.Deps.Mlua.{Mlua, Ran}
use mlua_scheduler.Deps.BinaryHeap.{BinaryHeap}
use mlua_scheduler.V1.State.{
  WaitingThread, at_most, World, check_lua, is_empty, incr_async, decr_async, call, calls, ran,
  respond, waiting_len, deferred_len, total_len,
}
use mlua_scheduler.V1.Queues.{decr-incr}
use mlua_scheduler.AsyncFunction.Defs.{ended, fut_ends, async_called_v1, done_now_v1}

module _ ⦃m : Mlua⦄ ⦃h : BinaryHeap WaitingThread at_most⦄ where
  open m use {Thread, Values, Error, Fut, State, resume, resume_error}
  open h use {Heap, items}

  -- Lua code of this thread that makes no calls of the manager.
  pub record QuietThread (t : Thread) : Type 0 where
    pub no_calls : (v : Values) (l : State) → (resume t v l).calls ≡ []
    pub no_error_calls : (e : String) (l : State) → (resume_error t e l).calls ≡ []

  quiet-inner :
      (label : String) (t : Thread) (r : Ran Thread Values Error Fut State) (w : World)
      → r.calls ≡ []
      → (respond label t r.result (ran r w)).inner ≡ w.inner
  unfolding respond ran
  quiet-inner label t r w e = rw (e, calls) refl

  -- An async function of a thread whose Lua code is quiet is called, and its future ends, with a
  -- result or an error, while the machine is as it was: if Lua is alive, the count is what it was
  -- before.
  fut_ends-count :
      (t : Thread) (fut : Fut) (r : Result Values Error) (w : World)
      → QuietThread t
      → w.pending_asyncs < 2 ^ 64
      → check_lua w ≡ true
      → (fut_ends t r (async_called_v1 t fut w).1).pending_asyncs ≡ w.pending_asyncs
  unfolding fut_ends async_called_v1 call check_lua incr_async decr_async
  fut_ends-count t fut (ok v) w quiet small alive = rw alive (
      ap (λ c. c.pending_asyncs)
        (quiet-inner "AsyncThread" t (resume t v w.lua) (ended (async_called_v1 t fut w).1)
          (quiet.no_calls v w.lua))
      ∙ ap (λ c. c.pending_asyncs) (decr-incr w.inner small).0)
  fut_ends-count t fut (err e) w quiet small alive = rw alive (
      ap (λ c. c.pending_asyncs)
        (quiet-inner "AsyncThread.Resume" t (resume_error t (m.error_text e) w.lua)
          (ended (async_called_v1 t fut w).1) (quiet.no_error_calls _ w.lua))
      ∙ ap (λ c. c.pending_asyncs) (decr-incr w.inner small).0)

  -- The futures of async functions that end, one after the other.
  unfoldable pub all_end : List (Thread × Result Values Error) → World → World
  unfolding fut_ends
  all_end [] w = w
  all_end ((t, r) ∷ rs) w = all_end rs (fut_ends t r w)

  -- Where Lua is dead, the end of a future leaves everything as it is.
  fut_ends-same :
      (t : Thread) (r : Result Values Error) (w : World) → check_lua w ≡ false → fut_ends t r w ≡ w
  unfolding fut_ends
  fut_ends-same t (ok v) w dead = rw (dead, fut_ends) refl
  fut_ends-same t (err e) w dead = rw (dead, fut_ends) refl

  all_end-same :
      (rs : List (Thread × Result Values Error)) (w : World)
      → check_lua w ≡ false
      → all_end rs w ≡ w
  unfolding all_end
  all_end-same [] w dead = refl
  all_end-same ((t, r) ∷ rs) w dead =
      ap (all_end rs) (fut_ends-same t r w dead) ∙ all_end-same rs w dead

  -- An async function is called, and Lua dies before its future ends. Then no end of a future, its
  -- own and those of other functions included, in whatever order, takes anything off the count: the
  -- function stays counted, and as long as no one stops the manager and the counts stay below 2 ^
  -- 64, each further check of `wait_till_done` finds that it is not done.
  pub fut_ends-dead :
      (t : Thread) (fut : Fut) (l : State) (rs : List (Thread × Result Values Error)) (w : World)
      → length (items w.waiting_queue) + length w.deferred_queue + w.pending_asyncs + 1 < 2 ^ 64
      → w.is_cancelled ≡ false
      → check_lua w ≡ true
      → m.is_alive l ≡ false
      → ((all_end rs (record (async_called_v1 t fut w).1 { lua = l })).pending_asyncs
          ≡ w.pending_asyncs + 1)
        × (done_now_v1 (all_end rs (record (async_called_v1 t fut w).1 { lua = l })) ≡ false)
  unfolding async_called_v1 call check_lua done_now_v1 is_empty total_len waiting_len deferred_len
      incr_async
  fut_ends-dead t fut l rs w small on alive dead =
      let same = all_end-same rs (record (async_called_v1 t fut w).1 { lua = l }) dead in
      (
        ap (λ u. u.pending_asyncs) same ∙ mod-eq_of_lt (omega (arith, small)),
        ap done_now_v1 same ∙ rw on (ground (arith, h.len-items w.waiting_queue)),
      )
