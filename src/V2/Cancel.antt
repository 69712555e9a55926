-- ===== src/V2/Cancel.antt =====
-- taskmgr_v2.rs: what `cancel_task` does to a thread that waits.
use mlua_scheduler.Base.{
  ℕ, ◌≡◌, refl, ap, ◌∙◌, true, false, not, some, List, Removed-All, Option-cases, inl, inr, ◌==◌,
  filter,
}
use mathlib.Core.Option
use mlua_scheduler.Collections.{contains, insert_key, remove, get, get_or_default}
use mlua_scheduler.Deps.DelayQueue.{Entry}
use mlua_scheduler.Deps.Runtime.{Runtime}
use mlua_scheduler.V2.State.{World, Loop, WaitingThread, check_lua}
use mlua_scheduler.V2.Arms.{falls, continues, handle_wake, uncancel, resumed, wake_args, drop_key}
use mlua_scheduler.V2.Run.{on_wake, round, select, after_select, head}
use mlua_scheduler.V2.Keys.{contains-length}
use mlua_scheduler.V2.Invariant.{Inv, thread_id}

module _ ⦃rt : Runtime⦄ where
  open rt use {State, DelayQueue, entries, next, next-Removed, contents, pending}

  -- A wait that ends while its thread is marked as cancelled.
  pub record Marked (now : ℕ) (s : Loop) (e : Entry WaitingThread) (q : DelayQueue WaitingThread)
      : Type 0 where
    pub due : next now s.wait_queue ≡ some (e, q)
    pub alive : check_lua s.world ≡ true
    pub goes_on : s.is_cancelled ≡ false
    pub marked : contains (thread_id e.value) s.cancel ≡ true

  -- The state that is left: the entry and the mark are gone.
  abbrev pub skipped : Loop → Entry WaitingThread → DelayQueue WaitingThread → Loop
  skipped s e q = record s {
    world = record s.world {
      core = record s.core { cancel = remove (thread_id e.value) s.cancel };
    };
    locals = record s.locals { wait_queue = q };
  }

  pub handle_wake_marked :
      (now key : ℕ) (w : WaitingThread) (s : Loop)
      → check_lua s.world ≡ true
      → contains (thread_id w) s.cancel ≡ true
      → handle_wake now key w s ≡ continues (uncancel (thread_id w) s)
  unfolding handle_wake
  handle_wake_marked now key w s alive marked = rw (alive, marked)

  pub select-wake :
      (now : ℕ) (s : Loop) (e : Entry WaitingThread) (q : DelayQueue WaitingThread)
      → next now s.wait_queue ≡ some (e, q)
      → select (on_wake now) s
        ≡ some (
            handle_wake now e.key e.value
              (record s { locals = record s.locals { wait_queue = q } }))
  unfolding select
  select-wake now s e q p = rw (p, select)

  head_goes : (s : Loop) → check_lua s.world ≡ true → s.is_cancelled ≡ false → head s ≡ falls s
  unfolding head
  head_goes s alive on = rw (alive, on)

  -- The thread is not resumed, and `continue` skips the update of `done`.
  pub round-Marked :
      (now : ℕ) (s : Loop) (e : Entry WaitingThread) (q : DelayQueue WaitingThread)
      → Marked now s e q
      → round (on_wake now) s ≡ some (falls (skipped s e q))
  unfolding round after_select uncancel
  round-Marked now s e q m =
      ap (Option.map after_select) (
        select-wake now s e q m.due
        ∙ ap some (handle_wake_marked now e.key e.value _ m.alive m.marked))
      ∙ ap some (head_goes (skipped s e q) m.alive m.goes_on)

  -- The world after the entry's thread has been resumed.
  abbrev pub woken : ℕ → Entry WaitingThread → Loop → World
  woken now e s =
      resumed "WaitingThread" e.value.thread
        (rt.resume e.value.thread (wake_args now e.value) s.lua) s.world

  pub drop_key_falls :
      (key xid : ℕ) (s : Loop)
      → contains key (get_or_default xid s.wait_keys) ≡ true
      → (t : Loop) × (drop_key key xid s ≡ falls t)
        × (t.world ≡ s.world)
        × (t.wait_queue ≡ s.wait_queue)
  unfolding drop_key
  drop_key_falls key xid s known = elim (Option-cases (get xid s.wait_keys)) [
    | inl p ↦ (s, rw (p, drop_key), refl, refl)
    | inr (old, p) ↦ (
      record s {
        locals = record s.locals {
          wait_keys = insert_key xid (filter (λ k. not (k == key)) old) s.wait_keys;
        };
      },
      rw (p, drop_key, contains-length key old (held old p)),
      refl,
      refl,
    )
  ]
    where
      held : (old : List ℕ) → get xid s.wait_keys ≡ some old → contains key old ≡ true
      held old p = unfold get_or_default in rw p at known

  pub handle_wake_unmarked :
      (now key : ℕ) (w : WaitingThread) (s : Loop)
      → check_lua s.world ≡ true
      → contains (thread_id w) s.cancel ≡ false
      → handle_wake now key w s
        ≡ drop_key key (thread_id w) (record s {
          world =
              resumed "WaitingThread" w.thread (rt.resume w.thread (wake_args now w) s.lua) s.world;
        })
  unfolding handle_wake
  handle_wake_unmarked now key w s alive unmarked = rw (alive, unmarked)

  pub select_unmarked :
      (now : ℕ) (s : Loop) (e : Entry WaitingThread) (q : DelayQueue WaitingThread)
      → Inv s
      → next now s.wait_queue ≡ some (e, q)
      → check_lua s.world ≡ true
      → contains (thread_id e.value) s.cancel ≡ false
      → (t : Loop) × (select (on_wake now) s ≡ some (falls t))
        × (t.world ≡ woken now e s)
        × (t.wait_queue ≡ q)
  select_unmarked now s e q v p alive unmarked =
      let (known, _) = Removed-All _ (next-Removed now s.wait_queue p) v.keyed in
      let (t, a, b, c) =
        drop_key_falls e.key (thread_id e.value)
          (record s { world = woken now e s; locals = record s.locals { wait_queue = q } }) known in
      (
        t,
        select-wake now s e q p
            ∙ ap some (handle_wake_unmarked now e.key e.value _ alive unmarked ∙ a),
        b,
        c,
      )
