-- ===== src/V2/Invariant.antt =====
-- taskmgr_v2.rs: what holds whenever `run` waits in `select!`.
use mlua_scheduler.Base.{
  ℕ, ◌≡◌, refl, ap, ◌≢◌, Bool, ◌∙◌, true, false, false, Option, some, List, [], arith, All,
  Option-cases, Bool-cases, inl, inr,
}
use mlua_scheduler.Collections.{contains, remove, get, get_or_default}
use mlua_scheduler.Deps.Futures.{Outcome}
use mlua_scheduler.Deps.Mlua.{Ran}
use mlua_scheduler.Deps.Runtime.{Runtime}
use mlua_scheduler.V2.State.{
  World, Loop, WaitingThread, DeferredThread, from_ptr, check_lua, SchedulerEvent, wait,
  deferred_thread, add_async_event, clear_event, close_event,
}
use mlua_scheduler.V2.Clear.{handle_clear-always}
use mlua_scheduler.V2.Arms.{
  Flow, falls, continues, returns, panics, insert_too_far, hangs, handle_event, handle_wait,
  wake_args, uncancel, drop_key, handle_wake, handle_deferred,
}
use mlua_scheduler.V2.Run.{all_empty, update_done, handle_async}
use mlua_scheduler.V2.Calls.{Kept, resumed-Kept, handle_outcome-Kept}
use mlua_scheduler.V2.Keys.{Keyed, Distinct, Keyed-new, Keyed-insert, Keyed-drop, contains-length}

module _ ⦃rt : Runtime⦄ where
  open rt use {contents, entries, pending, recv, is_empty_iff, no_entries_iff, no_futures_iff}
  open rt use {next, insert, too_far, next-Removed, entries-insert, insert-fresh}

  abbrev pub thread_id : WaitingThread → ℕ
  thread_id w = from_ptr w.thread

  -- Nothing is queued anywhere.
  pub record Idle (s : Loop) : Type 0 where
    pub no_events : contents s.events ≡ []
    pub no_waits : entries s.wait_queue ≡ []
    pub no_asyncs : pending s.async_queue ≡ []
    pub no_deferred : contents s.deferred_queue ≡ []

  -- The manager runs and has taken its receivers. Each key in the delay queue is its own, and is
  -- recorded under the thread that waits for it.
  pub record Sound (s : Loop) : Type 0 where
    pub running : s.is_running ≡ true
    pub taken : s.rx ≡ false
    pub no_cancels : contents s.cancel_events ≡ []
    pub keyed : Keyed thread_id s.wait_keys (entries s.wait_queue)
    pub distinct : Distinct (entries s.wait_queue)

  pub record Inv (s : Loop) : Type 0 where
    pub sound : Sound s
    pub open sound use *
    pub quiet : s.done ≡ true → Idle s

  all_empty-Idle : (s : Loop) → all_empty s ≡ true → Idle s
  unfolding all_empty
  all_empty-Idle s h = ground (
    arith,
    is_empty_iff s.events,
    no_entries_iff s.wait_queue,
    no_futures_iff s.async_queue,
    is_empty_iff s.deferred_queue,
  )

  pub update_done-Inv : (s : Loop) → Sound s → Inv (update_done s)
  unfolding update_done
  update_done-Inv s v = record {
    sound = record {
      running = v.running;
      taken = v.taken;
      no_cancels = v.no_cancels;
      keyed = v.keyed;
      distinct = v.distinct;
    };
    quiet = λ h.
        let i = all_empty-Idle s h in
        record {
          no_events = i.no_events;
          no_waits = i.no_waits;
          no_asyncs = i.no_asyncs;
          no_deferred = i.no_deferred;
        };
  }

  -- What a branch leaves, however it ends: the only panic is that of `insert`, where `far` holds,
  -- and `continue` leaves `done` at `d`.
  abbrev pub Branched : Type 0 → Bool → Flow Loop → Type 0
  Branched far d (falls t) = Sound t
  Branched far d (continues t) = Sound t × (t.done ≡ d)
  Branched far d (returns t) = (t.is_running ≡ false) × (t.done ≡ true) × (t.rx ≡ false)
  Branched far d (panics p) = (p ≡ insert_too_far) × far
  Branched far d (hangs t) = Unit

  handle_wait-Branched :
      (now : ℕ) (args : Option rt.Values) (t : rt.Thread) (start_at duration : ℕ) (s : Loop)
      → Sound s
      → Branched
          (too_far duration now s.wait_queue ≡ true)
          s.done
          (handle_wait now args t start_at duration s)
  unfolding handle_wait
  handle_wait-Branched now args t start_at duration s v = elim (Bool-cases (check_lua s.world)) [
    | inl alive ↦ elim (Bool-cases (too_far duration now s.wait_queue)) [
      | inl far ↦ rw (alive, far) (refl, refl)
      | inr near ↦
          rw (alive, near)
            (record {
              running = v.running;
              taken = v.taken;
              no_cancels = v.no_cancels;
              keyed = rw entries-insert (
                Keyed-new key xid s.wait_keys,
                Keyed-insert thread_id key xid s.wait_keys _ v.keyed,
              );
              distinct = rw entries-insert (insert-fresh w duration now s.wait_queue, v.distinct);
            })
    ]
    | inr dead ↦ rw dead (refl, refl, v.taken)
  ]
    where
      w : WaitingThread
      w = record { delay_args = args; start_at = start_at; thread = t }

      key : ℕ
      key = (insert w duration now s.wait_queue).0

      xid : ℕ
      xid = from_ptr t

  -- The event is a wait for a time that is too far ahead.
  abbrev pub TooFar : ℕ → SchedulerEvent → rt.DelayQueue WaitingThread → Type 0
  TooFar now (wait args t start_at duration) q = too_far duration now q ≡ true
  TooFar now _ q = ⊥

  pub handle_event-Branched :
      (now : ℕ) (e : SchedulerEvent) (s : Loop)
      → Sound s
      → Branched (TooFar now e s.wait_queue) s.done (handle_event now e s)
  unfolding handle_event
  handle_event-Branched now (wait args t start_at duration) s v =
      handle_wait-Branched now args t start_at duration s v
  handle_event-Branched now (deferred_thread t args) s v = ground arith
  handle_event-Branched now (add_async_event t fut) s v = ground arith
  handle_event-Branched now clear_event s v = handle_clear-always (Branched ⊥ s.done) s (λ t. tt)
  handle_event-Branched now close_event s v = (refl, refl, v.taken)

  -- What Lua code and the feedback do keeps the queues as they are.
  pub Kept-Sound :
      (w : World) (s : Loop) → Kept s.core w.core → Sound s → Sound (record s { world = w })
  Kept-Sound w s k v = record {
    running = k.running ∙ v.running;
    taken = k.receiver ∙ v.taken;
    no_cancels = ap contents k.cancels ∙ v.no_cancels;
    keyed = v.keyed;
    distinct = v.distinct;
  }

  uncancel-Sound : (xid : ℕ) (s : Loop) → Sound s → Sound (uncancel xid s)
  unfolding uncancel
  uncancel-Sound xid s v = ground arith

  -- The entry that fires has been taken out of the queue; its key is still recorded.
  drop_key-Branched :
      (far : Type 0) (d : Bool) (key xid : ℕ) (s : Loop)
      → Sound s
      → All (λ e. e.key ≢ key) (entries s.wait_queue)
      → contains key (get_or_default xid s.wait_keys) ≡ true
      → Branched far d (drop_key key xid s)
  unfolding drop_key
  drop_key-Branched far d key xid s v others known = elim (Option-cases (get xid s.wait_keys)) [
    | inl p ↦ rw (p, Branched) v
    | inr (old, p) ↦
        rw (p, Branched, contains-length key old (held old p))
          (record {
            running = v.running;
            taken = v.taken;
            no_cancels = v.no_cancels;
            keyed = Keyed-drop thread_id key xid old s.wait_keys _ p others v.keyed;
            distinct = v.distinct;
          })
  ]
    where
      held : (old : List ℕ) → get xid s.wait_keys ≡ some old → contains key old ≡ true
      held old p = unfold get_or_default in rw p at known

  pub handle_wake-Branched :
      (now key : ℕ) (w : WaitingThread) (s : Loop)
      → Sound s
      → All (λ e. e.key ≢ key) (entries s.wait_queue)
      → contains key (get_or_default (thread_id w) s.wait_keys) ≡ true
      → Branched ⊥ s.done (handle_wake now key w s)
  unfolding handle_wake
  handle_wake-Branched now key w s v others known = elim (Bool-cases (check_lua s.world)) [
    | inr dead ↦ rw dead (refl, refl, v.taken)
    | inl alive ↦ elim (Bool-cases (contains (thread_id w) s.cancel)) [
      | inl marked ↦ rw (alive, marked) (uncancel-Sound (thread_id w) s v, refl)
      | inr unmarked ↦
          rw (alive, unmarked)
            (drop_key-Branched ⊥ s.done key (thread_id w) _
              (Kept-Sound _ s (resumed-Kept "WaitingThread" w.thread ran s.world) v) others known)
    ]
  ]
    where
      ran : Ran rt.Thread rt.Values rt.Error rt.Fut rt.State
      ran = rt.resume w.thread (wake_args now w) s.lua

  pub handle_deferred-Branched :
      (d : DeferredThread) (s : Loop) → Sound s → Branched ⊥ s.done (handle_deferred d s)
  unfolding handle_deferred
  handle_deferred-Branched d s v = elim (Bool-cases (check_lua s.world)) [
    | inr dead ↦ rw dead (refl, refl, v.taken)
    | inl alive ↦ elim (Bool-cases (contains d.xid s.cancel)) [
      | inl marked ↦ rw (alive, marked) (uncancel-Sound d.xid s v, refl)
      | inr unmarked ↦ elim (Bool-cases (contains d.xid s.known_deferred_threads)) [
        | inl known ↦
            rw (alive, unmarked, known)
              (same_waits (Kept-Sound _ s (resumed-Kept "DeferredThread" d.thread ran s.world) v))
        | inr unknown ↦ rw (alive, unmarked, unknown) v
      ]
    ]
  ]
    where
      ran : Ran rt.Thread rt.Values rt.Error rt.Fut rt.State
      ran = rt.resume d.thread d.args s.lua

      same_waits :
          {w : World}
          → Sound (record s { world = w })
          → Sound (record {
            world = w;
            locals = record s.locals {
              known_deferred_threads = remove d.xid s.known_deferred_threads;
            };
          })
      same_waits u = ground arith

  pub handle_async-Branched :
      (t : rt.Thread) (o : Outcome rt.Values rt.Error) (s : Loop)
      → Sound s
      → Branched ⊥ s.done (handle_async t o s)
  unfolding handle_async
  handle_async-Branched t o s v = elim (Bool-cases (check_lua s.world)) [
    | inr dead ↦ rw dead (refl, refl, v.taken)
    | inl alive ↦ rw alive (Kept-Sound _ s (handle_outcome-Kept t o s.world) v)
  ]
