-- ===== src/V2/Deferred.antt =====
-- taskmgr_v2.rs: deferred threads, and the `Clear` event.
use mlua_scheduler.Base.{
  ℕ, ◌≡◌, ◌≢◌, arith, ◌⊎◌, refl, sym, ap, ◌∙◌, true, false, some, List, [], ◌∷◌, Bool-cases, inl,
  inr, ==_refl,
}
use mathlib.Core.Bool.{false≢true}
use mathlib.Core.Option
use mlua_scheduler.Collections.{contains, remove, contains-remove}
use mlua_scheduler.Deps.Lemmas.{recv-of_cons}
use mlua_scheduler.Deps.Runtime.{Runtime}
use mlua_scheduler.V2.State.{Loop, DeferredThread, clear_event, check_lua, SchedulerEvent}
use mlua_scheduler.V2.Resumes.{Resumes, resumed-of}
use mlua_scheduler.V2.Arms.{
  falls, continues, hangs, handle_deferred, cleared, handle_clear, handle_event, uncancel, resumed,
}
use mlua_scheduler.V2.Clear.{handle_clear-hangs}
use mlua_scheduler.V2.Run.{on_event, on_deferred, round, select, after_select}

module _ ⦃rt : Runtime⦄ where
  open rt use {Chan, entries, entries-clear, recv, contents}

  abbrev pub took : Loop → Chan DeferredThread → Loop
  took s q = record s { locals = record s.locals { deferred_queue = q } }

  -- The state after a deferred thread has been resumed.
  abbrev pub ran_deferred : Loop → DeferredThread → Chan DeferredThread → Loop
  ran_deferred s d q = record s {
    world = resumed "DeferredThread" d.thread (rt.resume d.thread d.args s.lua) s.world;
    locals = record s.locals {
      deferred_queue = q;
      known_deferred_threads = remove d.xid s.known_deferred_threads;
    };
  }

  select-deferred :
      (s : Loop) (d : DeferredThread) (q : Chan DeferredThread)
      → recv s.deferred_queue ≡ some (d, q)
      → select on_deferred s ≡ some (handle_deferred d (took s q))
  unfolding select
  select-deferred s d q p = rw (p, select)

  pub select_deferred_cases :
      (s : Loop) {d : DeferredThread} {ds : List DeferredThread}
      → contents s.deferred_queue ≡ d ∷ ds
      → check_lua s.world ≡ true
      → (q : Chan DeferredThread) × (contents q ≡ ds)
        × (((contains d.xid s.cancel ≡ true)
              × (select on_deferred s ≡ some (continues (uncancel d.xid (took s q)))))
            ⊎ ((contains d.xid s.cancel ≡ false)
                × (contains d.xid s.known_deferred_threads ≡ true)
                × (select on_deferred s ≡ some (falls (ran_deferred s d q))))
            ⊎ ((contains d.xid s.cancel ≡ false)
                × (contains d.xid s.known_deferred_threads ≡ false)
                × (select on_deferred s ≡ some (falls (took s q)))))
  unfolding handle_deferred
  select_deferred_cases s {d} first alive =
      let (q, p, e) = recv-of_cons s.deferred_queue first in
      let sel = select-deferred s d q p in
      (
        q,
        e,
        elim (Bool-cases (contains d.xid s.cancel)) [
          | inl marked ↦ inl (marked, sel ∙ ap some (rw (alive, marked)))
          | inr unmarked ↦ inr (elim (Bool-cases (contains d.xid s.known_deferred_threads)) [
            | inl known ↦ inl (unmarked, known, sel ∙ ap some (rw (alive, unmarked, known)))
            | inr lost ↦ inr (unmarked, lost, sel ∙ ap some (rw (alive, unmarked, lost)))
          ])
        ],
      )

  -- The ids without one.
  abbrev pub Without : ℕ → List ℕ → List ℕ → Type 0
  Without k before after =
      (contains k after ≡ false) × ((j : ℕ) → j ≢ k → contains j after ≡ contains j before)

  remove-Without : (k : ℕ) (l : List ℕ) → Without k l (remove k l)
  remove-Without k l = (
    ground (arith, contains-remove k k l),
    λ j other. ground (arith, contains-remove k j l, other),
  )

  -- While Lua is alive, the branch of deferred threads takes the one that was sent first. If its id
  -- is marked as cancelled, it is not resumed, the mark is gone, and all other marks, the known
  -- ids, the machine and the reports stay. If it is not marked and its id is known, it is resumed
  -- once with its arguments, its result is reported, and the id is known no longer, while all other
  -- known ids stay. If it is not marked and not known, it is dropped, and the world and the known
  -- ids stay.
  pub deferred_turn_cases :
      (s : Loop) {d : DeferredThread} {ds : List DeferredThread}
      → contents s.deferred_queue ≡ d ∷ ds
      → check_lua s.world ≡ true
      → (t : Loop) × (contents t.deferred_queue ≡ ds)
        × (((contains d.xid s.cancel ≡ true)
              × (select on_deferred s ≡ some (continues t))
              × Without d.xid s.cancel t.cancel
              × (t.known_deferred_threads ≡ s.known_deferred_threads)
              × (t.lua ≡ s.lua)
              × (t.responses ≡ s.responses))
            ⊎ ((contains d.xid s.cancel ≡ false)
                × (contains d.xid s.known_deferred_threads ≡ true)
                × (select on_deferred s ≡ some (falls t))
                × Without d.xid s.known_deferred_threads t.known_deferred_threads
                × Resumes "DeferredThread" d.thread
                    (rt.resume d.thread d.args s.lua)
                    s.world
                    t.world)
            ⊎ ((contains d.xid s.cancel ≡ false)
                × (contains d.xid s.known_deferred_threads ≡ false)
                × (select on_deferred s ≡ some (falls t))
                × (t.known_deferred_threads ≡ s.known_deferred_threads)
                × (t.world ≡ s.world)))
  unfolding uncancel
  deferred_turn_cases s {d} first alive =
      let (q, e, cases) = select_deferred_cases s first alive in
      elim cases [
        | inl (marked, p) ↦ (
          uncancel d.xid (took s q),
          e,
          inl (marked, p, remove-Without d.xid s.cancel, refl, refl, refl),
        )
        | inr (inl (unmarked, known, p)) ↦ (
          ran_deferred s d q,
          e,
          inr (
              inl (
                unmarked,
                known,
                p,
                remove-Without d.xid s.known_deferred_threads,
                resumed-of "DeferredThread" d.thread (rt.resume d.thread d.args s.lua) s.world refl,
              )),
        )
        | inr (inr (unmarked, lost, p)) ↦ (took s q, e, inr (inr (unmarked, lost, p, refl, refl)))
      ]

  -- If one thread stands in the queue twice and its first entry is resumed, its second entry, when
  -- its turn comes with the known ids unchanged, is dropped without resuming the thread.
  pub deferred_twice :
      (s u : Loop) (d : DeferredThread) {d' : DeferredThread} {ds : List DeferredThread}
      (q : Chan DeferredThread)
      → select on_deferred s ≡ some (falls (ran_deferred s d q))
      → d'.xid ≡ d.xid
      → contents u.deferred_queue ≡ d' ∷ ds
      → u.known_deferred_threads ≡ (ran_deferred s d q).known_deferred_threads
      → check_lua u.world ≡ true
      → (v : Loop) × ((select on_deferred u ≡ some (falls v))
          ⊎ (select on_deferred u ≡ some (continues v)))
        × (v.responses ≡ u.responses)
        × (v.lua ≡ u.lua)
        × (contents v.deferred_queue ≡ ds)
  unfolding uncancel
  deferred_twice s u d {d'} q ran same first ids alive =
      let (r, e, cases) = select_deferred_cases u first alive in
      elim cases [
        | inl (marked, p) ↦ (uncancel d'.xid (took u r), inr p, refl, refl, e)
        | inr (inl (unmarked, known, p)) ↦ absurd (false≢true (sym forgotten ∙ known))
        | inr (inr (unmarked, lost, p)) ↦ (took u r, inl p, refl, refl, e)
      ]
    where
      forgotten : contains d'.xid u.known_deferred_threads ≡ false
      forgotten = rw (ids, same, contains-remove, ==_refl)

  select-clear :
      (now : ℕ) (s : Loop) (q : Chan SchedulerEvent)
      → recv s.events ≡ some (clear_event, q)
      → select (on_event now) s
        ≡ some (
            handle_clear
              (record s { world = record s.world { core = record s.core { events = q } } }))
  unfolding select handle_event
  select-clear now s q p = rw (p, select)

  -- A `Clear` event empties the delay queue and the deferred queue, and then waits for good, since
  -- the sender of the deferred queue is a local variable of `run`: `run` takes no further branch,
  -- still says that it is running, and leaves `done` as it was.
  pub clear-hangs :
      (now : ℕ) (s : Loop) {es : List SchedulerEvent}
      → contents s.events ≡ clear_event ∷ es
      → (t : Loop) × (round (on_event now) s ≡ some (hangs t))
        × (entries t.wait_queue ≡ [])
        × (contents t.deferred_queue ≡ [])
        × (contents t.events ≡ es)
        × (t.is_running ≡ s.is_running)
        × (t.done ≡ s.done)
  unfolding round after_select
  clear-hangs now s first =
      let (q, p, e) = recv-of_cons s.events first in
      let u = record s { world = record s.world { core = record s.core { events = q } } } in
      let (c, h, none_left) = handle_clear-hangs u in
      (
        cleared u c,
        ap (Option.map after_select) (select-clear now s q p ∙ ap some h),
        entries-clear s.wait_queue,
        none_left,
        e,
        refl,
        refl,
      )
