-- ===== src/TaskLib/Defers.antt =====
-- crates/scheduler/src/userdata.rs with taskmgr_v2.rs: from a call of `task.defer` to the thread's
-- run.
use mlua_scheduler.Base.{
  ℕ, ◌≡◌, ◌⊎◌, refl, sym, ap, subst, ◌∙◌, true, false, some, [], ◌∷◌, ◌++◌, inl, inr, ok, err,
  Result-cases, ==_refl,
}
use mathlib.Core.Bool.{false≢true}
use mlua_scheduler.Collections.{contains, insert, contains-insert}
use mlua_scheduler.Deps.Mlua.{add_deferred_thread}
use mlua_scheduler.Deps.Lemmas.{recv-of_cons}
use mlua_scheduler.Deps.Runtime.{Runtime}
use mlua_scheduler.V2.State.{
  World, Loop, DeferredThread, SchedulerEvent, deferred_thread, from_ptr, check_lua, call,
  call_core, push_event,
}
use mlua_scheduler.V2.Resumes.{Resumes, resumed-of}
use mlua_scheduler.V2.Arms.{falls, handle_event}
use mlua_scheduler.V2.Run.{on_event, on_deferred, select, round, update_done}
use mlua_scheduler.V2.Rounds.{round-falls}
use mlua_scheduler.V2.Deferred.{ran_deferred, select_deferred_cases}
use mlua_scheduler.TaskLib.Defs.{Task, thread, function, to_thread, gives, defer, defer_thread}

module _ ⦃rt : Runtime⦄ where
  open rt use {Thread, Values, Error, Chan, contents, contents-send, create_thread, resume}

  -- A thread or a function becomes a thread, or the machine has no memory for it. The manager and its
  -- reports stay as they were.
  pub to_thread_cases :
      (task : Task) (w : World)
      → (((e : Error) × ((to_thread task w).0 ≡ err e))
          ⊎ ((t : Thread) × ((to_thread task w).0 ≡ ok t)))
        × ((to_thread task w).1.core ≡ w.core)
        × ((to_thread task w).1.responses ≡ w.responses)
  unfolding to_thread
  to_thread_cases (thread t) w = (inr (t, refl), refl, refl)
  to_thread_cases (function f) w = elim (Result-cases (create_thread f w.lua).0) [
    | inl (t, p) ↦ (inr (t, p), refl, refl)
    | inr (e, p) ↦ (inl (e, p), refl, refl)
  ]

  -- What a call that gives its thread leaves: one more event, and the same reports and marks.
  record Sent (t : Thread) (args : Values) (w v : World) : Type 0 where
    events : contents v.events ≡ contents w.events ++ deferred_thread t args ∷ []
    responses : v.responses ≡ w.responses
    cancel : v.cancel ≡ w.cancel
    busy : v.done ≡ false

  call-Sent :
      (t : Thread) (args : Values) (w x : World)
      → x.core ≡ w.core
      → x.responses ≡ w.responses
      → Sent t args w (call (add_deferred_thread t args) x)
  unfolding call call_core push_event
  call-Sent t args w x same reports = record {
    events =
        contents-send (deferred_thread t args) x.events
        ∙ ap (λ c. contents c.events ++ deferred_thread t args ∷ []) same;
    responses = reports;
    cancel = ap (λ c. c.cancel) same;
    busy = refl;
  }

  defer-Sent :
      (task : Task) (args : Values) (w : World) {t : Thread} {v : World}
      → defer task args w ≡ (gives t, v)
      → Sent t args w v
  unfolding defer defer_thread
  defer-Sent task args w {t} {v} p =
      let (r, same, reports) = to_thread_cases task w in
      let x = (to_thread task w).1 in
      elim r [
        | inl (e, q) ↦ cc (sym (ap (λ r. defer_thread r args x) q) ∙ p)
        | inr (u, q) ↦
            let same_pair : (gives u, call (add_deferred_thread u args) x) ≡ (gives t, v) =
              sym (ap (λ r. defer_thread r args x) q) ∙ p in
            let at : u ≡ t = cc same_pair in
            let after : call (add_deferred_thread u args) x ≡ v = ap (λ s. s.1) same_pair in
            subst (Sent t args w) (ap (λ a. call (add_deferred_thread a args) x) (sym at) ∙ after)
              (call-Sent t args w x same reports)
      ]

  -- The state after the event of a deferred thread has been taken.
  abbrev pub entered : DeferredThread → Chan SchedulerEvent → Loop → Loop
  entered d q s = record s {
    world = record s.world { core = record s.core { events = q } };
    locals = record s.locals {
      deferred_queue = rt.send d s.deferred_queue;
      known_deferred_threads = insert d.xid s.known_deferred_threads;
    };
  }

  round-entered :
      (now : ℕ) (t : Thread) (args : Values) (s : Loop) (q : Chan SchedulerEvent)
      → rt.recv s.events ≡ some (deferred_thread t args, q)
      → s.is_cancelled ≡ false
      → check_lua s.world ≡ true
      → round (on_event now) s
        ≡ some (
            falls
              (update_done (entered (record { thread = t; args = args; xid = from_ptr t }) q s)))
  unfolding select handle_event check_lua
  round-entered now t args s q p on alive =
      round-falls (on_event now) s _ (rw (p, select) refl) on alive

  -- Where the manager waits with no event under way and no thread deferred, `task.defer` of a thread
  -- or a function gives a thread that is not marked as cancelled, Lua is alive, and the manager
  -- is not stopped: the round in which the manager takes the event runs no Lua code and comes to wait
  -- again; the branch of deferred threads then runs that thread, once, with the arguments of the
  -- call, and its result is reported; and no event and no deferred thread were left before Lua code
  -- ran.
  pub defer-runs :
      (task : Task) (args : Values) (t : Thread) (now : ℕ) (s : Loop) {w : World}
      → contents s.events ≡ []
      → contents s.deferred_queue ≡ []
      → defer task args s.world ≡ (gives t, w)
      → w.is_cancelled ≡ false
      → check_lua w ≡ true
      → contains (from_ptr t) s.cancel ≡ false
      → (u v : Loop) × (round (on_event now) (record s { world = w }) ≡ some (falls u))
        × (contents u.events ≡ [])
        × (u.lua ≡ w.lua)
        × (u.responses ≡ s.responses)
        × (select on_deferred u ≡ some (falls v))
        × (contents v.deferred_queue ≡ [])
        × Resumes "DeferredThread" t (resume t args w.lua) u.world v.world
  unfolding check_lua update_done
  defer-runs task args t now s {w} no_events none_deferred given on alive unmarked =
      let sent = defer-Sent task args s.world given in
      let (q, p, rest) =
        recv-of_cons w.events
          (sent.events ∙ ap (λ l. l ++ deferred_thread t args ∷ []) no_events) in
      let d : DeferredThread = record { thread = t; args = args; xid = from_ptr t } in
      let u = update_done (entered d q (record s { world = w })) in
      let (r, left, cases) =
        select_deferred_cases u
          (contents-send d s.deferred_queue ∙ ap (λ l. l ++ d ∷ []) none_deferred) alive in
      let v = ran_deferred u d r in
      (
        u,
        v,
        round-entered now t args (record s { world = w }) q p on alive,
        rest,
        refl,
        sent.responses,
        elim cases [
          | inl (marked, n) ↦
              absurd (false≢true (sym unmarked ∙ ap (contains d.xid) (sym sent.cancel) ∙ marked))
          | inr (inl (not_marked, known, n)) ↦ n
          | inr (inr (not_marked, lost, n)) ↦ absurd (
              false≢true
                (sym lost ∙ contains-insert d.xid d.xid s.known_deferred_threads ∙ rw ==_refl refl))
        ],
        left,
        resumed-of "DeferredThread" t (resume t args w.lua) u.world refl,
      )
