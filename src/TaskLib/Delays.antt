-- ===== src/TaskLib/Delays.antt =====
-- crates/scheduler/src/userdata.rs with taskmgr_v2.rs: from a call of `task.delay` or `task.wait` to
-- the thread's run.
use mlua_scheduler.Base.{
  ℕ, ◌≤◌, ◌≡◌, refl, sym, ap, subst, ◌∙◌, ◌-◌, true, false, Option, none, some, [], ◌∷◌, ◌++◌, inl,
  inr, ok, Option-cases,
}
use mlua_scheduler.Collections.{contains}
use mlua_scheduler.Deps.Mlua.{add_waiting_thread}
use mlua_scheduler.Deps.Runtime.{Runtime}
use mlua_scheduler.V2.State.{
  World, Loop, WaitingThread, wait as wait_event, from_ptr, check_lua, call, call_core, push_event,
}
use mlua_scheduler.V2.Arms.{wake_args}
use mlua_scheduler.V2.Sleeps.{Sleeps, wait-Sleeps}
use mlua_scheduler.TaskLib.Defs.{
  Task, to_thread, gives, yields, Seconds, delay, delay_thread, wait, wait_duration,
}
use mlua_scheduler.TaskLib.Defers.{to_thread_cases}
use mlua_scheduler.TaskLib.Laws.{at_least}

module _ ⦃rt : Runtime⦄ where
  open rt use {Thread, Values, Error, F64, contents, contents-send}

  -- A call that sent the manager one wait: the same reports and marks.
  record Sent (t : Thread) (args : Option Values) (now d : ℕ) (w v : World) : Type 0 where
    events : contents v.events ≡ contents w.events ++ wait_event args t now d ∷ []
    responses : v.responses ≡ w.responses
    cancel : v.cancel ≡ w.cancel

  call-Sent :
      (t : Thread) (args : Option Values) (now d : ℕ) (w x : World)
      → x.core ≡ w.core
      → x.responses ≡ w.responses
      → Sent t args now d w (call (add_waiting_thread t args d now) x)
  unfolding call call_core push_event
  call-Sent t args now d w x same reports = record {
    events =
        contents-send (wait_event args t now d) x.events
        ∙ ap (λ c. contents c.events ++ wait_event args t now d ∷ []) same;
    responses = reports;
    cancel = ap (λ c. c.cancel) same;
  }

  delay-Sent :
      (sec : Seconds F64) (time : F64) (task : Task) (args : Values) (now : ℕ) (w : World)
      {t : Thread} {v : World}
      → delay sec time task args now w ≡ (gives t, v)
      → (d : ℕ) × (sec.from_secs_f64 time ≡ some d) × Sent t (some args) now d w v
  unfolding delay delay_thread
  delay-Sent sec time task args now w {t} {v} p =
      let (r, same, reports) = to_thread_cases task w in
      let x = (to_thread task w).1 in
      let duration = sec.from_secs_f64 time in
      elim r [
        | inl (e, q) ↦ cc (sym (ap (λ r. delay_thread sec duration r args now x) q) ∙ p)
        | inr (u, q) ↦
            let ran = sym (ap (λ r. delay_thread sec duration r args now x) q) ∙ p in
            elim (Option-cases duration) [
              | inl n ↦ cc (sym (ap (λ o. delay_thread sec o (ok u) args now x) n) ∙ ran)
              | inr (d, n) ↦
                  let same_pair : (gives u, call (add_waiting_thread u (some args) d now) x)
                      ≡ (gives t, v) =
                    sym (ap (λ o. delay_thread sec o (ok u) args now x) n) ∙ ran in
                  let at : u ≡ t = cc same_pair in
                  let after : call (add_waiting_thread u (some args) d now) x ≡ v =
                    ap (λ s. s.1) same_pair in
                  (
                    d,
                    n,
                    subst (Sent t (some args) now d w)
                        (ap (λ a. call (add_waiting_thread a (some args) d now) x) (sym at) ∙ after)
                        (call-Sent t (some args) now d w x same reports),
                  )
            ]
      ]

  wait-Sent :
      (sec : Seconds F64) (time : Option F64) (t : Thread) (now : ℕ) (w : World) {v : World}
      → wait sec time t now w ≡ (yields, v)
      → (d : ℕ) × (50_000_000 ≤ d) × Sent t none now d w v
  unfolding wait
  wait-Sent sec time t now w {v} p = elim (Option-cases (wait_duration sec time)) [
    | inl n ↦ cc (rw (n, wait) at p)
    | inr (d, n) ↦ (
      d,
      at_least sec time n,
      subst (Sent t none now d w) (ap (λ s. s.1) (rw (n, wait) at p))
          (call-Sent t none now d w w refl refl),
    )
  ]

  abbrev sleeping : Option Values → ℕ → Thread → WaitingThread
  sleeping args now t = record { delay_args = args; start_at = now; thread = t }

  Sent-Sleeps :
      (t : Thread) (args : Option Values) (now d taken later : ℕ) (s : Loop) {w : World}
      → Sent t args now d s.world w
      → contents s.events ≡ []
      → rt.entries s.wait_queue ≡ []
      → w.is_cancelled ≡ false
      → check_lua w ≡ true
      → contains (from_ptr t) s.cancel ≡ false
      → Sleeps taken d later t (wake_args later (sleeping args now t)) (record s { world = w })
  Sent-Sleeps t args now d taken later s {w} sent no_events none_waits on alive unmarked =
      wait-Sleeps (sleeping args now t) d taken later (record s { world = w })
        (sent.events ∙ ap (λ l. l ++ wait_event args t now d ∷ []) no_events) none_waits on alive
        (ap (contains (from_ptr t)) sent.cancel ∙ unmarked)

  -- Where the manager waits with no event under way and no thread waiting, `task.delay` of a thread
  -- or a function gives a thread that is not marked as cancelled, Lua is alive, and the manager is
  -- not stopped: the number of seconds is a duration, and nothing has been reported. If it is too
  -- far ahead for the timer, the round at time `taken` that takes the event panics. If not, that
  -- round runs no Lua code and comes to wait again; and at every time `later`, with nothing else
  -- done, either the duration has not gone by since `taken` and the branch of waits is not ready,
  -- or that branch runs the thread once, with the arguments of the call, reports its result, and
  -- leaves no wait behind.
  pub delay-runs :
      (sec : Seconds F64) (time : F64) (task : Task) (args : Values) (t : Thread)
      (now taken later : ℕ) (s : Loop) {w : World}
      → contents s.events ≡ []
      → rt.entries s.wait_queue ≡ []
      → delay sec time task args now s.world ≡ (gives t, w)
      → w.is_cancelled ≡ false
      → check_lua w ≡ true
      → contains (from_ptr t) s.cancel ≡ false
      → (d : ℕ) × (sec.from_secs_f64 time ≡ some d)
        × (w.responses ≡ s.responses)
        × Sleeps taken d later t args (record s { world = w })
  unfolding wake_args
  delay-runs sec time task args t now taken later s no_events none_waits given on alive unmarked =
      let (d, n, sent) = delay-Sent sec time task args now s.world given in
      (
        d,
        n,
        sent.responses,
        Sent-Sleeps t (some args) now d taken later s sent no_events none_waits on alive unmarked,
      )

  -- Where the manager waits with no event under way and no thread waiting, `task.wait` is called on a
  -- thread that is not marked as cancelled and that then yields, Lua is alive, and the manager is not
  -- stopped: the duration is at least 50 milliseconds, and nothing has been reported. If it is too far
  -- ahead for the timer, the round at time `taken` that takes the event panics. If not, that round
  -- runs no Lua code and comes to wait again; and at every time `later`, with nothing else done,
  -- either the duration has not gone by since `taken` and the branch of waits is not ready, or that
  -- branch runs the thread once, with the seconds from the call to `later`, reports its result, and
  -- leaves no wait behind.
  pub wait-runs :
      (sec : Seconds F64) (time : Option F64) (t : Thread) (now taken later : ℕ) (s : Loop)
      {w : World}
      → contents s.events ≡ []
      → rt.entries s.wait_queue ≡ []
      → wait sec time t now s.world ≡ (yields, w)
      → w.is_cancelled ≡ false
      → check_lua w ≡ true
      → contains (from_ptr t) s.cancel ≡ false
      → (d : ℕ) × (50_000_000 ≤ d)
        × (w.responses ≡ s.responses)
        × Sleeps taken d later t
            (rt.from_f64 (rt.as_secs_f64 (later - now)))
            (record s { world = w })
  unfolding wake_args
  wait-runs sec time t now taken later s no_events none_waits yielded on alive unmarked =
      let (d, long, sent) = wait-Sent sec time t now s.world yielded in
      (
        d,
        long,
        sent.responses,
        Sent-Sleeps t none now d taken later s sent no_events none_waits on alive unmarked,
      )
