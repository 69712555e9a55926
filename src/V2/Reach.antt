-- ===== src/V2/Reach.antt =====
-- taskmgr_v2.rs: every state in which a manager that has been run waits.
use mathlib.Core.Option.{some-injective}
use mlua_scheduler.Base.{
  ◌≡◌, refl, ap, ◌∙◌, subst, true, false, not, ◌||◌, some, List, [], ◌∷◌, Bool-cases, inl, inr,
}
use mlua_scheduler.Deps.Mlua.{Call}
use mlua_scheduler.Deps.Runtime.{Runtime}
use mlua_scheduler.V2.State.{World, Loop, call, check_lua, new}
use mlua_scheduler.V2.Arms.{Flow, falls}
use mlua_scheduler.V2.Run.{Event, round_of, outside, happen, start}
use mlua_scheduler.V2.Calls.{Kept, Kept-refl, Kept-trans, call-Kept}
use mlua_scheduler.V2.Rounds.{Rounded, TakesTooFar, round-Rounded}
use mlua_scheduler.V2.Invariant.{Kept-Sound, Inv}

module _ ⦃rt : Runtime⦄ where
  open rt use {Thread, Values, Error, Fut, State, contents, contents-new, entries-new, pending-new}

  call-Inv :
      (l : State) (c : Call Thread Values Error Fut) (s : Loop)
      → Inv s
      → Inv (record s { world = call c (record s.world { lua = l }) })
  call-Inv l c s v = record {
    sound = Kept-Sound _ s k v.sound;
    quiet = λ h.
        let i = v.quiet (k.still_done h) in
        record {
          no_events = ap contents (k.no_event h) ∙ i.no_events;
          no_waits = i.no_waits;
          no_asyncs = i.no_asyncs;
          no_deferred = i.no_deferred;
        };
  }
    where
      k : Kept s.core (call c (record s.world { lua = l })).core
      k = call-Kept c (record s.world { lua = l })

  -- A manager that has not been run: it holds its receivers and is not running.
  pub record Fresh (w : World) : Type 0 where
    pub stopped : w.is_running ≡ false
    pub receiver : w.rx ≡ true
    pub cancel_receiver : w.cancel_rx ≡ true
    pub no_cancels : contents w.cancel_events ≡ []
    pub quiet : w.done ≡ true → contents w.events ≡ []

  -- The program before `run`: other code changes the machine and calls the manager.
  unfoldable pub before : List (State × Call Thread Values Error Fut) → World → World
  before [] w = w
  before ((l, c) ∷ cs) w = before cs (call c (record w { lua = l }))

  before-Kept :
      (cs : List (State × Call Thread Values Error Fut)) (w : World)
      → Kept w.core (before cs w).core
  unfolding before
  before-Kept [] w = Kept-refl w.core
  before-Kept ((l, c) ∷ cs) w = Kept-trans (call-Kept c (record w { lua = l })) (before-Kept cs _)

  pub new-Fresh : (w : World) → w.core ≡ new → Fresh w
  unfolding new
  new-Fresh w e = record {
    stopped = ap (λ c. c.is_running) e;
    receiver = ap (λ c. c.rx) e;
    cancel_receiver = ap (λ c. c.cancel_rx) e;
    no_cancels = ap (λ c. contents c.cancel_events) e ∙ contents-new;
    quiet = λ h. ap (λ c. contents c.events) e ∙ contents-new;
  }

  pub before-Fresh :
      (cs : List (State × Call Thread Values Error Fut)) (w : World) → Fresh w → Fresh (before cs w)
  before-Fresh cs w v = record {
    stopped = k.running ∙ v.stopped;
    receiver = k.receiver ∙ v.receiver;
    cancel_receiver = k.cancel_receiver ∙ v.cancel_receiver;
    no_cancels = ap contents k.cancels ∙ v.no_cancels;
    quiet = λ h. ap contents (k.no_event h) ∙ v.quiet (k.still_done h);
  }
    where
      k : Kept w.core (before cs w).core
      k = before-Kept cs w

  start-Rounded : (w : World) → Fresh w → Rounded ⊥ (start w)
  unfolding start
  start-Rounded w v = elim (Bool-cases (w.is_cancelled || not (check_lua w))) [
    | inl stops ↦ rw (v.receiver, v.cancel_receiver, v.stopped, stops) (refl, refl, refl)
    | inr goes ↦
        rw (v.receiver, v.cancel_receiver, v.stopped, goes)
          (record {
            sound = record {
              running = refl;
              taken = refl;
              no_cancels = v.no_cancels;
              keyed = rw entries-new tt;
              distinct = rw entries-new tt;
            };
            quiet = λ h. record {
              no_events = v.quiet h;
              no_waits = entries-new;
              no_asyncs = pending-new;
              no_deferred = contents-new;
            };
          })
  ]

  -- The waits of a manager that was made by `new`, used by the program, and then run.
  pub data Reach (w : World) : Loop → Type 0 where
    begun :
        (cs : List (State × Call Thread Values Error Fut)) {s : Loop}
        → start (before cs w) ≡ falls s
        → Reach w s
    later : {s t : Loop} (e : Event) → Reach w s → happen e s ≡ some (falls t) → Reach w t

  -- What happens is a branch that takes a wait for a time that is too far ahead.
  abbrev pub Far : Event → Loop → Type 0
  Far (round_of arm) s = TakesTooFar arm s
  Far (outside l c) s = ⊥

  happen-Rounded :
      (e : Event) (s : Loop) {f : Flow Loop} → Inv s → happen e s ≡ some f → Rounded (Far e s) f
  unfolding happen
  happen-Rounded (round_of arm) s v p = round-Rounded arm s v p
  happen-Rounded (outside l c) s v p = subst (Rounded ⊥) (some-injective _ _ p) (call-Inv l c s v)

  -- Whatever the schedule and whatever Lua code does: where a manager waits, each delay-queue key is
  -- recorded once under its thread, the manager counts as running, and `done` is true only if
  -- nothing is queued anywhere.
  pub Reach-Inv : {w : World} {s : Loop} → w.core ≡ new → Reach w s → Inv s
  Reach-Inv {w} e (begun cs p) =
      subst (Rounded ⊥) p (start-Rounded (before cs w) (before-Fresh cs w (new-Fresh w e)))
  Reach-Inv e (later {s} ev r p) = happen-Rounded ev s (Reach-Inv e r) p

  -- What comes after a wait is no panic but that of `insert`, and where the run ends it has reset
  -- its flags.
  pub Reach-Rounded :
      {w : World} {s : Loop} (ev : Event) {f : Flow Loop}
      → w.core ≡ new
      → Reach w s
      → happen ev s ≡ some f
      → Rounded (Far ev s) f
  Reach-Rounded {s} ev e r p = happen-Rounded ev s (Reach-Inv e r) p
