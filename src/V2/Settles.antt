-- ===== src/V2/Settles.antt =====
-- taskmgr_v2.rs in `send` mode: when `done` is right, and when it is not.
use mlua_scheduler.Base.{
  ℕ, zero, suc, ◌≡◌, refl, sym, ap, subst, ◌∙◌, Bool, true, false, ◌&&◌, List, [], ◌∷◌, ◌++◌,
  Option-cases, inl, inr,
}
use mlua_scheduler.Deps.Runtime.{Runtime}
use mlua_scheduler.V2.State.{SchedulerEvent}
use mlua_scheduler.V2.Parallel.{
  End, checking, decided, waiting, Pusher, before, cleared, pushed, Shared, Parallel, push_move,
  push_step, end_step, take_step, other_step, Move, pusher, take, other, body_end, move, run, begin,
}

module _ ⦃rt : Runtime⦄ where
  open rt use {Chan, contents, contents-send, is_empty, is_empty_iff, recv}

  -- No call of push_event is between its two steps.
  abbrev pub NoneCleared : List Pusher → Type 0
  NoneCleared [] = Unit
  NoneCleared (cleared e ∷ ps) = ⊥
  NoneCleared (_ ∷ ps) = NoneCleared ps

  cons-NoneCleared :
      (p : Pusher) (ps qs : List Pusher)
      → NoneCleared (p ∷ ps)
      → (NoneCleared ps → NoneCleared qs)
      → NoneCleared (p ∷ qs)
  cons-NoneCleared (before e) ps qs h k = k h
  cons-NoneCleared (cleared e) ps qs h k = absurd h
  cons-NoneCleared pushed ps qs h k = k h

  tail-NoneCleared : (p : Pusher) (ps : List Pusher) → NoneCleared (p ∷ ps) → NoneCleared ps
  tail-NoneCleared (before e) ps h = h
  tail-NoneCleared (cleared e) ps h = absurd h
  tail-NoneCleared pushed ps h = h

  send-ne_nil : (e : SchedulerEvent) (c : Chan SchedulerEvent) → ¬ contents (rt.send e c) ≡ []
  send-ne_nil e c p = no_snoc (contents c) (sym (contents-send e c) ∙ p)
    where
      no_snoc : (es : List SchedulerEvent) → ¬ es ++ e ∷ [] ≡ []
      no_snoc [] h = cc
      no_snoc (x ∷ es) h = cc

  -- If no event is there after a step of a pusher, none was there before; and if also none is under
  -- way, then the step changed nothing, and none was under way.
  record Still (ps qs : List Pusher) (s t : Shared) : Type 0 where
    no_event : contents t.events ≡ [] → contents s.events ≡ []
    nothing : contents t.events ≡ [] → NoneCleared qs → (t ≡ s) × NoneCleared ps

  move-Still :
      (p : Pusher) (ps : List Pusher) (s : Shared)
      → Still (p ∷ ps) ((push_move p s).0 ∷ ps) s (push_move p s).1
  unfolding push_move
  move-Still (before e) ps s = record { no_event = λ h. h; nothing = λ h k. absurd k }
  move-Still (cleared e) ps s = record {
    no_event = λ h. absurd (send-ne_nil e s.events h);
    nothing = λ h k. absurd (send-ne_nil e s.events h);
  }
  move-Still pushed ps s = record { no_event = λ h. h; nothing = λ h k. (refl, k) }

  push_step-Still :
      (i : ℕ) (ps : List Pusher) (s : Shared) → Still ps (push_step i ps s).0 s (push_step i ps s).1
  unfolding push_step
  push_step-Still i [] s = record { no_event = λ h. h; nothing = λ h k. (refl, k) }
  push_step-Still zero (p ∷ ps) s = move-Still p ps s
  push_step-Still (suc i) (p ∷ ps) s =
      let v = push_step-Still i ps s in
      record {
        no_event = v.no_event;
        nothing = λ h k.
            let (same, quiet) = v.nothing h (tail-NoneCleared p _ k) in
            (same, cons-NoneCleared p _ ps k (λ u. quiet));
      }

  -- What is known where `run` is.
  abbrev Right : End → Parallel → Type 0
  Right checking p = Unit
  Right (decided v) p = contents p.events ≡ [] → v ≡ p.others_empty
  Right waiting p = contents p.events ≡ [] → NoneCleared p.pushers → p.done ≡ p.others_empty

  and_true : (a : Bool) → (a && true) ≡ a
  and_true true = refl
  and_true false = refl

  pusher-Right : (i : ℕ) (a : End) (p : Parallel) → Right a p → Right a (move (pusher i) p)
  unfolding move
  pusher-Right i checking p v = tt
  pusher-Right i (decided x) p v = λ h. v ((push_step-Still i p.pushers p.shared).no_event h)
  pusher-Right i waiting p v = λ h k.
      let (same, quiet) = (push_step-Still i p.pushers p.shared).nothing h k in
      ap (λ s. s.done) same ∙ v ((push_step-Still i p.pushers p.shared).no_event h) quiet

  end-Right :
      (a : End) (p : Parallel) → p.at ≡ a → Right p.at p → Right (end_step p).at (end_step p)
  unfolding end_step
  end-Right checking p e v =
      rw (e, end_step)
        (λ h. ap (◌&&◌ p.others_empty) ((is_empty_iff p.events).1 h) ∙ and_true p.others_empty)
  end-Right (decided x) p e v = rw (e, end_step) (λ h k. subst (λ a. Right a p) e v h)
  end-Right waiting p e v = rw (e, end_step) v

  take-Right :
      (left : Bool) (a : End) (p : Parallel)
      → p.at ≡ a
      → Right p.at p
      → Right (take_step left p).at (take_step left p)
  unfolding take_step
  take-Right left checking p e v = rw (e, take_step) v
  take-Right left (decided x) p e v = rw (e, take_step) v
  take-Right left waiting p e v = elim (Option-cases (recv p.events)) [
    | inl n ↦ rw (e, n, take_step) v
    | inr (r, n) ↦ rw (e, n, take_step) tt
  ]

  other-Right :
      (left : Bool) (a : End) (p : Parallel)
      → p.at ≡ a
      → Right p.at p
      → Right (other_step left p).at (other_step left p)
  unfolding other_step
  other-Right left checking p e v = rw (e, other_step) v
  other-Right left (decided x) p e v = rw (e, other_step) v
  other-Right left waiting p e v = rw (e, other_step) tt

  move-Right : (m : Move) (p : Parallel) → Right p.at p → Right (move m p).at (move m p)
  unfolding move
  move-Right (pusher i) p v = pusher-Right i p.at p v
  move-Right (take left) p v = take-Right left p.at p refl v
  move-Right (other left) p v = other-Right left p.at p refl v
  move-Right body_end p v = end-Right p.at p refl v

  run-Right : (ms : List Move) (p : Parallel) → Right p.at p → Right (run ms p).at (run ms p)
  unfolding run
  run-Right [] p v = v
  run-Right (m ∷ ms) p v = run-Right ms (move m p) (move-Right m p v)

  -- Tasks push events while `run` goes on, all from the first wait of `run` with nothing queued.
  -- Whatever the schedule of their steps, with rounds that reach the end of the body: where `run`
  -- waits in `select!`, no event is queued and no push_event is between its two steps, `done` says
  -- whether the other queues are empty.
  pub run-settles :
      (es : List SchedulerEvent) (ms : List Move)
      → (run ms (begin es)).at ≡ waiting
      → contents (run ms (begin es)).events ≡ []
      → NoneCleared (run ms (begin es)).pushers
      → (run ms (begin es)).done ≡ (run ms (begin es)).others_empty
  run-settles es ms waits no_event quiet =
      subst (λ a. Right a (run ms (begin es))) waits (run-Right ms (begin es) (λ h k. refl))
        no_event quiet

  -- `run` has come to the end of its body with nothing queued, and a task is about to push.
  abbrev pub about_to_look : SchedulerEvent → Chan SchedulerEvent → Bool → List Pusher → Parallel
  about_to_look e c d ps = record {
    shared = record { done = d; events = c };
    others_empty = true;
    at = checking;
    pushers = before e ∷ ps;
  }

  abbrev pub pushed_between : SchedulerEvent → Chan SchedulerEvent → Bool → List Pusher → Parallel
  unfolding run
  pushed_between e c d ps =
      run (body_end ∷ pusher 0 ∷ pusher 0 ∷ body_end ∷ []) (about_to_look e c d ps)

  -- Where `run` is at the end of its body with nothing queued, and a task calls push_event between
  -- its look at the queues and its store: `run` then waits with `done` true, for which
  -- wait_till_done waits, although the event is queued.
  pub pushed_between-done :
      (e : SchedulerEvent) (c : Chan SchedulerEvent) (d : Bool) (ps : List Pusher)
      → contents c ≡ []
      → ((pushed_between e c d ps).at ≡ waiting)
        × ((pushed_between e c d ps).done ≡ true)
        × (contents (pushed_between e c d ps).events ≡ e ∷ [])
  unfolding run move end_step push_step push_move
  pushed_between-done e c d ps no_event =
      (refl, (is_empty_iff c).1 no_event, contents-send e c ∙ ap (λ l. l ++ e ∷ []) no_event)
