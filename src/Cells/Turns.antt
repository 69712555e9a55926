-- ===== src/Cells/Turns.antt =====
-- Without `send` no other task comes between the load and the store of incr_async and decr_async
-- (taskmgr_v1.rs): then no update is lost.
use mlua_scheduler.Base.{ℕ, zero, suc, ◌+◌, ◌^◌, ◌≤◌, ◌<◌, ◌≡◌, refl, List, [], ◌∷◌, map, arith}
use mlua_scheduler.Deps.Mlua.{Mlua}
use mlua_scheduler.Deps.BinaryHeap.{BinaryHeap}
use mlua_scheduler.V1.State.{WaitingThread, at_most, TaskManagerInner, incr_async, decr_async}
use mlua_scheduler.Cells.Cell.{Cell, get, set, new}
use mlua_scheduler.Cells.Counter.{
  Op, incr, decr, next, Pc, starts, loaded, finished, move, step, run, ended, count_ended, count,
}
use mlua_scheduler.Cells.Bounds.{
  total, step-total, ended-le, count_ended-le, starts-ended, starts-total,
}

-- Each task of a list takes both its steps at once.
unfoldable pub turns : List ℕ → List ℕ
turns [] = []
turns (k ∷ ks) = k ∷ k ∷ turns ks

-- No task is between its load and its store.
abbrev NoneLoaded : List Pc → Type 0
NoneLoaded [] = Unit
NoneLoaded (loaded o v ∷ ps) = ⊥
NoneLoaded (_ ∷ ps) = NoneLoaded ps

record Exact (n i d : ℕ) (s : Cell ℕ × List Pc) : Type 0 where
  exact : get s.0 + d + count_ended decr s.1 ≡ n + i + count_ended incr s.1
  none : NoneLoaded s.1
  enough : d + total decr s.1 ≤ n
  room : n + i + total incr s.1 < 2 ^ 64

move-Exact :
    (n i d : ℕ) (c : Cell ℕ) (p : Pc) (ps : List Pc)
    → Exact n i d (c, p ∷ ps)
    → Exact n i d (step zero (step zero (c, p ∷ ps)))
unfolding step move total count_ended get set next
move-Exact n i d c (starts incr) ps v = record {
  exact = omega (arith, v.exact, v.room, v.enough, count_ended-le incr ps);
  none = v.none;
  enough = v.enough;
  room = v.room;
}
move-Exact n i d c (starts decr) ps v = record {
  exact = omega (arith, v.exact, v.room, v.enough, count_ended-le decr ps, count_ended-le incr ps);
  none = v.none;
  enough = v.enough;
  room = v.room;
}
move-Exact n i d c (finished o) ps v = v
move-Exact n i d c (loaded o x) ps v = absurd v.none

tail-NoneLoaded : (p : Pc) (ps : List Pc) → NoneLoaded (p ∷ ps) → NoneLoaded ps
tail-NoneLoaded (starts o) ps h = h
tail-NoneLoaded (finished o) ps h = h
tail-NoneLoaded (loaded o v) ps h = absurd h

cons-NoneLoaded :
    (p : Pc) (ps qs : List Pc) → NoneLoaded (p ∷ ps) → NoneLoaded qs → NoneLoaded (p ∷ qs)
cons-NoneLoaded (starts o) ps qs h k = k
cons-NoneLoaded (finished o) ps qs h k = k
cons-NoneLoaded (loaded o v) ps qs h k = absurd h

turn-Exact :
    (n i d k : ℕ) (c : Cell ℕ) (ps : List Pc)
    → Exact n i d (c, ps)
    → Exact n i d (step k (step k (c, ps)))
unfolding step total count_ended get
turn-Exact n i d k c [] v = v
turn-Exact n i d zero c (p ∷ ps) v = move-Exact n i d c p ps v
turn-Exact n i d (suc k) c (p ∷ ps) v =
    let u = turn-Exact n (i + ended incr p) (d + ended decr p) k c ps (record {
      exact = omega (arith, v.exact);
      none = tail-NoneLoaded p ps v.none;
      enough = omega (arith, v.enough, ended-le decr p);
      room = omega (arith, v.room, ended-le incr p);
    }) in
    let s = step k (c, ps) in
    record {
      exact = omega (arith, u.exact);
      none = cons-NoneLoaded p ps _ v.none u.none;
      enough = omega (arith, v.enough, step-total decr k s.0 s.1, step-total decr k c ps);
      room = omega (arith, v.room, step-total incr k s.0 s.1, step-total incr k c ps);
    }

turns-Exact :
    (n : ℕ) (ks : List ℕ) (s : Cell ℕ × List Pc) → Exact n 0 0 s → Exact n 0 0 (run (turns ks) s)
unfolding run turns
turns-Exact n [] s v = v
turns-Exact n (k ∷ ks) s v = turns-Exact n ks (step k (step k s)) (turn-Exact n 0 0 k s.0 s.1 v)

starts-NoneLoaded : (os : List Op) → NoneLoaded (map starts os)
starts-NoneLoaded [] = tt
starts-NoneLoaded (o ∷ os) = starts-NoneLoaded os

-- A counter holds `n`, and tasks start whose decrements are at most `n`, and whose increments have
-- room below 2 ^ 64. Where each task takes its load and its store without a break, in any order:
-- the counter is `n`, more by the increments and less by the decrements that have ended.
pub run-turns :
    (n : ℕ) (os : List Op) (ks : List ℕ)
    → count decr os ≤ n
    → n + count incr os < 2 ^ 64
    → get (run (turns ks) (new n, map starts os)).0
        + count_ended decr (run (turns ks) (new n, map starts os)).1
      ≡ n + count_ended incr (run (turns ks) (new n, map starts os)).1
unfolding get new
run-turns n os ks few room =
    let v =
      turns-Exact n ks (new n, map starts os)
        (record {
          exact = omega (arith, starts-ended decr os, starts-ended incr os);
          none = starts-NoneLoaded os;
          enough = omega (arith, starts-total decr os);
          room = omega (arith, starts-total incr os);
        }) in
    omega (arith, v.exact)

-- A turn is what incr_async and decr_async do to the manager.
module _ ⦃m : Mlua⦄ ⦃h : BinaryHeap WaitingThread at_most⦄ where
  abbrev does : Op → TaskManagerInner → TaskManagerInner
  does incr = incr_async
  does decr = decr_async

  pub run-does :
      (o : Op) (c : TaskManagerInner)
      → run (turns (0 ∷ [])) (new c.pending_asyncs, starts o ∷ [])
        ≡ (new (does o c).pending_asyncs, finished o ∷ [])
  unfolding run step move turns get set new next incr_async decr_async
  run-does incr c = refl
  run-does decr c = refl
