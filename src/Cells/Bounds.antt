-- ===== src/Cells/Bounds.antt =====
-- What a counter keeps to, whatever the schedule.
use mlua_scheduler.Base.{ℕ, zero, suc, ◌+◌, ◌^◌, ◌≤◌, ◌<◌, ◌≡◌, refl, List, [], ◌∷◌, map, arith}
use mlua_scheduler.Cells.Cell.{Cell, get, set, new}
use mlua_scheduler.Cells.Counter.{
  Op, incr, decr, next, Pc, starts, loaded, finished, move, step, run, same, ended, count_ended,
  count,
}

-- The operation of a task.
abbrev pub op : Pc → Op
op (starts o) = o
op (loaded o v) = o
op (finished o) = o

unfoldable pub total : Op → List Pc → ℕ
total o [] = 0
total o (p ∷ ps) = same o (op p) + total o ps

-- `v` is what `n` can have become with `i` increments and `d` decrements.
abbrev Between : (n i d v : ℕ) → Type 0
Between n i d v = (n ≤ v + d) × (v ≤ n + i)

-- What a task has loaded.
abbrev Holds : (n i d : ℕ) → Pc → Type 0
Holds n i d (loaded o v) = Between n i d v
Holds n i d _ = Unit

abbrev AllHold : (n i d : ℕ) → List Pc → Type 0
AllHold n i d [] = Unit
AllHold n i d (p ∷ ps) = Holds n i d p × AllHold n i d ps

Holds-mono : (n : ℕ) {i i' d d' : ℕ} (p : Pc) → i ≤ i' → d ≤ d' → Holds n i d p → Holds n i' d' p
Holds-mono n (starts o) hi hd h = tt
Holds-mono n (finished o) hi hd h = tt
Holds-mono n (loaded o v) hi hd h = (omega (arith, h.0), omega (arith, h.1))

AllHold-mono :
    (n : ℕ) {i i' d d' : ℕ} (ps : List Pc) → i ≤ i' → d ≤ d' → AllHold n i d ps → AllHold n i' d' ps
AllHold-mono n [] hi hd h = tt
AllHold-mono n (p ∷ ps) hi hd (h, hs) = (Holds-mono n p hi hd h, AllHold-mono n ps hi hd hs)

-- The invariant of a list of tasks, where `i` increments and `d` decrements of other tasks are over.
record Inv (n i d : ℕ) (s : Cell ℕ × List Pc) : Type 0 where
  between : Between n (i + count_ended incr s.1) (d + count_ended decr s.1) (get s.0)
  hold : AllHold n (i + count_ended incr s.1) (d + count_ended decr s.1) s.1
  enough : d + total decr s.1 ≤ n
  room : n + i + total incr s.1 < 2 ^ 64

pub step-total :
    (o : Op) (k : ℕ) (c : Cell ℕ) (ps : List Pc) → total o (step k (c, ps)).1 ≡ total o ps
unfolding total step move
step-total o k c [] = refl
step-total o zero c (starts _ ∷ ps) = refl
step-total o zero c (loaded _ _ ∷ ps) = refl
step-total o zero c (finished _ ∷ ps) = refl
step-total o (suc k) c (p ∷ ps) = omega (arith, step-total o k c ps)

step-ended :
    (o : Op) (k : ℕ) (c : Cell ℕ) (ps : List Pc)
    → count_ended o ps ≤ count_ended o (step k (c, ps)).1
unfolding count_ended step move
step-ended o k c [] = omega arith
step-ended o zero c (starts _ ∷ ps) = omega arith
step-ended o zero c (loaded _ _ ∷ ps) = omega arith
step-ended o zero c (finished _ ∷ ps) = omega arith
step-ended o (suc k) c (p ∷ ps) = omega (arith, step-ended o k c ps)

pub ended-le : (o : Op) (p : Pc) → ended o p ≤ same o (op p)
ended-le o (starts p) = omega arith
ended-le o (loaded p v) = omega arith
ended-le o (finished p) = omega arith

pub count_ended-le : (o : Op) (ps : List Pc) → count_ended o ps ≤ total o ps
unfolding count_ended total
count_ended-le o [] = omega arith
count_ended-le o (p ∷ ps) = omega (arith, ended-le o p, count_ended-le o ps)

-- The first of the tasks takes a step.
move-Inv :
    (n i d : ℕ) (c : Cell ℕ) (p : Pc) (ps : List Pc)
    → Inv n i d (c, p ∷ ps)
    → Inv n i d (step zero (c, p ∷ ps))
unfolding step move total count_ended get set next
move-Inv n i d c (starts o) ps v = record {
  between = v.between;
  hold = (v.between, v.hold.1);
  enough = v.enough;
  room = v.room;
}
move-Inv n i d c (finished o) ps v = v
move-Inv n i d c (loaded incr x) ps v = record {
  between = (
    omega (arith, v.hold.0, v.room, count_ended-le incr ps),
    omega (arith, v.hold.0, v.room, count_ended-le incr ps),
  );
  hold = (tt, AllHold-mono n ps (omega arith) (omega arith) v.hold.1);
  enough = v.enough;
  room = v.room;
}
move-Inv n i d c (loaded decr x) ps v = record {
  between = (
    omega (arith, v.hold.0, v.room, v.enough, count_ended-le decr ps, count_ended-le incr ps),
    omega (arith, v.hold.0, v.room, v.enough, count_ended-le decr ps, count_ended-le incr ps),
  );
  hold = (tt, AllHold-mono n ps (omega arith) (omega arith) v.hold.1);
  enough = v.enough;
  room = v.room;
}

-- The other tasks, where the first counts as another's.
tail-Inv :
    (n i d : ℕ) (c : Cell ℕ) (p : Pc) (ps : List Pc)
    → Inv n i d (c, p ∷ ps)
    → Inv n (i + ended incr p) (d + ended decr p) (c, ps)
unfolding total count_ended get
tail-Inv n i d c p ps v = record {
  between = (omega (arith, v.between), omega (arith, v.between));
  hold = AllHold-mono n ps (omega arith) (omega arith) v.hold.1;
  enough = omega (arith, v.enough, ended-le decr p);
  room = omega (arith, v.room, ended-le incr p);
}

step-Inv :
    (n i d k : ℕ) (c : Cell ℕ) (ps : List Pc) → Inv n i d (c, ps) → Inv n i d (step k (c, ps))
unfolding step total count_ended get
step-Inv n i d k c [] v = v
step-Inv n i d zero c (p ∷ ps) v = move-Inv n i d c p ps v
step-Inv n i d (suc k) c (p ∷ ps) v =
    let u = step-Inv n (i + ended incr p) (d + ended decr p) k c ps (tail-Inv n i d c p ps v) in
    record {
      between = (omega (arith, u.between), omega (arith, u.between));
      hold = (
        Holds-mono n p (omega (arith, step-ended incr k c ps))
            (omega (arith, step-ended decr k c ps)) v.hold.0,
        AllHold-mono n _ (omega arith) (omega arith) u.hold,
      );
      enough = omega (arith, v.enough, step-total decr k c ps);
      room = omega (arith, v.room, step-total incr k c ps);
    }

run-Inv : (n : ℕ) (ks : List ℕ) (s : Cell ℕ × List Pc) → Inv n 0 0 s → Inv n 0 0 (run ks s)
unfolding run
run-Inv n [] s v = v
run-Inv n (k ∷ ks) s v = run-Inv n ks (step k s) (step-Inv n 0 0 k s.0 s.1 v)

pub starts-ended : (o : Op) (os : List Op) → count_ended o (map starts os) ≡ 0
unfolding count_ended
starts-ended o [] = refl
starts-ended o (p ∷ os) = omega (arith, starts-ended o os)

pub starts-total : (o : Op) (os : List Op) → total o (map starts os) ≡ count o os
unfolding total count
starts-total o [] = refl
starts-total o (p ∷ os) = omega (arith, starts-total o os)

starts-AllHold : (n i d : ℕ) (os : List Op) → AllHold n i d (map starts os)
starts-AllHold n i d [] = tt
starts-AllHold n i d (o ∷ os) = (tt, starts-AllHold n i d os)

starts-Inv :
    (n : ℕ) (os : List Op)
    → count decr os ≤ n
    → n + count incr os < 2 ^ 64
    → Inv n 0 0 (new n, map starts os)
unfolding get new
starts-Inv n os few room = record {
  between = (omega arith, omega arith);
  hold = starts-AllHold n _ _ os;
  enough = omega (arith, starts-total decr os);
  room = omega (arith, starts-total incr os);
}

-- A counter holds `n`, and tasks start whose decrements are at most `n`, and whose increments have
-- room below 2 ^ 64. Whatever the schedule of their loads and stores: the counter never wraps
-- around, has gone down by at most the decrements that have ended, and up by at most the increments
-- that have ended.
pub run-bounds :
    (n : ℕ) (os : List Op) (ks : List ℕ)
    → count decr os ≤ n
    → n + count incr os < 2 ^ 64
    → (n
        ≤ get (run ks (new n, map starts os)).0
          + count_ended decr (run ks (new n, map starts os)).1)
      × (get (run ks (new n, map starts os)).0
          ≤ n + count_ended incr (run ks (new n, map starts os)).1)
run-bounds n os ks few room =
    let v = (run-Inv n ks (new n, map starts os) (starts-Inv n os few room)).between in
    (omega (arith, v), omega (arith, v))
