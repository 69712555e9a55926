-- ===== src/Cells/Lost.antt =====
-- What becomes of the updates of tasks that all load before any stores (taskmgr_v1.rs in `send`
-- mode).
use mlua_scheduler.Base.{
  ℕ, zero, suc, ◌+◌, ◌^◌, ◌<◌, ◌≡◌, refl, ap, ◌∙◌, false, List, [], ◌∷◌, ◌++◌, map, arith, length,
}
use mlua_scheduler.Deps.Mlua.{Mlua}
use mlua_scheduler.Deps.BinaryHeap.{BinaryHeap}
use mlua_scheduler.V1.State.{
  WaitingThread, at_most, World, is_empty, total_len, waiting_len, deferred_len,
}
use mlua_scheduler.AsyncFunction.Defs.{done_now_v1}
use mlua_scheduler.Cells.Cell.{Cell, get, set, new}
use mlua_scheduler.Cells.Counter.{Op, decr, next, Pc, starts, loaded, finished, move, step, run}

get-new {ℓ} : {A : Type ℓ} (v : A) → get (new v) ≡ v
unfolding get new
get-new v = refl

-- Every task of a list takes a step, the first one first.
unfoldable pub each : List Op → List ℕ
each [] = []
each (o ∷ os) = 0 ∷ map suc (each os)

-- All load, then all store.
unfoldable pub at_once : List Op → List ℕ
unfolding each
at_once os = each os ++ each os

run-append : (js ks : List ℕ) (s : Cell ℕ × List Pc) → run (js ++ ks) s ≡ run ks (run js s)
unfolding run
run-append [] ks s = refl
run-append (j ∷ js) ks s = run-append js ks (step j s)

-- The steps of the others leave the first task alone.
run-suc :
    (ks : List ℕ) (c : Cell ℕ) (p : Pc) (ps : List Pc)
    → run (map suc ks) (c, p ∷ ps) ≡ ((run ks (c, ps)).0, p ∷ (run ks (c, ps)).1)
unfolding run step
run-suc [] c p ps = refl
run-suc (k ∷ ks) c p ps = run-suc ks (step k (c, ps)).0 p (step k (c, ps)).1

run-loads :
    (os : List Op) (c : Cell ℕ)
    → run (each os) (c, map starts os) ≡ (c, map (λ o. loaded o (get c)) os)
unfolding run step move each get
run-loads [] c = refl
run-loads (o ∷ os) c =
    run-suc (each os) c (loaded o (get c)) (map starts os)
    ∙ ap (λ s. (s.0, loaded o (get c) ∷ s.1)) (run-loads os c)

run-stores :
    (os : List Op) (o : Op) (v : ℕ) (c : Cell ℕ)
    → run (each (os ++ o ∷ [])) (c, map (λ o. loaded o v) (os ++ o ∷ []))
      ≡ (new (next o v), map finished (os ++ o ∷ []))
unfolding run step move each set new
run-stores [] o v c = refl
run-stores (p ∷ os) o v c =
    run-suc (each (os ++ o ∷ [])) (set (next p v) c) (finished p)
      (map (λ o. loaded o v) (os ++ o ∷ []))
    ∙ ap (λ s. (s.0, finished p ∷ s.1)) (run-stores os o v (set (next p v) c))

-- Where all tasks load before the first stores, only the last store counts: the updates of the
-- others are lost, though they have ended.
pub run-at_once :
    (os : List Op) (o : Op) (n : ℕ)
    → run (at_once (os ++ o ∷ [])) (new n, map starts (os ++ o ∷ []))
      ≡ (new (next o n), map finished (os ++ o ∷ []))
unfolding at_once get new
run-at_once os o n =
    run-append (each (os ++ o ∷ [])) (each (os ++ o ∷ [])) (new n, map starts (os ++ o ∷ []))
    ∙ ap (run (each (os ++ o ∷ []))) (run-loads (os ++ o ∷ []) (new n))
    ∙ run-stores os o n (new n)

unfoldable pub ends : ℕ → List Op
ends zero = []
ends (suc k) = decr ∷ ends k

ends-snoc : (k : ℕ) → ends (suc k) ≡ ends k ++ decr ∷ []
unfolding ends
ends-snoc zero = refl
ends-snoc (suc k) = ap (◌∷◌ decr) (ends-snoc k)

module _ ⦃m : Mlua⦄ ⦃h : BinaryHeap WaitingThread at_most⦄ where
  open h use {items}

  -- The manager after its pending async functions, `k` in number, have ended at once.
  unfoldable pub ended_at_once : ℕ → World → World
  unfolding run at_once ends new get
  ended_at_once k w = record w {
    inner = record w.inner {
      pending_asyncs = get (run (at_once (ends k)) (new w.pending_asyncs, map starts (ends k))).0;
    };
  }

  ended_at_once-next :
      (k : ℕ) (w : World) → (ended_at_once (suc k) w).pending_asyncs ≡ next decr w.pending_asyncs
  unfolding ended_at_once
  ended_at_once-next k w =
      ap (λ os. get (run (at_once os) (new w.pending_asyncs, map starts os)).0) (ends-snoc k)
      ∙ ap (λ s. get s.0) (run-at_once (ends k) decr w.pending_asyncs)
      ∙ get-new (next decr w.pending_asyncs)

  -- All the async functions that are pending, two at least, end at once, and each loads the counter
  -- before the first stores: then `wait_till_done` goes on waiting, unless someone stops the
  -- manager, although no async function is left.
  pub ended_at_once-waits :
      (k : ℕ) (w : World)
      → w.pending_asyncs ≡ suc (suc k)
      → length (items w.waiting_queue) + length w.deferred_queue + w.pending_asyncs < 2 ^ 64
      → w.is_cancelled ≡ false
      → done_now_v1 (ended_at_once (suc (suc k)) w) ≡ false
  unfolding done_now_v1 is_empty total_len waiting_len deferred_len ended_at_once next
  ended_at_once-waits k w e small on =
      rw on (ground (arith, h.len-items w.waiting_queue, ended_at_once-next (suc k) w))
