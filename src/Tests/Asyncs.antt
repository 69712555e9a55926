-- ===== src/Tests/Asyncs.antt =====
-- async.rs over the first manager, on concrete inputs: a machine that lives, and one that is dead.
use mlua_scheduler.Base.{ℕ, ◌≡◌, refl, Bool, true, false, List, [], ◌∷◌, ok, err, arith}
use mlua_scheduler.Deps.Mlua.{Mlua}
use mlua_scheduler.Deps.Samples.{sample_mlua}
use mlua_scheduler.Deps.SampleHeap.{sample_heap}
use mlua_scheduler.V1.State.{World, new, check_lua}
use mlua_scheduler.AsyncFunction.Defs.{async_called_v1, done_now_v1}
use mlua_scheduler.AsyncFunction.Count.{all_end, fut_ends-dead}

abbrev is_nil : List ℕ → Bool
is_nil [] = true
is_nil (x ∷ xs) = false

-- A machine that is dead from the first mark in its state on.
abbrev mortal : Mlua
mortal = record sample_mlua { is_alive = is_nil }

abbrev mortal_idle : World ⦃m = mortal⦄ ⦃h = sample_heap ⦃m = mortal⦄⦄
unfolding new
mortal_idle = record {
  lua = [];
  inner = new ⦃m = mortal⦄ ⦃h = sample_heap ⦃m = mortal⦄⦄;
  responses = [];
}

-- The machine has died after the call, and the future of the function and one more end.
abbrev left : World ⦃m = mortal⦄ ⦃h = sample_heap ⦃m = mortal⦄⦄
left =
    all_end ⦃m = mortal⦄ ⦃h = sample_heap ⦃m = mortal⦄⦄ ((5, ok 3) ∷ (6, err "failed") ∷ [])
      (record (async_called_v1 ⦃m = mortal⦄ ⦃h = sample_heap ⦃m = mortal⦄⦄ 5 8 mortal_idle).1 {
        lua = 1 ∷ [];
      })

fut_ends-dead_example :
    (left.pending_asyncs ≡ 1)
    × (done_now_v1 ⦃m = mortal⦄ ⦃h = sample_heap ⦃m = mortal⦄⦄ left ≡ false)
unfolding mortal_idle new check_lua
fut_ends-dead_example =
    fut_ends-dead ⦃m = mortal⦄ ⦃h = sample_heap ⦃m = mortal⦄⦄ 5 8 (1 ∷ [])
      ((5, ok 3) ∷ (6, err "failed") ∷ []) mortal_idle (omega arith) refl refl refl
