-- ===== src/Tests/Calls.antt =====
-- Feedbacks, the scheduler with an exit code, and the library `task`, on concrete inputs.
use mlua_scheduler.Base.{
  ℕ, ◌≡◌, ◌≤◌, inr, refl, true, false, none, some, List, [], ◌∷◌, ◌++◌, if◌then◌else◌, arith, leb,
  ok, err, Result, String,
}
use mlua_scheduler.Collections.{get}
use mlua_scheduler.Deps.Mlua.{finished, other}
use mlua_scheduler.Deps.Samples.{sample}
use mlua_scheduler.V2.State.{Response}
use mlua_scheduler.Ext.Feedbacks.{feed, new_tracker, track_thread, tracker}
use mlua_scheduler.Ext.Tracking.{track_thread-feed, results_of}
use mlua_scheduler.Ext.Scheduler.{Incoming, received, wait_loop}
use mlua_scheduler.Ext.Spawn.{wait_loop-newest}
use mlua_scheduler.TaskLib.Defs.{Seconds}

abbrev told : List Response
told =
    record { label = "TaskSpawn"; thread = 5; result = ok 1 }
    ∷ record { label = "WaitingThread"; thread = 6; result = err "failed" }
    ∷ record { label = "WaitingThread"; thread = 5; result = ok 2 }
    ∷ []

track_thread-feed_example :
    (c : List (Result ℕ String)) × (get
        (track_thread 5 new_tracker).0
        (feed tracker told (track_thread 5 new_tracker).1).pipes
      ≡ some c)
    × (c ≡ results_of 5 told)
unfolding new_tracker get
track_thread-feed_example = track_thread-feed 5 told new_tracker (λ y k p. cc p)

abbrev came : List Incoming
came = received (ok 1) true other true ∷ received (ok 2) true finished false ∷ []

wait_loop-newest_example :
    wait_loop (came ++ received (ok 3) true finished true ∷ []) none ≡ some (some (ok 3))
wait_loop-newest_example =
    wait_loop-newest came [] (received (ok 3) true finished true) none (some (ok 3))
      ((refl, refl), ((refl, refl), tt)) (inr (refl, refl, refl))

-- Seconds as nanoseconds.
pub max_above :
    (t : ℕ) {d : ℕ} → some (if leb t 50_000_000 then 50_000_000 else t) ≡ some d → 50_000_000 ≤ d
max_above t p = ground (arith, p)

abbrev pub nanoseconds : Seconds ℕ
nanoseconds = record {
  max = λ a b. if leb a b then b else a;
  min_wait = 50_000_000;
  from_secs_f64 = some;
  from_min_wait = refl;
  from_max = max_above;
}

-- Chunks that do not compile.
abbrev no_chunks : ℕ → List ℕ → Result ℕ String × List ℕ
no_chunks c l = (err "syntax error", l)

abbrev three : Result ℕ String
three = ok 3
