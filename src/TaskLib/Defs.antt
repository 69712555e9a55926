-- ===== src/TaskLib/Defs.antt =====
-- crates/scheduler/src/userdata.rs: the functions of the library.
use mlua_scheduler.Base.{ℕ, ◌≤◌, ◌≡◌, Option, none, some, Result, ok, err}
use mlua_scheduler.Deps.Mlua.{add_waiting_thread, add_deferred_thread, cancel_task}
use mlua_scheduler.Deps.Runtime.{Runtime}
use mlua_scheduler.V2.State.{World, call}
use mlua_scheduler.V2.Arms.{resumed}

-- What a library function gives to its Lua caller: values, an error, a Rust panic, or a yield of the
-- calling thread.
pub data Reply (A E : Type 0) : Type 0 where
  gives : A → Reply A E
  fails : E → Reply A E
  panics : Reply A E
  yields : Reply A E

-- f64 seconds, and nanoseconds: `Duration::from_secs_f64` panics (none) on what is no duration.
pub record Seconds (F64 : Type 0) : Type 0 where
  pub max : F64 → F64 → F64
  pub min_wait : F64
  pub from_secs_f64 : F64 → Option ℕ
  -- 0.05 seconds are fifty million nanoseconds
  pub from_min_wait : from_secs_f64 min_wait ≡ some 50_000_000
  pub from_max : (t : F64) {d : ℕ} → from_secs_f64 (max t min_wait) ≡ some d → 50_000_000 ≤ d

module _ ⦃rt : Runtime⦄ where
  open rt use {Thread, Values, Error, Function, F64, resume, create_thread, close}

  -- LuaEither<LuaFunction, LuaThread>
  pub data Task : Type 0 where
    function : Function → Task
    thread : Thread → Task

  unfoldable pub to_thread : Task → World → Result Thread Error × World
  to_thread (thread t) w = (ok t, w)
  to_thread (function f) w = let (r, l) = create_thread f w.lua in (r, record w { lua = l })

  unfoldable pub coroutine_resume : Thread → Values → World → Result Values Error × World
  unfolding resumed
  coroutine_resume t args w =
      let r = resume t args w.lua in (r.result, resumed "CoroutineResume" t r w)

  unfoldable pub defer_thread : Result Thread Error → Values → World → Reply Thread Error × World
  unfolding call
  defer_thread (err e) args w = (fails e, w)
  defer_thread (ok t) args w = (gives t, call (add_deferred_thread t args) w)

  unfoldable pub defer : Task → Values → World → Reply Thread Error × World
  unfolding to_thread defer_thread
  defer task args w = let (r, v) = to_thread task w in defer_thread r args v

  unfoldable pub spawn_thread : Result Thread Error → Values → World → Reply Thread Error × World
  unfolding resumed
  spawn_thread (err e) args w = (fails e, w)
  spawn_thread (ok t) args w = (gives t, resumed "TaskSpawn" t (resume t args w.lua) w)

  unfoldable pub spawn : Task → Values → World → Reply Thread Error × World
  unfolding to_thread spawn_thread
  spawn task args w = let (r, v) = to_thread task w in spawn_thread r args v

  -- The mark comes first; `coroutine.close` may fail.
  unfoldable pub cancel : Thread → World → Reply (Unit {0}) Error × World
  unfolding call
  cancel t w =
      let marked = call (cancel_task t) w in
      let (r, l) = close t w.lua in
      let closed = record marked { lua = l } in
      elim r [ ok u ↦ (gives tt, closed) | err e ↦ (fails e, closed) ]

  -- `synchronize` and `desynchronize`
  unfoldable pub synchronize : Values → World → Reply (Unit {0}) Error × World
  synchronize args w = (gives tt, w)

  module _ (sec : Seconds F64) where
    open sec use {max, min_wait, from_secs_f64}

    unfoldable pub delay_thread :
        Option ℕ → Result Thread Error → Values → (now : ℕ) → World → Reply Thread Error × World
    unfolding call
    delay_thread duration (err e) args now w = (fails e, w)
    delay_thread none (ok t) args now w = (panics, w)
    delay_thread (some d) (ok t) args now w =
        (gives t, call (add_waiting_thread t (some args) d now) w)

    unfoldable pub delay : F64 → Task → Values → (now : ℕ) → World → Reply Thread Error × World
    unfolding to_thread delay_thread
    delay time task args now w =
        let (r, v) = to_thread task w in delay_thread (from_secs_f64 time) r args now v

    abbrev pub wait_duration : Option F64 → Option ℕ
    wait_duration none = from_secs_f64 min_wait
    wait_duration (some t) = from_secs_f64 (max t min_wait)

    -- `task.wait`, called on thread `current`
    unfoldable pub wait :
        Option F64 → (current : Thread) → (now : ℕ) → World → Reply Values Error × World
    unfolding call
    wait time current now w = elim (wait_duration time) [
      | none ↦ (panics, w)
      | some d ↦ (yields, call (add_waiting_thread current none d now) w)
    ]
