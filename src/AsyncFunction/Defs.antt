-- ===== src/AsyncFunction/Defs.antt =====
-- crates/scheduler/src/async.rs: create_async_lua_function, in both of its variants.
--
-- What the user's function does is a parameter: how its arguments are read, what its future gives,
-- and how that is turned into Lua values, each with whether Lua is alive at that point.
use mlua_scheduler.Base.{Bool, not, ◌||◌, Result, ok, err, if◌then◌else◌}
use mlua_scheduler.Deps.Mlua.{Mlua, add_async}
use mlua_scheduler.Deps.BinaryHeap.{BinaryHeap}
use mlua_scheduler.Deps.Runtime.{Runtime}
use mlua_scheduler.V1.State.{
  WaitingThread, at_most, World, call, check_lua, decr_async, is_empty, ran, respond,
}
use mlua_scheduler.V2.State as V2State
use mlua_scheduler.TaskLib.Defs.{Reply, yields}

module _ ⦃m : Mlua⦄ where
  open m use {Values, Error, runtime_error}

  abbrev pub no_lua : Error
  no_lua = runtime_error "Lua instance is no longer valid"

  -- The user's function, whose arguments are of type A and whose results are of type R.
  pub record Func (A R : Type 0) : Type 0 where
    pub from_lua_multi : Values → Result A Error
    pub func : A → Result R Error
    pub into_lua_multi : R → Result Values Error

  unfoldable pub after_func :
      {A R : Type 0} → Func A R → Bool → Result R Error → Result Values Error
  after_func f alive_after (err e) = err e
  after_func f alive_after (ok res) = if not alive_after then err no_lua else f.into_lua_multi res

  unfoldable pub call_func : {A R : Type 0} → Func A R → Bool → Result A Error → Result Values Error
  unfolding after_func
  call_func f alive_after (err e) = err e
  call_func f alive_after (ok args) = after_func f alive_after (f.func args)

  -- `exec_fut`
  unfoldable pub exec_fut :
      {A R : Type 0} → Func A R → (alive alive_after : Bool) → Values → Result Values Error
  unfolding call_func
  exec_fut f alive alive_after args =
      if not alive then err no_lua else call_func f alive_after (f.from_lua_multi args)

module _ ⦃m : Mlua⦄ ⦃h : BinaryHeap WaitingThread at_most⦄ where
  open m use {Thread, Values, Error, Fut, resume, resume_error, error_text}

  abbrev pub ended : World → World
  ended w = record w { inner = decr_async w.inner }

  -- `fut`, when `exec_fut` has given its result
  unfoldable pub fut_ends : Thread → Result Values Error → World → World
  unfolding check_lua decr_async ran respond
  fut_ends t (ok v) w =
      let r = resume t v w.lua in
      if not (check_lua w) then w else respond "AsyncThread" t r.result (ran r (ended w))
  fut_ends t (err e) w =
      let r = resume_error t (error_text e) w.lua in
      if not (check_lua w) then w else respond "AsyncThread.Resume" t r.result (ran r (ended w))

  -- The function is called on thread `t`.
  unfoldable pub async_called_v1 : Thread → Fut → World → Reply Values Error × World
  unfolding call
  async_called_v1 t fut w = (yields, call (add_async t fut) w)

  -- TaskManager::wait_till_done (taskmgr.rs): whether its loop ends at this check.
  unfoldable pub done_now_v1 : World → Bool
  unfolding is_empty
  done_now_v1 w = w.is_cancelled || is_empty w.inner

module _ ⦃rt : Runtime⦄ where
  open rt use {Thread, Values, Error, Fut}

  unfoldable pub async_called : Thread → Fut → V2State.World → Reply Values Error × V2State.World
  unfolding V2State.call
  async_called t fut w = (yields, V2State.call (add_async t fut) w)
