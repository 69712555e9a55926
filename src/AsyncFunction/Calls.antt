-- ===== src/AsyncFunction/Calls.antt =====
-- crates/scheduler/src/async.rs over the second manager: what a call of an async function does, and
-- what its future gives; the same for the async methods of userdata.
--
-- The arguments are converted by mlua before the closure runs. The future is boxed by `box`, which
-- stands for `Box::pin` of the block whose result `func_fut` or `method_fut` gives.
use mlua_scheduler.Base.{Bool, not, Result, ok, err, if◌then◌else◌}
use mlua_scheduler.Deps.Mlua.{Mlua}
use mlua_scheduler.Deps.Runtime.{Runtime}
use mlua_scheduler.V2.State.{World}
use mlua_scheduler.TaskLib.Defs.{Reply, fails, panics}
use mlua_scheduler.AsyncFunction.Defs.{Func, no_lua, async_called}

module _ ⦃rt : Runtime⦄ where
  instance abbrev pub machine : Mlua
  machine = rt.mlua

  open rt use {Thread, Values, Error, Fut}

  -- The match of `fut` on what the user's future gave.
  unfoldable pub func_ended :
      {A R : Type 0} → Func A R → (alive_after : Bool) → Result R Error → Result Values Error
  func_ended f alive_after (ok res) = if not alive_after then err no_lua else f.into_lua_multi res
  func_ended f alive_after (err e) = err e

  -- `fut` of create_async_lua_function
  unfoldable pub func_fut :
      {A R : Type 0} → Func A R → (alive alive_after : Bool) → A → Result Values Error
  unfolding func_ended
  func_fut f alive alive_after args =
      if not alive then err no_lua else func_ended f alive_after (f.func args)

  -- The call: mlua converts the arguments, and then the closure runs on thread `t`.
  unfoldable pub func_entered :
      {A : Type 0} (box : A → Fut) (attached : Bool)
      → Thread
      → Result A Error
      → World
      → Reply Values Error × World
  unfolding async_called
  func_entered box attached t (err e) w = (fails e, w)
  func_entered box attached t (ok args) w =
      let called = async_called t (box args) w in if attached then called else (panics, w)

  unfoldable pub func_called :
      {A R : Type 0}
      → Func A R
      → (box : A → Fut) (attached : Bool) → Thread
      → Values
      → World
      → Reply Values Error × World
  unfolding func_entered
  func_called f box attached t args w = func_entered box attached t (f.from_lua_multi args) w

  -- The user's method: `This` is a borrow of the object, shared or exclusive, which mlua gives, or an
  -- error if the object is borrowed already.
  pub record Method (This A R : Type 0) : Type 0 where
    pub from_lua_multi : Values → Result (This × A) Error
    pub method : This → A → Result R Error
    pub into_lua_multi : R → Result Values Error

  unfoldable pub after_method :
      {This A R : Type 0} → Method This A R → Bool → Result R Error → Result Values Error
  after_method m alive_after (err e) = err e
  after_method m alive_after (ok res) = if not alive_after then err no_lua else m.into_lua_multi res

  -- `fut` of add_scheduler_async_method; that of add_scheduler_async_method_mut has the same text
  unfoldable pub method_fut :
      {This A R : Type 0}
      → Method This A R
      → (alive alive_after : Bool) → This
      → A
      → Result Values Error
  unfolding after_method
  method_fut m alive alive_after this args =
      if not alive then err no_lua else after_method m alive_after (m.method this args)

  unfoldable pub method_entered :
      {This A : Type 0} (box : This → A → Fut) (attached : Bool)
      → Thread
      → Result (This × A) Error
      → World
      → Reply Values Error × World
  unfolding async_called
  method_entered box attached t (err e) w = (fails e, w)
  method_entered box attached t (ok (this, args)) w =
      let called = async_called t (box this args) w in if attached then called else (panics, w)

  -- add_scheduler_async_method
  unfoldable pub method_called :
      {This A R : Type 0}
      → Method This A R
      → (box : This → A → Fut) (attached : Bool) → Thread
      → Values
      → World
      → Reply Values Error × World
  unfolding method_entered
  method_called m box attached t args w = method_entered box attached t (m.from_lua_multi args) w

  -- add_scheduler_async_method_mut, where `This` is an exclusive borrow
  unfoldable pub method_mut_called :
      {This A R : Type 0}
      → Method This A R
      → (box : This → A → Fut) (attached : Bool) → Thread
      → Values
      → World
      → Reply Values Error × World
  unfolding method_entered
  method_mut_called m box attached t args w =
      method_entered box attached t (m.from_lua_multi args) w
