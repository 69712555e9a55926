-- ===== src/AsyncFunction/Agree.antt =====
-- crates/scheduler/src/async.rs: the two variants of an async function against each other, and
-- methods against functions.
use mlua_scheduler.Base.{
  ◌≡◌, refl, sym, Bool, true, false, [], ◌∷◌, ◌++◌, ◌⊎◌, inl, inr, Result-cases, Result, ok, err,
  if◌then◌else◌,
}
use mlua_scheduler.Deps.Mlua.{add_async}
use mlua_scheduler.Deps.BinaryHeap.{BinaryHeap}
use mlua_scheduler.V1.State as V1State
use mlua_scheduler.Deps.Runtime.{Runtime}
use mlua_scheduler.V2.State.{World, call, add_async_event}
use mlua_scheduler.TaskLib.Defs.{fails, yields}
use mlua_scheduler.AsyncFunction.Defs.{Func, no_lua, call_func, exec_fut, async_called, after_func}
use mlua_scheduler.AsyncFunction.Calls.{
  machine, func_fut, func_ended, func_entered, func_called, Method, after_method, method_fut,
  method_entered, method_called, method_mut_called,
}

module _ ⦃rt : Runtime⦄ where
  open rt use {Thread, Values, Error, Fut, contents, contents-send}

  exec_fut-err :
      {A R : Type 0} (f : Func A R) (alive alive_after : Bool) (args : Values) {e : Error}
      → f.from_lua_multi args ≡ err e
      → exec_fut f alive alive_after args ≡ (if alive then err e else err no_lua)
  unfolding exec_fut call_func
  exec_fut-err f true alive_after args p = rw (p, call_func) refl
  exec_fut-err f false alive_after args p = refl

  func_ended-after_func :
      {A R : Type 0} (f : Func A R) (alive_after : Bool) (r : Result R Error)
      → after_func f alive_after r ≡ func_ended f alive_after r
  unfolding after_func func_ended
  func_ended-after_func f alive_after (ok v) = refl
  func_ended-after_func f alive_after (err e) = refl

  exec_fut-ok :
      {A R : Type 0} (f : Func A R) (alive alive_after : Bool) (args : Values) {a : A}
      → f.from_lua_multi args ≡ ok a
      → exec_fut f alive alive_after args ≡ func_fut f alive alive_after a
  unfolding exec_fut call_func func_fut
  exec_fut-ok f true alive_after args {a} p =
      rw (p, call_func) (func_ended-after_func f alive_after (f.func a))
  exec_fut-ok f false alive_after args p = refl

  -- An async function is called where a task manager is attached. Either its arguments cannot be
  -- converted: the call fails with that error and leaves the world as it was, while the future of the
  -- first manager would fail with it, if Lua is alive then. Or they can: the call yields, the manager
  -- has been sent one event behind all others, with the calling thread and the boxed future, `done`
  -- is false, and the future gives what that of the first manager gives.
  pub func_called_cases :
      {A R : Type 0} (f : Func A R) (box : A → Fut) (t : Thread) (args : Values) (w : World)
      (alive alive_after : Bool)
      → ((e : Error) × (f.from_lua_multi args ≡ err e)
          × (func_called f box true t args w ≡ (fails e, w))
          × (exec_fut f alive alive_after args ≡ (if alive then err e else err no_lua)))
        ⊎ ((a : A) × (v : World) × (f.from_lua_multi args ≡ ok a)
            × (func_called f box true t args w ≡ (yields, v))
            × (contents v.events ≡ contents w.events ++ add_async_event t (box a) ∷ [])
            × (v.done ≡ false)
            × (v.lua ≡ w.lua)
            × (func_fut f alive alive_after a ≡ exec_fut f alive alive_after args))
  unfolding func_called func_entered async_called call
  func_called_cases f box t args w alive alive_after = elim (Result-cases (f.from_lua_multi args)) [
    | inl (a, p) ↦ inr (
      a,
      call (add_async t (box a)) w,
      p,
      rw (p, func_called) refl,
      contents-send _ w.events,
      refl,
      refl,
      sym (exec_fut-ok f alive alive_after args p),
    )
    | inr (e, p) ↦ inl (e, p, rw (p, func_called) refl, exec_fut-err f alive alive_after args p)
  ]

  -- A method as a function of the object and the arguments.
  abbrev pub as_func : {This A R : Type 0} → Method This A R → Func (This × A) R
  as_func m = record {
    from_lua_multi = m.from_lua_multi;
    func = λ (this, args). m.method this args;
    into_lua_multi = m.into_lua_multi;
  }

  after_method-func :
      {This A R : Type 0} (m : Method This A R) (alive_after : Bool) (r : Result R Error)
      → after_method m alive_after r ≡ func_ended (as_func m) alive_after r
  unfolding after_method func_ended
  after_method-func m alive_after (ok v) = refl
  after_method-func m alive_after (err e) = refl

  method_entered-func :
      {This A : Type 0} (box : This → A → Fut) (attached : Bool) (t : Thread)
      (r : Result (This × A) Error) (w : World)
      → method_entered box attached t r w
        ≡ func_entered (λ (this, args). box this args) attached t r w
  unfolding method_entered func_entered
  method_entered-func box attached t (ok v) w = refl
  method_entered-func box attached t (err e) w = refl

  -- An async method, with a shared or an exclusive borrow of the object, does what the async function
  -- does that takes the object and the arguments: its call leaves the same reply and the same world,
  -- errors and a missing task manager included, and its future gives the same, whether or not Lua is
  -- alive before and after.
  method_called-func :
      {This A R : Type 0} (m : Method This A R) (box : This → A → Fut) (attached : Bool)
      (t : Thread) (args : Values) (w : World) (alive alive_after : Bool) (this : This) (a : A)
      → (method_called m box attached t args w
          ≡ func_called (as_func m) (λ (o, b). box o b) attached t args w)
        × (method_mut_called m box attached t args w
            ≡ func_called (as_func m) (λ (o, b). box o b) attached t args w)
        × (method_fut m alive alive_after this a ≡ func_fut (as_func m) alive alive_after (this, a))
  unfolding method_called method_mut_called func_called method_fut func_fut
  method_called-func m box attached t args w alive alive_after this a = (
    method_entered-func box attached t (m.from_lua_multi args) w,
    method_entered-func box attached t (m.from_lua_multi args) w,
    rw (after_method-func m alive_after (m.method this a)) refl,
  )
