-- ===== src/Ext/Traits.antt =====
-- crates/ext/src/traits.rs: what turns into a thread, and the methods that the crate adds to Lua.
--
-- How a chunk is compiled and how arguments become Lua values is mlua's part: parameters.
use mlua_scheduler.Base.{Bool, not, Option, none, some, ℕ, Result, ok, err, if◌then◌else◌}
use mlua_scheduler.Deps.Mlua.{add_deferred_thread}
use mlua_scheduler.Deps.Runtime.{Runtime}
use mlua_scheduler.V2.State.{World, call}
use mlua_scheduler.TaskLib.Defs.{Reply, gives, fails, panics}
use mlua_scheduler.Ext.Scheduler.{Scheduler, exit_with_code}

-- The types that implement IntoLuaThread; a reference is the value that it refers to.
pub data Source (Thread Function Chunk : Type 0) : Type 0 where
  of_thread : Thread → Source Thread Function Chunk
  of_function : Function → Source Thread Function Chunk
  of_chunk : Chunk → Source Thread Function Chunk

module _ ⦃rt : Runtime⦄ {Chunk : Type 0}
    (into_function : Chunk → rt.State → Result rt.Function rt.Error × rt.State) where
  open rt use {Thread, Values, Error, Function, State, create_thread}

  unfoldable pub thread_of : Result Function Error → State → Result Thread Error × State
  thread_of (err e) l = (err e, l)
  thread_of (ok f) l = create_thread f l

  unfoldable pub into_lua_thread :
      Source Thread Function Chunk → State → Result Thread Error × State
  unfolding thread_of
  into_lua_thread (of_thread t) l = (ok t, l)
  into_lua_thread (of_function f) l = create_thread f l
  into_lua_thread (of_chunk c) l = let (r, k) = into_function c l in thread_of r k

  unfoldable pub push_converted :
      Result Thread Error → Result Values Error → World → Reply Thread Error × World
  unfolding call
  push_converted (err e) args w = (fails e, w)
  push_converted (ok t) (err e) w = (fails e, w)
  push_converted (ok t) (ok args) w = (gives t, call (add_deferred_thread t args) w)

  -- LuaSchedulerExt::push_thread; `args` is what `into_lua_multi` gives.
  unfoldable pub push_thread :
      (manager_attached : Bool)
      → Source Thread Function Chunk
      → Result Values Error
      → World
      → Reply Thread Error × World
  unfolding into_lua_thread push_converted
  push_thread manager_attached source args w =
      let (r, l) = into_lua_thread source w.lua in
      if not manager_attached then (panics, w) else push_converted r args (record w { lua = l })

module _ ⦃rt : Runtime⦄ where
  -- LuaSchedulerExt::set_exit_code; none where it panics, since no scheduler is attached.
  unfoldable pub set_exit_code : ℕ → Scheduler → Option Scheduler
  unfolding exit_with_code
  set_exit_code code s = if s.attached then some (exit_with_code code s) else none
