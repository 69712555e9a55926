-- ===== src/Ext/Push.antt =====
-- crates/ext/src/traits.rs: what `push_thread` leaves in the manager.
use mlua_scheduler.Base.{◌≡◌, ◌⊎◌, refl, true, false, [], ◌∷◌, ◌++◌, Result, ok, err, inl, inr}
use mlua_scheduler.Deps.Runtime.{Runtime}
use mlua_scheduler.V2.State.{World, call, deferred_thread}
use mlua_scheduler.TaskLib.Defs.{gives, fails}
use mlua_scheduler.Ext.Traits.{Source, into_lua_thread, push_converted, push_thread}

module _ ⦃rt : Runtime⦄ {Chunk : Type 0}
    (into_function : Chunk → rt.State → Result rt.Function rt.Error × rt.State) where
  open rt use {Thread, Values, Error, Function, contents, contents-send}

  push_converted_cases :
      (r : Result Thread Error) (args : Result Values Error) (w : World)
      → ((e : Error) × (push_converted into_function r args w ≡ (fails e, w)))
        ⊎ ((t : Thread) × (a : Values) × (v : World) × (r ≡ ok t)
            × (args ≡ ok a)
            × (push_converted into_function r args w ≡ (gives t, v))
            × (contents v.events ≡ contents w.events ++ deferred_thread t a ∷ [])
            × (v.done ≡ false)
            × (v.lua ≡ w.lua))
  unfolding push_converted call
  push_converted_cases (err e) args w = inl (e, refl)
  push_converted_cases (ok t) (err e) w = inl (e, refl)
  push_converted_cases (ok t) (ok a) w =
      inr (t, a, _, refl, refl, refl, contents-send (deferred_thread t a) w.events, refl, refl)

  -- Where a task manager is attached, `push_thread` either fails, and the manager and the responses
  -- are as they were, only the machine may have changed; or the source and the arguments could both
  -- be converted, it gives the thread, and the manager has been sent one event behind all others,
  -- which defers that thread with those arguments, and `done` is false.
  push_thread_cases :
      (source : Source Thread Function Chunk) (args : Result Values Error) (w : World)
      → ((e : Error) × (push_thread into_function true source args w
            ≡ (fails e, record w { lua = (into_lua_thread into_function source w.lua).1 })))
        ⊎ ((t : Thread) × (a : Values) × (v : World) × ((into_lua_thread into_function source
                w.lua).0
              ≡ ok t)
            × (args ≡ ok a)
            × (push_thread into_function true source args w ≡ (gives t, v))
            × (contents v.events ≡ contents w.events ++ deferred_thread t a ∷ [])
            × (v.done ≡ false)
            × (v.lua ≡ (into_lua_thread into_function source w.lua).1))
  unfolding push_thread
  push_thread_cases source args w =
      push_converted_cases (into_lua_thread into_function source w.lua).0 args
        (record w { lua = (into_lua_thread into_function source w.lua).1 })
