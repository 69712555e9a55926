-- ===== src/V2/Outcomes.antt =====
-- taskmgr_v2.rs: what the end of a future does.
use Prim.Native.String.{◌++◌ as str_append}
use mlua_scheduler.Base.{
  String, ℕ, ◌≡◌, ◌≢◌, ◌⊎◌, refl, sym, ap, ◌∙◌, true, some, Result, ok, err, inl, inr, Removed,
  Result-cases,
}
use mlua_scheduler.Deps.Mlua.{ThreadStatus, Ran, finished, error, other}
use mlua_scheduler.Deps.Futures.{text, opaque, Outcome, completed, panicked}
use mlua_scheduler.Deps.Runtime.{Runtime}
use mlua_scheduler.V2.State.{World, Loop, check_lua}
use mlua_scheduler.V2.Resumes.{Resumes, resumed-of}
use mlua_scheduler.V2.Arms.{falls, resumed}
use mlua_scheduler.V2.Run.{
  on_async, select, handle_async, handle_outcome, resume_completed, error_payload,
}

module _ ⦃rt : Runtime⦄ where
  open rt use {Thread, Values, Error, Fut, State, Pool, pending, poll_next, poll_next-Removed}
  open rt use {resume, resume_error, error_text, status}

  -- The world after thread `t` has been resumed by a future.
  abbrev answered : Thread → Ran Thread Values Error Fut State → World → World
  answered t r w = resumed "DeferredThread" t r w

  status_cases : (u : ThreadStatus) → (u ≡ finished) ⊎ (u ≡ error) ⊎ (u ≡ other)
  status_cases finished = inl refl
  status_cases error = inr (inl refl)
  status_cases other = inr (inr refl)

  abbrev EndsBy : Thread → Outcome Values Error → World → Type 0
  EndsBy t o w =
      ((told : String) × ((o ≡ panicked (text told)) ⊎ (o ≡ panicked (opaque told)))
        × (handle_outcome t o w
            ≡ answered t (resume_error t (str_append "Error in async thread: " told) w.lua) w))
      ⊎ ((r : Result Values Error) × (o ≡ completed r)
          × (status w.lua t ≢ other)
          × (handle_outcome t o w ≡ w))
      ⊎ ((v : Values) × (o ≡ completed (ok v))
          × (status w.lua t ≡ other)
          × (handle_outcome t o w ≡ answered t (resume t v w.lua) w))
      ⊎ ((e : Error) × (o ≡ completed (err e))
          × (status w.lua t ≡ other)
          × (handle_outcome t o w ≡ answered t (resume_error t (error_text e) w.lua) w))

  handle_outcome-EndsBy : (t : Thread) (o : Outcome Values Error) (w : World) → EndsBy t o w
  unfolding handle_outcome resume_completed error_payload
  handle_outcome-EndsBy t (panicked (text told)) w = inl (told, inl refl, refl)
  handle_outcome-EndsBy t (panicked (opaque told)) w = inl (told, inr refl, refl)
  handle_outcome-EndsBy t (completed r) w = elim (status_cases (status w.lua t)) [
    | inl u ↦ inr (inl (r, refl, λ q. cc (sym u ∙ q), rw (u, handle_outcome) refl))
    | inr (inl u) ↦ inr (inl (r, refl, λ q. cc (sym u ∙ q), rw (u, handle_outcome) refl))
    | inr (inr u) ↦ inr (
        inr (elim (Result-cases r) [
          | inl (v, q) ↦ inl (v, ap completed q, u, rw (u, q, handle_outcome) refl)
          | inr (e, q) ↦ inr (e, ap completed q, u, rw (u, q, handle_outcome) refl)
        ]))
  ]

  -- The state after the future of thread `t` has ended, with the world `w` and the futures that are
  -- left.
  abbrev pub pooled : Loop → World → Pool → Loop
  pooled s w p = record s { world = w; locals = record s.locals { async_queue = p } }

  -- While Lua is alive, a future that has ended leaves the set of futures, the others stay, and the
  -- manager goes on. If it panicked, its thread is resumed, whatever its status, with the error
  -- "Error in async thread: " and the panic's text, or its debug form if it is no text. If not, and
  -- its thread is over, nothing more is done. Else the thread is resumed once: with the values, or
  -- with the text of the error.
  pub select_async_cases :
      (now : ℕ) (s : Loop) {t : Thread} {f : Fut} {o : Outcome Values Error} {rest : Pool}
      → poll_next now s.async_queue ≡ some ((t, f), o, rest)
      → check_lua s.world ≡ true
      → (w : World) × (select (on_async now) s ≡ some (falls (pooled s w rest)))
        × Removed (t, f) (pending s.async_queue) (pending rest)
        × (((told : String) × ((o ≡ panicked (text told)) ⊎ (o ≡ panicked (opaque told)))
              × Resumes "DeferredThread" t
                  (resume_error t (str_append "Error in async thread: " told) s.lua)
                  s.world
                  w)
            ⊎ ((r : Result Values Error) × (o ≡ completed r)
                × (status s.lua t ≢ other)
                × (w ≡ s.world))
            ⊎ ((v : Values) × (o ≡ completed (ok v))
                × (status s.lua t ≡ other)
                × Resumes "DeferredThread" t (resume t v s.lua) s.world w)
            ⊎ ((e : Error) × (o ≡ completed (err e))
                × (status s.lua t ≡ other)
                × Resumes "DeferredThread" t (resume_error t (error_text e) s.lua) s.world w))
  unfolding select handle_async
  select_async_cases now s {t} {f} {o} {rest} p alive = (
    handle_outcome t o s.world,
    rw (p, select, alive) refl,
    poll_next-Removed now s.async_queue p,
    elim (handle_outcome-EndsBy t o s.world) [
      | inl (told, e, p) ↦ inl (
        told,
        e,
        resumed-of "DeferredThread" t
            (resume_error t (str_append "Error in async thread: " told) s.lua) s.world p,
      )
      | inr (inl over) ↦ inr (inl over)
      | inr (inr (inl (v, e, runs, p))) ↦
          inr (inr (inl (v, e, runs, resumed-of "DeferredThread" t (resume t v s.lua) s.world p)))
      | inr (inr (inr (x, e, runs, p))) ↦ inr (
          inr (
            inr (
              x,
              e,
              runs,
              resumed-of "DeferredThread" t (resume_error t (error_text x) s.lua) s.world p,
            )))
    ],
  )
