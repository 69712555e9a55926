-- ===== src/V2/Resumes.antt =====
-- taskmgr_v2.rs: what a resumption of a thread leaves, with its report to the feedback.
use mlua_scheduler.Base.{◌≡◌, refl, sym, ◌∙◌, subst, List, [], ◌∷◌, ◌++◌, String}
use mlua_scheduler.Deps.Mlua.{
  Call, Ran, add_waiting_thread, add_deferred_thread, add_async, cancel_task, stop, unstop, clear,
  on_response,
}
use mlua_scheduler.Deps.Runtime.{Runtime}
use mlua_scheduler.V2.State.{World, call, calls, respond}
use mlua_scheduler.V2.Arms.{resumed}

module _ ⦃rt : Runtime⦄ where
  open rt use {Thread, Values, Error, Fut, State}

  -- What the code of a resumed thread has called.
  abbrev pub after_calls : Ran Thread Values Error Fut State → World → World
  after_calls r w = calls r.calls (record w { lua = r.lua })

  -- Thread `t` was resumed once in the world `w`, which gave `v`: the machine is the one that the
  -- resumption leaves, the manager is as the thread's calls leave it, and after the reports that the
  -- thread itself made comes one with the result.
  abbrev pub Resumes : String → Thread → Ran Thread Values Error Fut State → (w v : World) → Type 0
  Resumes label t r w v =
      (v.lua ≡ r.lua)
      × (v.core ≡ (after_calls r w).core)
      × (v.responses
          ≡ (after_calls r w).responses
            ++ record { label = label; thread = t; result = r.result } ∷ [])

  call-lua : (c : Call Thread Values Error Fut) (w : World) → (call c w).lua ≡ w.lua
  unfolding call respond
  call-lua (on_response label t r) w = refl
  call-lua (add_waiting_thread t args d now) w = refl
  call-lua (add_deferred_thread t args) w = refl
  call-lua (add_async t fut) w = refl
  call-lua (cancel_task t) w = refl
  call-lua stop w = refl
  call-lua unstop w = refl
  call-lua clear w = refl

  calls-lua : (cs : List (Call Thread Values Error Fut)) (w : World) → (calls cs w).lua ≡ w.lua
  unfolding calls
  calls-lua [] w = refl
  calls-lua (c ∷ cs) w = calls-lua cs (call c w) ∙ call-lua c w

  resumed-Resumes :
      (label : String) (t : Thread) (r : Ran Thread Values Error Fut State) (w : World)
      → Resumes label t r w (resumed label t r w)
  unfolding resumed respond
  resumed-Resumes label t r w = (calls-lua r.calls (record w { lua = r.lua }), refl, refl)

  pub resumed-of :
      (label : String) (t : Thread) (r : Ran Thread Values Error Fut State) (w : World) {v : World}
      → v ≡ resumed label t r w
      → Resumes label t r w v
  resumed-of label t r w same =
      subst (λ v. Resumes label t r w v) (sym same) (resumed-Resumes label t r w)
