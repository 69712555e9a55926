-- ===== src/V2/Clear.antt =====
-- taskmgr_v2.rs: what the `Clear` event does to `run`, whose own sender keeps the channel of deferred
-- threads open.
use mlua_scheduler.Base.{◌≡◌, refl, sym, subst, true, List, [], ◌∷◌, length}
use mlua_scheduler.Deps.Lemmas.{recv-of_cons}
use mlua_scheduler.Deps.Runtime.{Runtime}
use mlua_scheduler.V2.State.{Loop, DeferredThread}
use mlua_scheduler.V2.Arms.{Flow, hangs, handle_clear, cleared, drain, waiting}

module _ ⦃rt : Runtime⦄ where
  open rt use {Chan, contents}

  -- The loop takes out everything that is in the channel, and then waits for the sender.
  drain-waiting :
      (l : List DeferredThread) (c : Chan DeferredThread)
      → contents c ≡ l
      → (d : Chan DeferredThread) × (drain (length l) true c ≡ waiting d) × (contents d ≡ [])
  unfolding drain
  drain-waiting [] c e = (c, refl, e)
  drain-waiting (x ∷ xs) c e =
      let (q, p, r) = recv-of_cons c e in
      let (d, n, none_left) = drain-waiting xs q r in (d, rw (p, drain) n, none_left)

  pub handle_clear-hangs :
      (s : Loop)
      → (c : Chan DeferredThread) × (handle_clear s ≡ hangs (cleared s c)) × (contents c ≡ [])
  unfolding handle_clear
  handle_clear-hangs s =
      let (c, p, none_left) = drain-waiting (contents s.deferred_queue) s.deferred_queue refl in
      (c, rw (p, handle_clear) refl, none_left)

  -- What holds of a run that hangs holds of what `Clear` comes to.
  pub handle_clear-always :
      (P : Flow Loop → Type 0) (s : Loop) → ((t : Loop) → P (hangs t)) → P (handle_clear s)
  handle_clear-always P s h =
      let (c, p, none_left) = handle_clear-hangs s in subst P (sym p) (h (cleared s c))
