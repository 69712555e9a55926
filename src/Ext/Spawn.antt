-- ===== src/Ext/Spawn.antt =====
-- crates/ext/src/lib.rs: which result spawn_thread_and_wait gives.
use mlua_scheduler.Base.{
  ◌≡◌, ◌⊎◌, ◌↔◌, refl, true, false, ◌&&◌, Option, none, some, List, [], ◌∷◌, ◌++◌, arith, Result,
  All, Bool-cases, inl, inr,
}
use mlua_scheduler.Deps.Runtime.{Runtime}
use mlua_scheduler.Ext.Scheduler.{Incoming, closed, received, is_over, wait_loop}

module _ ⦃rt : Runtime⦄ where
  open rt use {Thread, Values, Error}

  -- A result on which the loop goes on: Lua is alive, and the thread is not over or more is there.
  abbrev pub GoesOn : Incoming → Type 0
  GoesOn closed = ⊥
  GoesOn (received r alive status rx_empty) =
      (alive ≡ true) × ((is_over status && rx_empty) ≡ false)

  -- The newest of the results that came, or the old value.
  abbrev pub newest : Option (Result Values Error) → List Incoming → Option (Result Values Error)
  newest value [] = value
  newest value (closed ∷ es) = newest value es
  newest value (received r _ _ _ ∷ es) = newest (some r) es

  -- What the loop gives when it is stopped by the end of the channel or by a dead machine, and when
  -- the thread is over.
  abbrev pub Ends : Option (Result Values Error) → Incoming → Option (Result Values Error) → Type 0
  Ends value closed v = v ≡ value
  Ends value (received r alive status rx_empty) v =
      ((alive ≡ false) × (v ≡ value))
      ⊎ ((alive ≡ true) × ((is_over status && rx_empty) ≡ true) × (v ≡ some r))

  -- After any results on which the loop goes on comes the first event on which it does not. If that
  -- is the end of the channel, or a result that comes when Lua is dead, the loop gives the newest
  -- result before it, if any; if it is the last result of a thread that is over, the loop gives it.
  pub wait_loop-newest :
      (es rest : List Incoming) (e : Incoming) (value v : Option (Result Values Error))
      → All GoesOn es
      → Ends (newest value es) e v
      → wait_loop (es ++ e ∷ rest) value ≡ some v
  unfolding wait_loop
  wait_loop-newest [] rest closed value v g h = ground arith
  wait_loop-newest [] rest (received r alive status rx_empty) value v g h = ground arith
  wait_loop-newest (closed ∷ es) rest e value v (g, gs) h = absurd g
  wait_loop-newest (received r alive status rx_empty ∷ es) rest e value v ((a, b), gs) h =
      rw (a, b) (wait_loop-newest es rest e (some r) v gs h)

  waits_only :
      (es : List Incoming) (value : Option (Result Values Error))
      → (wait_loop es value ≡ none)
      → All GoesOn es
  unfolding wait_loop
  waits_only [] value h = tt
  waits_only (closed ∷ es) value h = cc
  waits_only (received r true status rx_empty ∷ es) value h =
      elim (Bool-cases (is_over status && rx_empty)) [
        | inl over ↦ cc (rw over at h)
        | inr more ↦ ((refl, more), waits_only es (some r) (rw more at h))
      ]
  waits_only (received r false status rx_empty ∷ es) value h = cc

  waits :
      (es : List Incoming) (value : Option (Result Values Error))
      → All GoesOn es
      → wait_loop es value ≡ none
  unfolding wait_loop
  waits [] value h = refl
  waits (closed ∷ es) value (g, gs) = absurd g
  waits (received r alive status rx_empty ∷ es) value ((a, b), gs) =
      rw (a, b) (waits es (some r) gs)

  -- The loop still waits at the end of what came exactly when every event let it go on.
  wait_loop-none :
      (es : List Incoming) (value : Option (Result Values Error))
      → (wait_loop es value ≡ none) ↔ All GoesOn es
  wait_loop-none es value = (waits_only es value, waits es value)
