-- ===== src/Deps/Futures.antt =====
-- futures_util's FuturesUnordered of (thread, future) pairs: each future that was pushed completes
-- at most once, in any order, with a value, an error or a panic.
use mlua_scheduler.Base.{
  ℕ, ◌≡◌, ◌↔◌, Bool, true, Option, some, List, [], ◌∷◌, String, Result, Removed,
}

-- What `catch_unwind` caught: a text (`String` or `&str`), or another value with its debug form.
pub data Payload : Type 0 where
  text : String → Payload
  opaque : (debug : String) → Payload

pub data Outcome (Values Error : Type 0) : Type 0 where
  completed : Result Values Error → Outcome Values Error
  panicked : Payload → Outcome Values Error

pub record Futures (Thread Fut Output : Type 0) : Type 1 where
  pub Pool : Type 0
  pub new_pool : Pool
  pub push : Thread → Fut → Pool → Pool
  -- the pair that has completed, with its outcome
  pub poll_next : (now : ℕ) → Pool → Option ((Thread × Fut) × Output × Pool)
  pub no_futures : Pool → Bool
  pub pending : Pool → List (Thread × Fut)
  pub pending-new : pending new_pool ≡ []
  pub pending-push : (t : Thread) (f : Fut) (p : Pool) → pending (push t f p) ≡ (t, f) ∷ pending p
  pub poll_next-Removed :
      (now : ℕ) (p : Pool) {tf : Thread × Fut} {o : Output} {p' : Pool}
      → poll_next now p ≡ some (tf, o, p')
      → Removed tf (pending p) (pending p')
  pub no_futures_iff : (p : Pool) → (no_futures p ≡ true) ↔ (pending p ≡ [])
