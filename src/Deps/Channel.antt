-- ===== src/Deps/Channel.antt =====
-- Unbounded channels (tokio::sync::mpsc, or flume): messages come out in the order they went in.
-- `contents` is what was sent and not yet received, for statements only.
use mathlib.Core.Option
use mlua_scheduler.Base.{◌≡◌, ◌↔◌, Bool, true, Option, List, [], ◌∷◌, ◌++◌, uncons}

pub record Channels : Type 1 where
  pub Chan : Type 0 → Type 0
  pub unbounded_channel : {A : Type 0} → Chan A
  pub send : {A : Type 0} → A → Chan A → Chan A
  -- none: no message is there, and the receiver waits
  pub recv : {A : Type 0} → Chan A → Option (A × Chan A)
  pub is_empty : {A : Type 0} → Chan A → Bool
  pub contents : {A : Type 0} → Chan A → List A
  pub contents-new : {A : Type 0} → contents (unbounded_channel {A = A}) ≡ []
  pub contents-send : {A : Type 0} (a : A) (c : Chan A) → contents (send a c) ≡ contents c ++ a ∷ []
  pub contents-recv :
      {A : Type 0} (c : Chan A)
      → Option.map (λ (a, d). (a, contents d)) (recv c) ≡ uncons (contents c)
  pub is_empty_iff : {A : Type 0} (c : Chan A) → (is_empty c ≡ true) ↔ (contents c ≡ [])
