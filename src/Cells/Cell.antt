-- ===== src/Cells/Cell.antt =====
-- XBool and XUsize of crates/scheduler/src/lib.rs: a cell that is read and written as a whole, a
-- Cell<T> or, in `send` mode, an atomic with a load (Acquire) and a store (Release).

pub record Cell {ℓ} (A : Type ℓ) : Type ℓ where
  pub content : A

module _ {ℓ} {A : Type ℓ} where
  unfoldable pub new : A → Cell A
  new i = record { content = i }

  unfoldable pub get : Cell A → A
  get c = c.content

  unfoldable pub set : A → Cell A → Cell A
  set v c = record c { content = v }
