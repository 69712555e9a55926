-- ===== src/Deps/BinaryHeap.antt =====
-- std::collections::BinaryHeap of a type with a total order, given as the test `a ≤ b`. `items` is
-- the sequence that repeated `pop` gives, for statements only; how equal elements are ordered is
-- left open.
use mathlib.Core.Option
use mlua_scheduler.Base.{
  ℕ, ◌≡◌, Bool, true, Option, List, [], ◌∷◌, All, Perm, uncons, length, filter,
}

-- Each element is at least those behind it.
abbrev pub Descending : {A : Type 0} → (A → A → Bool) → List A → Type 0
Descending le [] = Unit
Descending le (x ∷ xs) = All (λ y. le y x ≡ true) xs × Descending le xs

pub record BinaryHeap (A : Type 0) (le : A → A → Bool) : Type 1 where
  pub Heap : Type 0
  pub new_heap : Heap
  pub push : A → Heap → Heap
  pub pop : Heap → Option (A × Heap)
  pub peek : Heap → Option A
  pub retain : (A → Bool) → Heap → Heap
  pub clear : Heap → Heap
  pub len : Heap → ℕ
  pub items : Heap → List A
  pub items-new : items new_heap ≡ []
  pub items-push : (a : A) (h : Heap) → Perm (items (push a h)) (a ∷ items h)
  pub items-pop : (h : Heap) → Option.map (λ (a, g). (a, items g)) (pop h) ≡ uncons (items h)
  pub peek_lem : (h : Heap) → peek h ≡ Option.map (λ (a, g). a) (pop h)
  pub items-retain : (p : A → Bool) (h : Heap) → Perm (items (retain p h)) (filter p (items h))
  pub items-clear : (h : Heap) → items (clear h) ≡ []
  pub len-items : (h : Heap) → len h ≡ length (items h)
  pub items-Descending : (h : Heap) → Descending le (items h)
