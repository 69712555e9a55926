-- ===== src/Deps/SampleHeap.antt =====
-- A binary heap of waiting threads as a sorted list, which shows that the heap's laws can hold.
use mathlib.Core.Option
use mathlib.Core.List.Perm
use mlua_scheduler.Base.{
  ◌≡◌, refl, Bool, true, Option, none, some, List, [], ◌∷◌, All, arith, Perm, Bool-cases, inl, inr,
  if◌then◌else◌, length, filter, uncons,
}
use mlua_scheduler.Deps.Mlua.{Mlua}
use mlua_scheduler.Deps.BinaryHeap.{BinaryHeap, Descending}
use mlua_scheduler.V1.State.{WaitingThread, at_most}

module _ ⦃m : Mlua⦄ where
  abbrev pub add : WaitingThread → List WaitingThread → List WaitingThread
  add a [] = a ∷ []
  add a (x ∷ xs) = let rest = add a xs in if at_most x a then a ∷ x ∷ xs else x ∷ rest

  add-All :
      (t a : WaitingThread) (xs : List WaitingThread)
      → at_most a t ≡ true
      → All (λ y. at_most y t ≡ true) xs
      → All (λ y. at_most y t ≡ true) (add a xs)
  add-All t a [] p h = (p, tt)
  add-All t a (x ∷ xs) p (q, h) = elim (Bool-cases (at_most x a)) [
    | inl le ↦ rw le (p, (q, h))
    | inr gt ↦ rw gt (q, add-All t a xs p h)
  ]

  below :
      (t a : WaitingThread) (xs : List WaitingThread)
      → at_most t a ≡ true
      → All (λ y. at_most y t ≡ true) xs
      → All (λ y. at_most y a ≡ true) xs
  below t a [] p h = tt
  below t a (x ∷ xs) p (q, h) = (ground arith, below t a xs p h)

  pub add-Descending :
      (a : WaitingThread) (xs : List WaitingThread)
      → Descending at_most xs
      → Descending at_most (add a xs)
  add-Descending a [] h = (tt, tt)
  add-Descending a (x ∷ xs) (h, d) = elim (Bool-cases (at_most x a)) [
    | inl le ↦ rw le ((le, below x a xs le h), (h, d))
    | inr gt ↦ rw gt (add-All x a xs (ground arith) h, add-Descending a xs d)
  ]

  pub add-Perm : (a : WaitingThread) (xs : List WaitingThread) → Perm (add a xs) (a ∷ xs)
  add-Perm a [] = Perm.rfl
  add-Perm a (x ∷ xs) = elim (Bool-cases (at_most x a)) [
    | inl le ↦ rw le Perm.rfl
    | inr gt ↦ rw gt (Perm.trans (Perm.cons x (add-Perm a xs)) (Perm.swap a x xs))
  ]

  filter-All :
      (t : WaitingThread) (p : WaitingThread → Bool) (xs : List WaitingThread)
      → All (λ y. at_most y t ≡ true) xs
      → All (λ y. at_most y t ≡ true) (filter p xs)
  unfolding filter
  filter-All t p [] h = tt
  filter-All t p (x ∷ xs) (q, h) = elim (Bool-cases (p x)) [
    | inl kept ↦ rw kept (q, filter-All t p xs h)
    | inr out ↦ rw out (filter-All t p xs h)
  ]

  pub filter-Descending :
      (p : WaitingThread → Bool) (xs : List WaitingThread)
      → Descending at_most xs
      → Descending at_most (filter p xs)
  unfolding filter
  filter-Descending p [] h = tt
  filter-Descending p (x ∷ xs) (h, d) = elim (Bool-cases (p x)) [
    | inl kept ↦ rw kept (filter-All x p xs h, filter-Descending p xs d)
    | inr out ↦ rw out (filter-Descending p xs d)
  ]

  abbrev pub Sorted : Type 0
  Sorted = (xs : List WaitingThread) × Descending at_most xs

  abbrev pub take_first :
      (xs : List WaitingThread) → Descending at_most xs → Option (WaitingThread × Sorted)
  take_first [] h = none
  take_first (x ∷ xs) (h, d) = some (x, (xs, d))

  pub take_first_lem :
      (xs : List WaitingThread) (h : Descending at_most xs)
      → Option.map (λ (a, g). (a, g.0)) (take_first xs h) ≡ uncons xs
  take_first_lem [] h = refl
  take_first_lem (x ∷ xs) (h, d) = refl

  instance abbrev pub sample_heap : BinaryHeap WaitingThread at_most
  sample_heap = record {
    Heap = Sorted;
    new_heap = ([], tt);
    push = λ a q. (add a q.0, add-Descending a q.0 q.1);
    pop = λ q. take_first q.0 q.1;
    peek = λ q. Option.map (λ (a, g). a) (take_first q.0 q.1);
    retain = λ p q. (filter p q.0, filter-Descending p q.0 q.1);
    clear = λ q. ([], tt);
    len = λ q. length q.0;
    items = λ q. q.0;
    items-new = refl;
    items-push = λ a q. add-Perm a q.0;
    items-pop = λ q. take_first_lem q.0 q.1;
    peek_lem = λ q. refl;
    items-retain = λ p q. Perm.rfl;
    items-clear = λ q. refl;
    len-items = λ q. refl;
    items-Descending = λ q. q.1;
  }
