-- ===== src/Base/Lists.antt =====
-- Lists: length by native numbers, predicates by recursion, one element taken out, a Boolean filter.
use Prim.Native.Nat.{ℕ, suc, ◌+◌, ◌≤◌}
use mathlib.Core.Path.{◌≡◌, refl}
use mathlib.Core.Logic.{inl, inr}
use mathlib.Core.Bool.{Bool}
use mathlib.Core.Option.{Option, none, some}
use mathlib.Core.List.{List, [], ◌∷◌, ◌++◌, Perm}
use mathlib.Core.List.Perm
use native.Mathlib.Omega.{arith}
use mlua_scheduler.Base.Tests.{if◌then◌else◌, Bool-cases}

module _ {ℓ} {A : Type ℓ} where
  abbrev pub length : List A → ℕ
  length [] = 0
  length (x ∷ xs) = suc (length xs)

  pub length-append : (xs ys : List A) → length (xs ++ ys) ≡ length xs + length ys
  length-append [] ys = omega arith
  length-append (x ∷ xs) ys = omega (arith, length-append xs ys)

  pub nil_of_length : (xs : List A) → length xs ≡ 0 → xs ≡ []
  nil_of_length [] e = refl
  nil_of_length (x ∷ xs) e = cc

  -- The first element and the rest.
  abbrev pub uncons : List A → Option (A × List A)
  uncons [] = none
  uncons (x ∷ xs) = some (x, xs)

  pub uncons-eq-some :
      (xs : List A) {a : A} {rest : List A} → uncons xs ≡ some (a, rest) → xs ≡ a ∷ rest
  uncons-eq-some [] e = cc
  uncons-eq-some (x ∷ xs) e = ground arith

  pub uncons-eq-none : (xs : List A) → uncons xs ≡ none → xs ≡ []
  uncons-eq-none [] e = refl
  uncons-eq-none (x ∷ xs) e = cc

  abbrev pub All {κ} : (A → Type κ) → List A → Type κ
  All P [] = Unit
  All P (x ∷ xs) = P x × All P xs

  -- `ys` is `xs` with one occurrence of `a` taken out.
  pub data Removed (a : A) : List A → List A → Type ℓ where
    here : (xs : List A) → Removed a (a ∷ xs) xs
    there : (x : A) {xs ys : List A} → Removed a xs ys → Removed a (x ∷ xs) (x ∷ ys)

  pub Removed-nil : {a : A} {ys : List A} → ¬ Removed a [] ys
  Removed-nil r = elim r [ ]

  pub Removed-length : {a : A} {xs ys : List A} → Removed a xs ys → length xs ≡ suc (length ys)
  Removed-length (here xs) = refl
  Removed-length (there x r) = omega (arith, Removed-length r)

  pub Removed-All {κ} :
      {a : A} (P : A → Type κ) {xs ys : List A} → Removed a xs ys → All P xs → P a × All P ys
  Removed-All P (here xs) (h, t) = (h, t)
  Removed-All P (there x r) (h, t) = let (p, q) = Removed-All P r t in (p, (h, q))

  pub Removed-perm : {a : A} {xs ys : List A} → Removed a xs ys → Perm xs (a ∷ ys)
  Removed-perm (here xs) = Perm.rfl
  Removed-perm {a} (there x r) = Perm.trans (Perm.cons x (Removed-perm r)) (Perm.swap a x _)

  -- What a predicate given as a Boolean test keeps, in order.
  unfoldable pub filter : (A → Bool) → List A → List A
  filter p [] = []
  filter p (x ∷ xs) = let rest = filter p xs in if p x then x ∷ rest else rest

  pub length-filter : (p : A → Bool) (xs : List A) → length (filter p xs) ≤ length xs
  unfolding filter
  length-filter p [] = omega arith
  length-filter p (x ∷ xs) = elim (Bool-cases (p x)) [
    | inl kept ↦ rw kept (omega (arith, length-filter p xs))
    | inr out ↦ rw out (omega (arith, length-filter p xs))
  ]
