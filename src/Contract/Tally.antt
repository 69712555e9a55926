-- ===== src/Contract/Tally.antt =====
-- Bags weighed: what a sum over the items of a list says of the bag.
use mathlib.Core.List.{Permᴰ}
use mathlib.Core.Logic.{∥∥₁_elim}
use mathlib.Core.Quot
use native.Mathlib.Nat.{ℕ_set}
use mlua_scheduler.Base.{ℕ, ◌+◌, ◌≡◌, refl, ap, ◌∙◌, List, [], ◌∷◌, ◌++◌, Perm, arith}
use mlua_scheduler.Contract.Bag.{Bag, put, put_all}

module _ {A : Type 0} (p : A → ℕ) where
  unfoldable pub sum : List A → ℕ
  sum [] = 0
  sum (x ∷ xs) = p x + sum xs

  pub sum-append : (xs ys : List A) → sum (xs ++ ys) ≡ sum xs + sum ys
  unfolding sum
  sum-append [] ys = omega arith
  sum-append (x ∷ xs) ys = omega (arith, sum-append xs ys)

  sum-of_permᴰ : {xs ys : List A} → Permᴰ xs ys → sum xs ≡ sum ys
  unfolding sum
  sum-of_permᴰ Permᴰ.nil = refl
  sum-of_permᴰ (Permᴰ.cons e q) = omega (arith, sum-of_permᴰ q, ap p e)
  sum-of_permᴰ (Permᴰ.swap e d) = omega (arith, ap p e, ap p d)
  sum-of_permᴰ (Permᴰ.trans q r) = sum-of_permᴰ q ∙ sum-of_permᴰ r

  pub sum-of_perm : {xs ys : List A} → Perm xs ys → sum xs ≡ sum ys
  sum-of_perm q = ∥∥₁_elim q (ℕ_set _ _) sum-of_permᴰ

  -- The sum over what a bag holds.
  unfoldable pub weight : Bag A → ℕ
  weight = Quot.lift ℕ_set sum (λ xs ys q. sum-of_perm q)

  weight-put : (x : A) (b : Bag A) → weight (put x b) ≡ p x + weight b
  unfolding weight put sum
  weight-put x = Quot.ind (λ b. ℕ_set _ _) (λ xs. refl)

  pub weight-put_all : (xs : List A) (b : Bag A) → weight (put_all xs b) ≡ sum xs + weight b
  unfolding put_all sum
  weight-put_all [] b = omega arith
  weight-put_all (x ∷ xs) b = omega (arith, weight-put x (put_all xs b), weight-put_all xs b)
