-- ===== src/Base/Perms.antt =====
-- A predicate on all elements is carried along a permutation.
use mathlib.Core.Path.{◌≡◌, refl, subst, sym}
use mathlib.Core.Logic.{∥∥₁_elim}
use mathlib.Core.Bool.{Bool, Bool-set}
use mathlib.Core.HLevel.{×_prop}
use mathlib.Core.List.{List, [], ◌∷◌, Perm, Permᴰ}
use mlua_scheduler.Base.Lists.{All}

module _ {ℓ} {A : Type ℓ} where
  All-of_permᴰ {κ} : (P : A → Type κ) {xs ys : List A} → Permᴰ ys xs → All P xs → All P ys
  All-of_permᴰ P Permᴰ.nil h = tt
  All-of_permᴰ P (Permᴰ.cons e p) (h, t) = (subst P (sym e) h, All-of_permᴰ P p t)
  All-of_permᴰ P (Permᴰ.swap e d) (h, (k, t)) = (subst P (sym e) k, (subst P (sym d) h, t))
  All-of_permᴰ P (Permᴰ.trans p q) h = All-of_permᴰ P p (All-of_permᴰ P q h)

  All-prop : (f : A → Bool) (b : Bool) (xs : List A) → IsProp (All (λ x. f x ≡ b) xs)
  All-prop f b [] = λ x y. refl
  All-prop f b (x ∷ xs) = ×_prop (Bool-set _ _) (All-prop f b xs)

  pub All-of_perm :
      (f : A → Bool) (b : Bool) {xs ys : List A}
      → Perm ys xs
      → All (λ x. f x ≡ b) xs
      → All (λ x. f x ≡ b) ys
  All-of_perm f b {ys} p h = ∥∥₁_elim p (All-prop f b ys) (λ q. All-of_permᴰ _ q h)
