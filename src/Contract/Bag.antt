-- ===== src/Contract/Bag.antt =====
-- Lists up to order, as a quotient.
use mathlib.Core.List.{Perm}
use mathlib.Core.List.Perm
use mathlib.Core.Quot
use mathlib.Core.Quot.{Quot, Quot-set}
use mlua_scheduler.Base.{◌≡◌, refl, sym, ap, ◌∙◌, List, [], ◌∷◌, ◌++◌, map, Removed, here, there}

abbrev pub SameItems : {A : Type 0} → List A → List A → Type 0
SameItems xs ys = Perm xs ys

abbrev pub Bag : Type 0 → Type 0
Bag A = Quot (SameItems {A = A})

module _ {A : Type 0} where
  abbrev pub bag : List A → Bag A
  bag xs = Quot.mk xs

  pub bag_of_perm : {xs ys : List A} → Perm xs ys → bag xs ≡ bag ys
  bag_of_perm p = Quot.sound p

  unfoldable pub put : A → Bag A → Bag A
  put x = Quot.lift Quot-set (λ xs. bag (x ∷ xs)) (λ xs ys p. Quot.sound (Perm.cons x p))

  pub put_comm : (x y : A) (b : Bag A) → put x (put y b) ≡ put y (put x b)
  unfolding put
  put_comm x y = Quot.ind (λ b. Quot-set _ _) (λ xs. Quot.sound (Perm.swap y x xs))

  unfoldable pub put_all : List A → Bag A → Bag A
  put_all [] b = b
  put_all (x ∷ xs) b = put x (put_all xs b)

  pub put_all-put : (xs : List A) (y : A) (b : Bag A) → put_all xs (put y b) ≡ put y (put_all xs b)
  unfolding put_all
  put_all-put [] y b = refl
  put_all-put (x ∷ xs) y b = ap (put x) (put_all-put xs y b) ∙ put_comm x y (put_all xs b)

  pub put_all-append :
      (xs ys : List A) (b : Bag A) → put_all (xs ++ ys) b ≡ put_all xs (put_all ys b)
  unfolding put_all
  put_all-append [] ys b = refl
  put_all-append (x ∷ xs) ys b = ap (put x) (put_all-append xs ys b)

  pub put_all_comm :
      (xs ys : List A) (b : Bag A) → put_all xs (put_all ys b) ≡ put_all ys (put_all xs b)
  unfolding put_all
  put_all_comm xs [] b = refl
  put_all_comm xs (y ∷ ys) b = put_all-put xs y (put_all ys b) ∙ ap (put y) (put_all_comm xs ys b)

  pub put_all-snoc :
      (xs : List A) (y : A) (b : Bag A) → put_all (xs ++ y ∷ []) b ≡ put y (put_all xs b)
  unfolding put_all
  put_all-snoc xs y b = put_all-append xs (y ∷ []) b ∙ put_all-put xs y b

  put_all-bag : (xs ys : List A) → put_all xs (bag ys) ≡ bag (xs ++ ys)
  unfolding put_all put
  put_all-bag [] ys = refl
  put_all-bag (x ∷ xs) ys = ap (put x) (put_all-bag xs ys)

  -- Lists that differ in order alone put in the same.
  pub put_all_of_perm : {xs ys : List A} → Perm xs ys → (b : Bag A) → put_all xs b ≡ put_all ys b
  put_all_of_perm {xs} {ys} p =
      Quot.ind (λ b. Quot-set _ _)
        (λ zs. put_all-bag xs zs ∙ Quot.sound (Perm.append_right zs p) ∙ sym (put_all-bag ys zs))

  -- An item that is taken out of a list.
  pub put_all-Removed :
      {B : Type 0} (f : B → A) {b : B} {xs ys : List B} (c : Bag A)
      → Removed b xs ys
      → put_all (map f xs) c ≡ put (f b) (put_all (map f ys) c)
  unfolding put_all
  put_all-Removed f c (here xs) = refl
  put_all-Removed f {b} c (there x {xs} {ys} r) =
      ap (put (f x)) (put_all-Removed f c r) ∙ put_comm (f x) (f b) (put_all (map f ys) c)
