-- ===== src/Collections.antt =====
-- The standard library's HashMap and HashSet over thread ids, as far as the crates use them: a map
-- is an association list with at most one entry for a key put in by `insert`, a set a list of ids.
-- The order of iteration is never observed by the code.
use mathlib.Core.Option
use mlua_scheduler.Base.{
  ℕ, ◌≡◌, Bool, true, false, ◌||◌, Option, none, some, List, [], ◌∷◌, arith, ◌==◌, if◌then◌else◌,
}

-- HashSet<XId>
unfoldable pub contains : ℕ → List ℕ → Bool
contains k [] = false
contains k (x ∷ xs) = x == k || contains k xs

unfoldable pub insert : ℕ → List ℕ → List ℕ
unfolding contains
insert k xs = if contains k xs then xs else k ∷ xs

unfoldable pub remove : ℕ → List ℕ → List ℕ
remove k [] = []
remove k (x ∷ xs) = let rest = remove k xs in if x == k then rest else x ∷ rest

pub contains-insert :
    (k j : ℕ) (xs : List ℕ) → contains j (insert k xs) ≡ (if k == j then true else contains j xs)
unfolding insert
contains-insert k j xs = ground (arith)

pub contains-remove :
    (k j : ℕ) (xs : List ℕ) → contains j (remove k xs) ≡ (if k == j then false else contains j xs)
unfolding contains remove
contains-remove k j [] = ground arith
contains-remove k j (x ∷ xs) = ground (arith, contains-remove k j xs)

-- HashMap<XId, V>
module _ {ℓ} {V : Type ℓ} where
  unfoldable pub get : ℕ → List (ℕ × V) → Option V
  get k [] = none
  get k ((j, v) ∷ m) = if j == k then some v else get k m

  unfoldable pub remove_key : ℕ → List (ℕ × V) → List (ℕ × V)
  remove_key k [] = []
  remove_key k ((j, v) ∷ m) = let rest = remove_key k m in if j == k then rest else (j, v) ∷ rest

  unfoldable pub insert_key : ℕ → V → List (ℕ × V) → List (ℕ × V)
  unfolding remove_key
  insert_key k v m = (k, v) ∷ remove_key k m

  pub get-remove_key :
      (k j : ℕ) (m : List (ℕ × V)) → get j (remove_key k m) ≡ (if k == j then none else get j m)
  unfolding get remove_key
  get-remove_key k j [] = ground arith
  get-remove_key k j ((i, v) ∷ m) = ground (arith, get-remove_key k j m)

  pub get-insert_key :
      (k j : ℕ) (v : V) (m : List (ℕ × V))
      → get j (insert_key k v m) ≡ (if k == j then some v else get j m)
  unfolding get insert_key
  get-insert_key k j v m = ground (arith, get-remove_key k j m)

-- `entry(k).or_default()`
unfoldable pub get_or_default : ℕ → List (ℕ × List ℕ) → List ℕ
unfolding get
get_or_default k m = Option.get_or (get k m) []
