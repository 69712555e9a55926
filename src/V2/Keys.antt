-- ===== src/V2/Keys.antt =====
-- taskmgr_v2.rs: the keys of the delay queue and the map `wait_keys` from threads to their keys.
use mlua_scheduler.Base.{
  ℕ, ◌≡◌, ◌≢◌, sym, true, false, not, ◌||◌, some, List, [], ◌∷◌, ◌++◌, arith, ◌==◌, All, Removed,
  here, there, length, filter, Removed-All,
}
use mlua_scheduler.Collections.{contains, get, insert_key, get_or_default, get-insert_key}
use mlua_scheduler.Deps.DelayQueue.{Entry}

-- A number is in a list that it was appended to, and all others are as before.
pub contains-snoc :
    (k j : ℕ) (xs : List ℕ) → contains j (xs ++ k ∷ []) ≡ (contains j xs || (k == j))
unfolding contains
contains-snoc k j [] = ground arith
contains-snoc k j (x ∷ xs) = ground (arith, contains-snoc k j xs)

pub contains-filter :
    (k j : ℕ) (xs : List ℕ)
    → j ≢ k
    → contains j xs ≡ true
    → contains j (filter (λ i. not (i == k)) xs) ≡ true
unfolding contains filter
contains-filter k j [] ne h = h
contains-filter k j (x ∷ xs) ne h = ground (arith, contains-filter k j xs ne)

pub contains-length : (k : ℕ) (xs : List ℕ) → contains k xs ≡ true → (length xs == 0) ≡ false
unfolding contains
contains-length k [] h = cc
contains-length k (x ∷ xs) h = ground arith

pub Keyed-new :
    (k x : ℕ) (m : List (ℕ × List ℕ))
    → contains k (get_or_default x (insert_key x (get_or_default x m ++ k ∷ []) m)) ≡ true
unfolding get_or_default
Keyed-new k x m = ground (
  arith,
  get-insert_key x x (get_or_default x m ++ k ∷ []) m,
  contains-snoc k k (get_or_default x m),
)

module _ {A : Type 0} where
  -- No two entries have one key.
  abbrev pub Distinct : List (Entry A) → Type 0
  Distinct [] = Unit
  Distinct (e ∷ es) = All (λ d. d.key ≢ e.key) es × Distinct es

  pub Removed-Distinct :
      {e : Entry A} {es ds : List (Entry A)}
      → Removed e es ds
      → Distinct es
      → All (λ d. d.key ≢ e.key) ds × Distinct ds
  Removed-Distinct (here xs) h = h
  Removed-Distinct {e} (there x r) (p, q) =
      let (a, b) = Removed-Distinct r q in
      let (c, d) = Removed-All (λ d. d.key ≢ x.key) r p in ((λ h. c (sym h), a), (d, b))

module _ {A : Type 0} (xid : A → ℕ) where
  -- Every entry's key is recorded under the id of its thread.
  abbrev pub Keyed : List (ℕ × List ℕ) → List (Entry A) → Type 0
  Keyed m = All λ e. contains e.key (get_or_default (xid e.value) m) ≡ true

  pub Keyed-insert :
      (k x : ℕ) (m : List (ℕ × List ℕ)) (es : List (Entry A))
      → Keyed m es
      → Keyed (insert_key x (get_or_default x m ++ k ∷ []) m) es
  unfolding get_or_default
  Keyed-insert k x m [] h = tt
  Keyed-insert k x m (e ∷ es) (h, t) = (
    ground (
      arith,
      get-insert_key x (xid e.value) (get_or_default x m ++ k ∷ []) m,
      contains-snoc k e.key (get_or_default x m),
    ),
    Keyed-insert k x m es t,
  )

  -- Dropping one key from one thread's list keeps the others.
  pub Keyed-drop :
      (k x : ℕ) (old : List ℕ) (m : List (ℕ × List ℕ)) (es : List (Entry A))
      → get x m ≡ some old
      → All (λ d. d.key ≢ k) es
      → Keyed m es
      → Keyed (insert_key x (filter (λ i. not (i == k)) old) m) es
  unfolding get_or_default
  Keyed-drop k x old m [] g ne h = tt
  Keyed-drop k x old m (e ∷ es) g (n, ns) (h, t) = (
    ground (
      arith,
      get-insert_key x (xid e.value) (filter (λ i. not (i == k)) old) m,
      contains-filter k e.key old n,
    ),
    Keyed-drop k x old m es g ns t,
  )
