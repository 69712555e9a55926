-- ===== src/Cli/Globals.antt =====
-- crates/cli/src/main.rs: the global table of the scripts, a table whose metatable reads from and
-- writes to the globals of the machine.
use mlua_scheduler.Base.{
  ◌≡◌, ◌⊎◌, refl, sym, ap, ◌∙◌, Bool, true, false, not, Result, ok, err, if◌then◌else◌, Bool-cases,
  Result-cases, inl, inr,
}

-- Lua tables as mlua has them. `get` and `set` may run metamethods, and so may fail; `raw_set` fails
-- on a key that no table may have. A table that was set at a key has that value there, if it is not
-- nil.
pub record Tables : Type 1 where
  pub Key : Type 0
  pub Value : Type 0
  pub Table : Type 0
  pub Error : Type 0
  pub is_nil : Value → Bool
  pub get : Key → Table → Result Value Error
  pub set : Key → Value → Table → Result Table Error
  pub raw_get : Key → Table → Value
  pub raw_set : Key → Value → Table → Result Table Error
  pub get-set :
      (k : Key) (v : Value) (t : Table) {u : Table}
      → is_nil v ≡ false
      → set k v t ≡ ok u
      → get k u ≡ ok v
  pub raw_get-raw_set :
      (k : Key) (v : Value) (t : Table) {u : Table} → raw_set k v t ≡ ok u → raw_get k u ≡ v

module _ ⦃lt : Tables⦄ where
  open lt use {
    Key, Value, Table, Error, is_nil, get, set, raw_get, raw_set, get-set, raw_get-raw_set,
  }

  -- `lua.globals()` and `global_tab`
  pub record Env : Type 0 where
    pub globals : Table
    pub tab : Table

  abbrev with_globals : Env → Result Table Error → Result Env Error
  with_globals s (err e) = err e
  with_globals s (ok g) = ok (record s { globals = g })

  abbrev with_tab : Env → Result Table Error → Result Env Error
  with_tab s (err e) = err e
  with_tab s (ok t) = ok (record s { tab = t })

  -- `__newindex`, from the value that the globals have at the key
  unfoldable pub newindex_at : Key → Value → Env → Result Value Error → Result Env Error
  newindex_at key value s (err e) = err e
  newindex_at key value s (ok v) =
      if not (is_nil v)
      then with_globals s (set key value s.globals)
      else with_tab s (raw_set key value s.tab)

  unfoldable pub newindex : Key → Value → Env → Result Env Error
  unfolding newindex_at
  newindex key value s = newindex_at key value s (get key s.globals)

  -- A script reads a global: Lua asks `__index` where the table itself has nil.
  unfoldable pub read_global : Key → Env → Result Value Error
  read_global key s = let v = raw_get key s.tab in if is_nil v then get key s.globals else ok v

  -- A script assigns to a global: Lua calls `__newindex` where the table itself has nil.
  unfoldable pub assign_global : Key → Value → Env → Result Env Error
  unfolding newindex
  assign_global key value s =
      if is_nil (raw_get key s.tab)
      then newindex key value s
      else with_tab s (raw_set key value s.tab)

  with_tab-read :
      (k : Key) (v : Value) (s : Env) {u : Env}
      → is_nil v ≡ false
      → with_tab s (raw_set k v s.tab) ≡ ok u
      → read_global k u ≡ ok v
  unfolding read_global
  with_tab-read k v s {u} some_value p = elim (Result-cases (raw_set k v s.tab)) [
    | inr (e, q) ↦ cc (rw q at p)
    | inl (t, q) ↦
        let same : record s { tab = t } ≡ u = cc (rw q at p) in
        let at : raw_get k u.tab ≡ v =
          ap (λ (x : Env). raw_get k x.tab) (sym same) ∙ raw_get-raw_set k v s.tab q in
        rw (at, some_value) refl
  ]

  with_globals-read :
      (k : Key) (v : Value) (s : Env) {u : Env}
      → is_nil v ≡ false
      → is_nil (raw_get k s.tab) ≡ true
      → with_globals s (set k v s.globals) ≡ ok u
      → read_global k u ≡ ok v
  unfolding read_global
  with_globals-read k v s {u} some_value absent p = elim (Result-cases (set k v s.globals)) [
    | inr (e, q) ↦ cc (rw q at p)
    | inl (g, q) ↦
        let same : record s { globals = g } ≡ u = cc (rw q at p) in
        let at : is_nil (raw_get k u.tab) ≡ true =
          ap (λ (x : Env). is_nil (raw_get k x.tab)) (sym same) ∙ absent in
        rw at (ap (λ (x : Env). get k x.globals) (sym same) ∙ get-set k v s.globals some_value q)
  ]

  -- The write goes to the globals of the machine, where the name stands in them with a value and the
  -- script's table has none; or to the script's table.
  abbrev pub Written : Key → Value → Env → Env → Type 0
  Written k v s u =
      ((old : Value) × (get k s.globals ≡ ok old)
        × (is_nil old ≡ false)
        × (is_nil (raw_get k s.tab) ≡ true)
        × (set k v s.globals ≡ ok u.globals)
        × (u.tab ≡ s.tab))
      ⊎ (((is_nil (raw_get k s.tab) ≡ false)
            ⊎ ((old : Value) × (get k s.globals ≡ ok old) × (is_nil old ≡ true)))
          × (raw_set k v s.tab ≡ ok u.tab)
          × (u.globals ≡ s.globals))

  with_tab-ok :
      (s : Env) (r : Result Table Error) {u : Env}
      → with_tab s r ≡ ok u
      → (r ≡ ok u.tab) × (u.globals ≡ s.globals)
  with_tab-ok s (err e) p = cc p
  with_tab-ok s (ok t) {u} p =
      let same : record s { tab = t } ≡ u = cc p in
      (ap (λ (x : Env). ok x.tab) same, ap (λ (x : Env). x.globals) (sym same))

  with_globals-ok :
      (s : Env) (r : Result Table Error) {u : Env}
      → with_globals s r ≡ ok u
      → (r ≡ ok u.globals) × (u.tab ≡ s.tab)
  with_globals-ok s (err e) p = cc p
  with_globals-ok s (ok g) {u} p =
      let same : record s { globals = g } ≡ u = cc p in
      (ap (λ (x : Env). ok x.globals) same, ap (λ (x : Env). x.tab) (sym same))

  -- An assignment of a script that succeeds changes the globals of the machine exactly where the name
  -- has a value in them and none in the script's own table, and then leaves that table as it is; else
  -- it changes the script's table and leaves the globals. What is assigned to a global is then read
  -- there, if it is not nil: whether the name was a global of the machine, was the script's own, or
  -- is new.
  pub read_global-assign_global :
      (k : Key) (v : Value) (s : Env) {u : Env}
      → assign_global k v s ≡ ok u
      → Written k v s u × (is_nil v ≡ false → read_global k u ≡ ok v)
  unfolding assign_global newindex newindex_at
  read_global-assign_global k v s p = elim (Bool-cases (is_nil (raw_get k s.tab))) [
    | inr own ↦
        let q = rw own at p in
        let (set_at, kept) = with_tab-ok s (raw_set k v s.tab) q in
        (inr (inl own, set_at, kept), λ some_value. with_tab-read k v s some_value q)
    | inl absent ↦
        let q = rw absent at p in
        elim (Result-cases (get k s.globals)) [
          | inr (e, r) ↦ cc (rw (r, newindex_at) at q)
          | inl (old, r) ↦ elim (Bool-cases (is_nil old)) [
            | inl new ↦
                let w = rw (r, newindex_at, new) at q in
                let (set_at, kept) = with_tab-ok s (raw_set k v s.tab) w in
                (
                  inr (inr (old, r, new), set_at, kept),
                  λ some_value. with_tab-read k v s some_value w,
                )
            | inr there ↦
                let w = rw (r, newindex_at, there) at q in
                let (set_at, kept) = with_globals-ok s (set k v s.globals) w in
                (
                  inl (old, r, there, absent, set_at, kept),
                  λ some_value. with_globals-read k v s some_value absent w,
                )
          ]
        ]
  ]
