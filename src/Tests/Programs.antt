-- ===== src/Tests/Programs.antt =====
-- main.rs on concrete inputs.
use mlua_scheduler.Base.{
  ℕ, ◌+◌, ◌≡◌, ◌≤◌, refl, sym, ap, ◌∙◌, true, false, some, List, [], ◌∷◌, Result, ok, err, String,
  arith, leb, ◌==◌, ==_refl,
}
use mlua_scheduler.Collections.{get, insert_key, get-insert_key}
use mathlib.Core.Option
use mlua_scheduler.Deps.Samples.{sample}
use mlua_scheduler.V2.State.{Response}
use mlua_scheduler.Ext.Scheduler.{Scheduler, closed}
use mlua_scheduler.Cli.Integers.{ℤ}
use mlua_scheduler.Cli.Functions.{Sleeping}
use mlua_scheduler.Cli.Globals.{
  Tables, Env, assign_global, newindex, newindex_at, Written, read_global,
  read_global-assign_global,
}
use mlua_scheduler.Cli.Program.{Loading, Visit, gives as gives_program}
use mlua_scheduler.Tests.Start.{fresh}

-- Numbers that are printed as one text.
abbrev print : ℤ → String
print n = "number"

-- Nothing here fails.
abbrev fine : {A : Type 0} → A → Result A String
fine a = ok a

least_sleep : (t : ℕ) {d : ℕ} → leb (t + 1) 50_000_000 ≡ false → fine t ≡ ok d → 50_000_000 ≤ d
least_sleep t long p = ground (arith, long, p)

-- Seconds as nanoseconds.
abbrev nanoseconds : Sleeping ℕ
nanoseconds = record {
  less_than = λ a b. leb (a + 1) b;
  zero_secs = 0;
  least = 50_000_000;
  tenth = 100_000_000;
  from_secs_f64 = fine;
  from_tenth = refl;
  from_least = least_sleep;
}

-- Tables are lists of entries; nil is 0.
abbrev Entries : Type 0
Entries = List (ℕ × ℕ)

abbrev at : ℕ → Entries → ℕ
at k t = Option.get_or (get k t) 0

at-insert_key : (k v : ℕ) (t : Entries) {u : Entries} → fine (insert_key k v t) ≡ ok u → at k u ≡ v
at-insert_key k v t {u} p =
    let q : insert_key k v t ≡ u = cc p in
    ap (at k) (sym q) ∙ rw (get-insert_key k k v t, ==_refl k) refl

instance abbrev entry_tables : Tables
entry_tables = record {
  Key = ℕ;
  Value = ℕ;
  Table = Entries;
  Error = String;
  is_nil = λ v. v == 0;
  get = λ k t. fine (at k t);
  set = λ k v t. fine (insert_key k v t);
  raw_get = at;
  raw_set = λ k v t. fine (insert_key k v t);
  get-set = λ k v t n p. ap ok (at-insert_key k v t p);
  raw_get-raw_set = at-insert_key;
}

-- A global of the machine, 7, and a name of the script's own, 8.
abbrev env : Env
env = record { globals = (7, 1) ∷ []; tab = (8, 2) ∷ [] }

abbrev env7 : Env
env7 = record { globals = (7, 5) ∷ []; tab = (8, 2) ∷ [] }

read_global-assign_global_example :
    Written 7 5 env env7 × (false ≡ false → read_global 7 env7 ≡ ok 5)
unfolding assign_global newindex newindex_at get insert_key
read_global-assign_global_example = read_global-assign_global 7 5 env {u = env7} refl

abbrev told : List Response
told =
    record { label = "TaskSpawn"; thread = 5; result = ok 1 }
    ∷ record { label = "WaitingThread"; thread = 6; result = err "failed" }
    ∷ []

-- Every file can be read, and code is the function that it compiles to.
abbrev disk : Loading ⦃rt = sample⦄ ℕ
disk = record {
  Code = ℕ;
  Name = ℕ;
  read_to_string = λ p. fine p;
  canonicalize = λ p. fine p;
  into_function = λ c n l. (fine c, l);
}

abbrev visit : Visit disk 0
visit = record { path = 4; incoming = closed ∷ []; till_done = λ s. some s }

abbrev scheduler : Scheduler
scheduler = record { task_manager = fresh; exit_code = 0; attached = true; manager_attached = true }
