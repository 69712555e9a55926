-- ===== src/Cli/Scripts.antt =====
-- crates/cli/src/main.rs: the loop over the scripts.
use mlua_scheduler.Base.{◌≡◌, ◌⊎◌, true, some, ok}
use mlua_scheduler.Deps.Runtime.{Runtime}
use mlua_scheduler.Ext.Scheduler.{Scheduler}
use mlua_scheduler.Cli.Program.{Ending, gives, fails, panics, waits, Loading, Visit}

module _ ⦃rt : Runtime⦄ {File : Type 0} (disk : Loading File) (no_values : rt.Values) where
  open rt use {Thread, Values, Error, Function, State, create_thread}
  open disk use {Code, Name, read_to_string, canonicalize, into_function}

  -- A script that can be read and compiled, whatever the state of the machine.
  pub record Loads (path : File) : Type 0 where
    pub code : Code
    pub name : Name
    pub read : read_to_string path ≡ ok code
    pub found : canonicalize path ≡ ok name
    pub function : State → Function
    pub compiled : (l : State) → (into_function code name l).0 ≡ ok (function l)
    pub thread : State → Thread
    pub created :
        (l : State) → (create_thread (function l) (into_function code name l).1).0 ≡ ok (thread l)

  -- A visit whose script loads, and during which no one takes the scheduler off the machine.
  pub record GoodVisit (v : Visit disk no_values) : Type 0 where
    pub loads : Loads v.path
    pub keeps : (s : Scheduler) {u : Scheduler} → v.till_done s ≡ some u → u.attached ≡ s.attached

  -- A part of the program that ends, or waits, with the scheduler attached.
  abbrev Fine : Ending Scheduler Error → Type 0
  Fine (gives t) = t.attached ≡ true
  Fine (fails e t) = ⊥
  Fine panics = ⊥
  Fine (waits t) = Unit

  abbrev Ended : Ending Scheduler Error → Type 0
  Ended r =
      ((t : Scheduler) × (r ≡ gives t) × (t.is_cancelled ≡ true) × (t.attached ≡ true))
      ⊎ ((t : Scheduler) × (r ≡ waits t))
