-- ===== src/Cli/Program.antt =====
-- crates/cli/src/main.rs: the program, from the making of its manager to its stop.
--
-- Files and paths are the system's, and how code becomes a function is mlua's: parameters.
use mlua_scheduler.Base.{
  Bool, Option, none, some, List, [], ◌∷◌, String, Result, ok, err, if◌then◌else◌,
}
use mlua_scheduler.Deps.Mlua.{stop}
use mlua_scheduler.Deps.Runtime.{Runtime}
use mlua_scheduler.V2.State.{World, Loop, call}
use mlua_scheduler.V2.Arms.{Flow}
use mlua_scheduler.TaskManager.{run_in_task}
use mlua_scheduler.Ext.Scheduler.{Scheduler, new_scheduler, attach, Incoming, spawn_thread_and_wait}

-- What a part of the program comes to: it gives its result, fails, panics, or still waits.
pub data Ending (S E : Type 0) : Type 0 where
  gives : S → Ending S E
  fails : E → S → Ending S E
  panics : Ending S E
  waits : S → Ending S E

module _ ⦃rt : Runtime⦄ where
  open rt use {Thread, Values, Error, Function, State, create_thread}

  -- `TaskManager::new`, `Scheduler::new` and `attach`; none where `expect` panics.
  unfoldable pub make_scheduler : World → Option Scheduler
  unfolding new_scheduler attach
  make_scheduler w = elim (attach (new_scheduler w)) [ err e ↦ none | ok s ↦ some s ]

  -- `task_mgr.run_in_task()`, whose task is first polled in the world `later`
  unfoldable pub begin : Scheduler → (later : World) → Option (Flow Loop)
  unfolding run_in_task
  begin s later = run_in_task s.task_manager later

  -- Reading and compiling a script.
  pub record Loading (File : Type 0) : Type 1 where
    pub Code : Type 0
    pub Name : Type 0
    pub read_to_string : File → Result Code Error
    pub canonicalize : File → Result Name Error
    pub into_function : Code → Name → State → Result Function Error × State

  module _ {File : Type 0} (disk : Loading File) (no_values : Values) where
    open disk use {Code, Name, read_to_string, canonicalize, into_function}

    abbrev lua_of : State → Scheduler → Scheduler
    lua_of l s = record s { task_manager = record s.task_manager { lua = l } }

    -- The output, an error included, is printed and dropped.
    unfoldable pub printed :
        Scheduler
        → Result (Scheduler × Option (Option (Result Values Error))) String
        → Ending Scheduler Error
    printed s (err e) = gives s
    printed s (ok (t, none)) = waits t
    printed s (ok (t, some output)) = gives t

    unfoldable pub script_runs :
        (tracker_attached : Bool)
        → List Incoming
        → Result Thread Error
        → Scheduler
        → Ending Scheduler Error
    unfolding spawn_thread_and_wait printed
    script_runs tracker es (err e) s = fails e s
    script_runs tracker es (ok th) s =
        let output = spawn_thread_and_wait tracker "SpawnScript" th no_values es s in
        if s.attached then printed s output else panics

    unfoldable pub script_made :
        (tracker_attached : Bool)
        → List Incoming
        → Result Function Error
        → Scheduler
        → Ending Scheduler Error
    unfolding script_runs
    script_made tracker es (err e) s = fails e s
    script_made tracker es (ok f) s =
        let (th, l) = create_thread f s.lua in script_runs tracker es th (lua_of l s)

    unfoldable pub script_read :
        (tracker_attached : Bool)
        → List Incoming
        → Result Code Error
        → Result Name Error
        → Scheduler
        → Ending Scheduler Error
    unfolding script_made
    script_read tracker es (err e) name s = fails e s
    script_read tracker es (ok code) (err e) s = fails e s
    script_read tracker es (ok code) (ok name) s =
        let (f, l) = into_function code name s.lua in script_made tracker es f (lua_of l s)

    unfoldable pub spawn_script :
        (tracker_attached : Bool) → List Incoming → File → Scheduler → Ending Scheduler Error
    unfolding script_read
    spawn_script tracker es path s =
        script_read tracker es (read_to_string path) (canonicalize path) s

    -- A script of the command line, what the program then meets: the results that come for it, and
    -- what the other tasks do until `wait_till_done` returns; none where it never does.
    pub record Visit : Type 0 where
      pub path : File
      pub incoming : List Incoming
      pub till_done : Scheduler → Option Scheduler

    -- The loop over the paths, and the stop after it. `expect` panics where a script fails.
    unfoldable pub run_scripts :
        (tracker_attached : Bool) → List Visit → Scheduler → Ending Scheduler Error
    unfolding spawn_script call
    run_scripts tracker [] s = gives (record s { task_manager = call stop s.task_manager })
    run_scripts tracker (v ∷ vs) s =
        elim (spawn_script tracker v.incoming v.path s) as (λ _. Ending Scheduler Error) [
          | gives t ↦ elim (v.till_done t) as (λ _. Ending Scheduler Error) [
            | none ↦ waits t
            | some u ↦ run_scripts tracker vs u
          ]
          | fails e t ↦ panics
          | panics ↦ panics
          | waits t ↦ waits t
        ]
