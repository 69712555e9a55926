-- ===== src/Lib.antt =====
-- Verification library of mlua_scheduler, a scheduler for Lua threads on tokio.
--
-- The program. A task manager keeps Lua threads that wait (task.wait, task.delay), threads that are
-- deferred (task.defer) and the futures of async functions, and resumes them. There are two
-- managers behind one interface (crates/scheduler/src/taskmgr.rs): the first (taskmgr_v1.rs) polls its
-- queues on a ticker, the second (taskmgr_v2.rs) is a loop over `tokio::select!` that is sent
-- events. Lua code reaches them by the library `task` (userdata.rs) and by async functions
-- (async.rs). Each resumption is reported to a feedback; crates/ext has feedbacks that chain
-- and that track one thread (feedbacks.rs), and a Scheduler with an exit code (lib.rs).
--
-- The files.
--   Base, Collections: lists, Boolean tests, results, sets and maps as lists.
--   Deps: what the crates take from third parties, as records of operations and documented laws:
--     mlua, tokio's channels, the delay queue, the future set, the binary heap. A resumption gives
--   the machine's next state, the calls that Lua code made of the manager, in order, and a result.
--   Deps.Samples and Deps.SampleHeap are concrete instances, so the laws can hold.
--   V2.State, V2.Arms, V2.Run: taskmgr_v2.rs. `start` is `run` up to its first wait; `select` is the
--   branch that `tokio::select!` takes, chosen by an `Arm`; `round` is a branch, the update of `done`
--   and the head of the loop; `happen` is a round or a call from outside. `Flow` says how a branch
--   ends: at the end of the body, by `continue`, by `return`, by a panic, or never.
--   `Panic` lists the panics, that of `DelayQueue::insert` for a time too far ahead included.
--   V2.Calls, V2.Keys, V2.Invariant, V2.Rounds, V2.Reach: the invariant and that each step keeps it.
--   V2.Safety, V2.Deferred, V2.Cancel, V2.Wake, V2.Outcomes, V2.Work, V2.Progress: what it promises.
--   Contract: an abstract manager, which holds a bag of jobs (a quotient of lists, Contract.Bag) and a
--     list of reports. Contract.Spec.Steps says what may become of it under given rules, Contract.Asks
--     what Lua code and other code must ask for to keep to the rules, Contract.Conserve what follows;
--     Contract.Tally and Contract.Waits count the waits and the reports of one thread.
--   V2.View, V2.Branches, V2.Follow, V2.Refine: taskmgr_v2.rs implements it; V2.Marks: which threads are
--     marked as cancelled; V2.Account, V2.NoLoss: what that gives for whole schedules.
--   V2.Resumes: what one resumption leaves, with its report.
--   V2.Sleeps, V2.Clear, V2.Stop: a wait from its event to its run; the `Clear` event, after which the
--     loop over the deferred channel waits for its own sender; `stop` of a run that is idle.
--   V2.Parallel, V2.Uninterrupted, V2.Settles: push_event on another thread than `run`.
--   Cells: the cells of crates/scheduler/src/lib.rs (Cell), and the counter of async functions of
--     taskmgr_v1.rs where its load and its store are steps of their own (Counter, Bounds, Turns, Lost).
--   V1.State, V1.Process: taskmgr_v1.rs; V1.Queues, V1.Loops, V1.Pass, V1.Stop: its
--     queues, loops, a whole pass and `run` from start to stop, for Lua code that makes no calls;
--     V1.Measure, V1.Due, V1.Ends, V1.Halts: the same for Lua code that calls; V1.Starve: a thread that
--     defers itself.
--   V1.View, V1.Serve, V1.Refine: taskmgr_v1.rs implements the abstract manager too.
--   Managers: the two managers side by side.
--   TaskManager: attach, run_in_task and wait_till_done of taskmgr.rs. Its other methods are
--   V2.State.call_core and V1.State.call_inner.
--   TaskLib: userdata.rs (Defs, Laws), and with taskmgr_v2.rs (Defers, Delays).
--   AsyncFunction: async.rs (Defs: both variants; Calls: the calls over the second manager, and
--     methods of userdata; Count, Agree, Enters: what they do).
--   Cli: crates/cli/src/main.rs: the functions for scripts (Integers, Functions, Bodies), the feedback
--     (Feedback), the global table (Globals), the making of the scheduler and the loop over scripts
--     (Program, Starts, Scripts).
--   Ext: feedbacks.rs (Feedbacks, Tracking) lib.rs (Scheduler, Spawn, Exit) and traits.rs
--     (Traits, Push) of crates/ext/src.
--   Tests: runs on concrete inputs.
--
-- The model. State is passed on; times and durations are numbers; `usize` counters wrap at 2 ^ 64;
-- thread ids are addresses. The choice of a branch, the clock, the outcome of a future and
-- the other tasks are arguments, over which the theorems quantify. The loops of the first manager
-- run on fuel, one round more than there are entries in the queue; the theorems about them show
-- that this is enough. The second manager is a relation on the states in which it waits.
--
-- Not modelled: the flume variant of the receivers; of the command line program, the parsing of
-- arguments, the setting of the globals and the other calls of mlua in the set-up, with their
-- `expect`s, the sandbox of the machine, the ticker and the tokio runtime; logging; and of `send`
-- mode, all that runs in parallel but the counter of the first manager and `done` of the second.
pub mod Base
pub mod Collections
pub mod Deps
pub mod Contract
pub mod Cells
pub mod V1
pub mod V2
pub mod TaskManager
pub mod TaskLib
pub mod AsyncFunction
pub mod Ext
pub mod Cli
pub mod Managers
pub mod Tests
