-- ===== src/V2/State.antt =====
-- The data of taskmgr_v2.rs: the events, the shared CoreScheduler, and the local variables of `run`.
--
-- A channel's two ends are one value; `rx` and `cancel_rx` say whether the scheduler still holds the
-- receiving end. Thread ids (`XId`) are addresses. The world is the manager together with the Lua
-- machine that it refers to weakly, and the calls of its feedback, oldest first.
use mlua_scheduler.Base.{ℕ, Bool, true, false, Option, List, [], ◌∷◌, ◌++◌, String, Result}
use mlua_scheduler.Collections.{insert}
use mlua_scheduler.Deps.Mlua.{
  Call, add_waiting_thread, add_deferred_thread, add_async, cancel_task, stop, unstop, clear,
  on_response,
}
use mlua_scheduler.Deps.Runtime.{Runtime}

module _ ⦃rt : Runtime⦄ where
  open rt use {Thread, Values, Error, Fut, State, Chan, DelayQueue, Pool}
  open rt use {unbounded_channel, send, new_queue, new_pool, to_pointer, is_alive}

  pub record WaitingThread : Type 0 where
    pub delay_args : Option Values
    pub start_at : ℕ
    pub thread : Thread

  pub record DeferredThread : Type 0 where
    pub thread : Thread
    pub args : Values
    pub xid : ℕ

  pub data SchedulerEvent : Type 0 where
    wait : (delay_args : Option Values) (thread : Thread) (start_at duration : ℕ) → SchedulerEvent
    deferred_thread : Thread → Values → SchedulerEvent
    add_async_event : Thread → Fut → SchedulerEvent
    clear_event close_event : SchedulerEvent

  -- A call of SchedulerFeedback::on_response.
  pub record Response : Type 0 where
    pub label : String
    pub thread : Thread
    pub result : Result Values Error

  pub record CoreScheduler : Type 0 where
    pub is_running : Bool
    pub is_cancelled : Bool
    pub events : Chan SchedulerEvent
    pub rx : Bool
    pub cancel_events : Chan ℕ
    pub cancel_rx : Bool
    pub cancel : List ℕ
    pub done : Bool

  pub record World : Type 0 where
    pub lua : State
    pub core : CoreScheduler
    pub open core use *
    pub responses : List Response

  -- CoreScheduler::new
  unfoldable pub new : CoreScheduler
  new = record {
    is_running = false;
    is_cancelled = false;
    events = unbounded_channel;
    rx = true;
    cancel_events = unbounded_channel;
    cancel_rx = true;
    cancel = [];
    done = true;
  }

  abbrev pub from_ptr : Thread → ℕ
  from_ptr t = to_pointer t

  unfoldable pub check_lua : World → Bool
  check_lua w = is_alive w.lua

  -- CoreScheduler::push_event
  unfoldable pub push_event : SchedulerEvent → CoreScheduler → CoreScheduler
  push_event e c = record c { done = false; events = send e c.events }

  -- CoreScheduler::cancel_task
  unfoldable pub mark_cancelled : ℕ → CoreScheduler → CoreScheduler
  unfolding insert
  mark_cancelled xid c = record c { cancel = insert xid c.cancel }

  unfoldable pub respond : String → Thread → Result Values Error → World → World
  respond label t r w = record w {
    responses = w.responses ++ record { label = label; thread = t; result = r } ∷ [];
  }

  -- The methods of TaskManager (taskmgr.rs) over this manager.
  unfoldable pub call_core : Call Thread Values Error Fut → CoreScheduler → CoreScheduler
  unfolding push_event mark_cancelled
  call_core (add_waiting_thread t args duration now) c = push_event (wait args t now duration) c
  call_core (add_deferred_thread t args) c = push_event (deferred_thread t args) c
  call_core (add_async t fut) c = push_event (add_async_event t fut) c
  call_core (cancel_task t) c = mark_cancelled (from_ptr t) c
  call_core stop c = record c { is_cancelled = true }
  call_core unstop c = record c { is_cancelled = false }
  call_core clear c = push_event clear_event c
  call_core (on_response _ _ _) c = c

  unfoldable pub call : Call Thread Values Error Fut → World → World
  unfolding call_core respond
  call (on_response label t r) w = respond label t r w
  call c w = record w { core = call_core c w.core }

  unfoldable pub calls : List (Call Thread Values Error Fut) → World → World
  unfolding call
  calls [] w = w
  calls (c ∷ cs) w = calls cs (call c w)

  -- The local variables of `run`.
  pub record Locals : Type 0 where
    pub wait_queue : DelayQueue WaitingThread
    pub async_queue : Pool
    pub wait_keys : List (ℕ × List ℕ)
    pub deferred_queue : Chan DeferredThread
    pub known_deferred_threads : List ℕ

  unfoldable pub new_locals : Locals
  new_locals = record {
    wait_queue = new_queue;
    async_queue = new_pool;
    wait_keys = [];
    deferred_queue = unbounded_channel;
    known_deferred_threads = [];
  }

  pub record Loop : Type 0 where
    pub world : World
    pub open world use *
    pub locals : Locals
    pub open locals use *
