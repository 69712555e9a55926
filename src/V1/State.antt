-- ===== src/V1/State.antt =====
-- The data of taskmgr_v1.rs, and the methods of TaskManager (taskmgr.rs) over it.
--
-- `usize` counters wrap at 2 ^ 64, as in a release build. Instants and durations are numbers.
use Prim.Native.Nat.{compare, Ordering}
use mlua_scheduler.Base.{
  ℕ, ◌+◌, ◌-◌, ◌%◌, ◌^◌, Bool, true, false, not, Option, none, some, List, [], ◌∷◌, ◌++◌, String,
  Result, ◌==◌, length, filter,
}
use mlua_scheduler.Deps.Mlua.{
  Mlua, Call, Ran, add_waiting_thread, add_deferred_thread, add_async, cancel_task, stop, unstop,
  clear, on_response,
}
use mlua_scheduler.Deps.BinaryHeap.{BinaryHeap}

module _ ⦃m : Mlua⦄ where
  open m use {Thread, Values, Error, Fut, State, same_thread, is_alive}

  pub data WaitOp : Type 0 where
    wait : WaitOp
    delay : (args : Values) → WaitOp

  pub record WaitingThread : Type 0 where
    pub thread : Thread
    pub op : WaitOp
    pub start : ℕ
    pub wake_at : ℕ

  -- Ord::cmp, in reverse order of the time to wake.
  abbrev pub cmp : WaitingThread → WaitingThread → Ordering
  cmp a b = compare b.wake_at a.wake_at

  -- `a <= b` in that order
  abbrev pub at_most : WaitingThread → WaitingThread → Bool
  at_most a b = elim (cmp a b) [ Ordering.gt ↦ false | _ ↦ true ]

  pub record DeferredThread : Type 0 where
    pub thread : Thread
    pub args : Values

  pub record Response : Type 0 where
    pub label : String
    pub thread : Thread
    pub result : Result Values Error

module _ ⦃m : Mlua⦄ ⦃h : BinaryHeap WaitingThread at_most⦄ where
  open m use {Thread, Values, Error, Fut, State, same_thread, is_alive}
  open h use {Heap, new_heap, push, retain, len}

  -- The spawned tasks of the JoinSet are those of the async functions that have not ended.
  pub record TaskManagerInner : Type 0 where
    pub pending_asyncs : ℕ
    pub waiting_queue : Heap
    pub deferred_queue : List DeferredThread
    pub is_running : Bool
    pub is_cancelled : Bool
    pub async_task_executor : List (Thread × Fut)

  pub record World : Type 0 where
    pub lua : State
    pub inner : TaskManagerInner
    pub open inner use *
    pub responses : List Response

  unfoldable pub new : TaskManagerInner
  new = record {
    pending_asyncs = 0;
    waiting_queue = new_heap;
    deferred_queue = [];
    is_running = false;
    is_cancelled = false;
    async_task_executor = [];
  }

  unfoldable pub check_lua : World → Bool
  check_lua w = is_alive w.lua

  unfoldable pub waiting_len : TaskManagerInner → ℕ
  waiting_len c = len c.waiting_queue

  unfoldable pub deferred_len : TaskManagerInner → ℕ
  deferred_len c = length c.deferred_queue

  -- The three counts are added as `usize`.
  unfoldable pub total_len : TaskManagerInner → ℕ
  unfolding waiting_len deferred_len
  total_len c = (waiting_len c + deferred_len c + c.pending_asyncs) % 2 ^ 64

  unfoldable pub is_empty : TaskManagerInner → Bool
  unfolding total_len
  is_empty c = total_len c == 0

  unfoldable pub incr_async : TaskManagerInner → TaskManagerInner
  incr_async c = record c { pending_asyncs = (c.pending_asyncs + 1) % 2 ^ 64 }

  unfoldable pub decr_async : TaskManagerInner → TaskManagerInner
  decr_async c = record c { pending_asyncs = (c.pending_asyncs + 2 ^ 64 - 1) % 2 ^ 64 }

  unfoldable pub add_waiting : Thread → Option Values → ℕ → ℕ → TaskManagerInner → TaskManagerInner
  add_waiting t args duration now c =
      let op = elim args as (λ _. WaitOp) [ some a ↦ delay a | none ↦ wait ] in
      record c {
        waiting_queue =
            push (record { thread = t; op = op; start = now; wake_at = now + duration })
              c.waiting_queue;
      }

  -- `push_back`
  unfoldable pub add_deferred : Thread → Values → TaskManagerInner → TaskManagerInner
  add_deferred t args c = record c {
    deferred_queue = c.deferred_queue ++ record { thread = t; args = args } ∷ [];
  }

  unfoldable pub cancel : Thread → TaskManagerInner → TaskManagerInner
  unfolding filter
  cancel t c = record c {
    waiting_queue = retain (λ x. not (same_thread x.thread t)) c.waiting_queue;
    deferred_queue = filter (λ x. not (same_thread x.thread t)) c.deferred_queue;
  }

  -- The methods of TaskManager that Lua code reaches; the start of an async function counts it and
  -- spawns its task.
  unfoldable pub call_inner : Call Thread Values Error Fut → TaskManagerInner → TaskManagerInner
  unfolding add_waiting add_deferred cancel incr_async
  call_inner (add_waiting_thread t args duration now) c = add_waiting t args duration now c
  call_inner (add_deferred_thread t args) c = add_deferred t args c
  call_inner (add_async t fut) c = record (incr_async c) {
    async_task_executor = (t, fut) ∷ c.async_task_executor;
  }
  call_inner (cancel_task t) c = cancel t c
  call_inner stop c = record c { is_cancelled = true }
  call_inner unstop c = record c { is_cancelled = false }
  call_inner clear c = record c { waiting_queue = h.clear c.waiting_queue; deferred_queue = [] }
  call_inner (on_response _ _ _) c = c

  unfoldable pub respond : String → Thread → Result Values Error → World → World
  respond label t r w = record w {
    responses = w.responses ++ record { label = label; thread = t; result = r } ∷ [];
  }

  unfoldable pub call : Call Thread Values Error Fut → World → World
  unfolding call_inner respond
  call (on_response label t r) w = respond label t r w
  call c w = record w { inner = call_inner c w.inner }

  unfoldable pub calls : List (Call Thread Values Error Fut) → World → World
  unfolding call
  calls [] w = w
  calls (c ∷ cs) w = calls cs (call c w)

  -- A resumption without the feedback: the machine, then what its code called.
  unfoldable pub ran : Ran Thread Values Error Fut State → World → World
  unfolding calls
  ran r w = calls r.calls (record w { lua = r.lua })
