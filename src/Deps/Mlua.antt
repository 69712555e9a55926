-- ===== src/Deps/Mlua.antt =====
-- The Lua virtual machine as the scheduler sees it (the crate mlua): an opaque state, threads with
-- an address, and resumptions that run Lua code. What Lua code does to the task manager while it
-- runs is the list of calls that it makes of the manager, in order.
use mlua_scheduler.Base.{ℕ, ◌≡◌, ◌↔◌, Bool, true, Option, List, String, Result}

-- mlua::ThreadStatus; `other` stands for the statuses that no code here names.
pub data ThreadStatus : Type 0 where
  finished error other : ThreadStatus

-- A call of a public method of the task manager, or of its feedback. Where the method reads the
-- clock, the reading is an argument.
pub data Call (Thread Values Error Fut : Type 0) : Type 0 where
  add_waiting_thread : Thread → Option Values → (duration now : ℕ) → Call Thread Values Error Fut
  add_deferred_thread : Thread → Values → Call Thread Values Error Fut
  add_async : Thread → Fut → Call Thread Values Error Fut
  cancel_task : Thread → Call Thread Values Error Fut
  stop unstop clear : Call Thread Values Error Fut
  on_response : String → Thread → Result Values Error → Call Thread Values Error Fut

-- A resumption: the machine afterwards, the calls that were made, and what the thread gave.
pub record Ran (Thread Values Error Fut State : Type 0) : Type 0 where
  pub lua : State
  pub calls : List (Call Thread Values Error Fut)
  pub result : Result Values Error

pub record Mlua : Type 1 where
  pub Thread : Type 0
  pub Values : Type 0
  pub Error : Type 0
  pub Fut : Type 0
  pub Function : Type 0
  pub F64 : Type 0
  pub State : Type 0
  pub to_pointer : Thread → ℕ
  pub same_thread : Thread → Thread → Bool
  pub same_thread_iff : (s t : Thread) → (same_thread s t ≡ true) ↔ (to_pointer s ≡ to_pointer t)
  pub is_alive : State → Bool
  pub status : State → Thread → ThreadStatus
  pub resume : Thread → Values → State → Ran Thread Values Error Fut State
  pub resume_error : Thread → String → State → Ran Thread Values Error Fut State
  pub error_text : Error → String
  pub runtime_error : String → Error
  pub create_thread : Function → State → Result Thread Error × State
  pub close : Thread → State → Result (Unit {0}) Error × State
  pub as_secs_f64 : ℕ → F64
  pub from_f64 : F64 → Values
