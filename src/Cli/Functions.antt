-- ===== src/Cli/Functions.antt =====
-- crates/cli/src/main.rs: the async functions that the program gives to its scripts, and its
-- feedback.
--
-- How a number is printed is the standard library's part, how an error is made of a text is mlua's:
-- parameters.
use Prim.Native.String.{◌++◌ as str_append}
use mlua_scheduler.Base.{
  ℕ, ◌≡◌, ◌≤◌, Bool, false, List, [], ◌∷◌, ◌++◌, String, Result, ok, err, if◌then◌else◌,
}
use mlua_scheduler.Deps.Futures.{Payload, text}
use mlua_scheduler.Deps.Runtime.{Runtime}
use mlua_scheduler.Ext.Feedbacks.{SchedulerFeedback}
use mlua_scheduler.Cli.Integers.{ℤ, rem, equals}

-- f64 seconds as the program compares them; `Duration::from_secs_f64` panics with a text on what is
-- no duration.
pub record Sleeping (F64 : Type 0) : Type 0 where
  pub less_than : F64 → F64 → Bool
  pub zero_secs : F64
  pub least : F64
  pub tenth : F64
  pub from_secs_f64 : F64 → Result ℕ String
  -- `least` is 0.05 and `tenth` is 0.10: as nanoseconds, fifty and a hundred million
  pub from_tenth : from_secs_f64 tenth ≡ ok 100_000_000
  pub from_least :
      (t : F64) {d : ℕ} → less_than t least ≡ false → from_secs_f64 t ≡ ok d → 50_000_000 ≤ d

-- What the body of an async function comes to: a result at once, a sleep and then the time that it
-- took, or a panic.
pub data Body (A E : Type 0) : Type 0 where
  gives : Result A E → Body A E
  sleeps : (nanoseconds : ℕ) → Body A E
  panics : Payload → Body A E

module _ ⦃rt : Runtime⦄ (external : String → rt.Error) (to_string : ℤ → String) where
  open rt use {Error, F64}

  -- `Duration::from_secs_f64(n)` and the sleep
  unfoldable pub sleep_for : Result ℕ String → Body F64 Error
  sleep_for (err e) = panics (text e)
  sleep_for (ok d) = sleeps d

  -- _TEST_ASYNC_WORK
  unfoldable pub test_async_work : Sleeping F64 → F64 → Body F64 Error
  unfolding sleep_for
  test_async_work sec n =
      let asleep =
        sleep_for (sec.from_secs_f64 (if sec.less_than n sec.least then sec.tenth else n)) in
      if sec.less_than n sec.zero_secs then gives (err (external "Negative sleep time")) else asleep

  -- _ERROR
  unfoldable pub error_body : ℤ → Body String Error
  unfolding rem equals
  error_body n =
      if equals (rem n 10) 3
      then gives (ok (str_append "Y" (to_string n)))
      else gives (err (external (to_string n)))

  -- _PANIC
  unfoldable pub panic_body : ℤ → Body (Unit {0}) Error
  panic_body n = panics (text (str_append "Panic test: " (to_string n)))

module _ ⦃rt : Runtime⦄ where
  open rt use {Error, error_text}

  -- TaskPrintError, whose state is the lines that went to the standard error
  unfoldable pub task_print_error : SchedulerFeedback (List String)
  task_print_error = record {
    on_response = λ label t r lines. elim r [
      | ok v ↦ lines
      | err e ↦ lines ++ str_append "Error: " (error_text e) ∷ []
    ];
  }
