-- ===== src/Cli/Feedback.antt =====
-- crates/cli/src/main.rs: the feedback of the program, the tracker chained with the printing of
-- errors.
use Prim.Native.String.{◌++◌ as str_append}
use mathlib.Core.List.{append_assoc, append-nil}
use mlua_scheduler.Base.{◌≡◌, refl, sym, ap, ◌∙◌, List, [], ◌∷◌, ◌++◌, String, Result, ok, err}
use mlua_scheduler.Deps.Runtime.{Runtime}
use mlua_scheduler.V2.State.{Response}
use mlua_scheduler.Ext.Feedbacks.{SchedulerFeedback, chain, feed, ThreadTracker, tracker}
use mlua_scheduler.Ext.Tracking.{feed-chain}
use mlua_scheduler.Cli.Functions.{task_print_error}

module _ ⦃rt : Runtime⦄ where
  open rt use {Values, Error, error_text}

  -- `ChainFeedback::new(thread_tracker, TaskPrintError {})`
  unfoldable pub program_feedback : SchedulerFeedback (ThreadTracker × List String)
  unfolding chain tracker task_print_error
  program_feedback = chain tracker task_print_error

  abbrev error_line : Result Values Error → List String
  error_line (ok v) = []
  error_line (err e) = str_append "Error: " (error_text e) ∷ []

  -- A line for each error among the responses, in their order.
  abbrev pub error_lines : List Response → List String
  error_lines [] = []
  error_lines (r ∷ rs) = error_line r.result ++ error_lines rs

  print-line :
      (r : Response) (lines : List String)
      → task_print_error.on_response r.label r.thread r.result lines ≡ lines ++ error_line r.result
  unfolding task_print_error
  print-line r lines = by_result r.result
    where
      by_result :
          (x : Result Values Error)
          → (elim x as (λ _. List String) [
            | ok v ↦ lines
            | err e ↦ lines ++ str_append "Error: " (error_text e) ∷ []
          ])
            ≡ lines ++ error_line x
      by_result (ok v) = sym (append-nil lines)
      by_result (err e) = refl

  feed-print :
      (rs : List Response) (lines : List String)
      → feed task_print_error rs lines ≡ lines ++ error_lines rs
  unfolding feed
  feed-print [] lines = sym (append-nil lines)
  feed-print (r ∷ rs) lines =
      ap (feed task_print_error rs) (print-line r lines)
      ∙ feed-print rs (lines ++ error_line r.result)
      ∙ append_assoc lines (error_line r.result) (error_lines rs)

  -- Whatever responses come: the program prints one line for each that is an error, in their order,
  -- and nothing else; and its tracker ends as if it had been told of them alone.
  feed-program_feedback :
      (rs : List Response) (s : ThreadTracker) (lines : List String)
      → feed program_feedback rs (s, lines) ≡ (feed tracker rs s, lines ++ error_lines rs)
  unfolding program_feedback
  feed-program_feedback rs s lines =
      feed-chain tracker task_print_error rs s lines
      ∙ ap (λ l. (feed tracker rs s, l)) (feed-print rs lines)
