-- ===== src/V2/Uninterrupted.antt =====
-- taskmgr_v2.rs: without interruption the steps of V2.Parallel are push_event and the update of
-- `done`.
use mlua_scheduler.Base.{◌≡◌, refl, ap, Bool, ◌&&◌, List, [], ◌∷◌, arith}
use mlua_scheduler.Deps.Runtime.{Runtime}
use mlua_scheduler.V2.State.{Loop, SchedulerEvent, push_event}
use mlua_scheduler.V2.Run.{all_empty, update_done}
use mlua_scheduler.V2.Parallel.{
  End, checking, waiting, Pusher, before, pushed, Parallel, push_move, push_step, end_step, pusher,
  body_end, move, run,
}

module _ ⦃rt : Runtime⦄ where
  open rt use {is_empty, no_entries, no_futures}

  abbrev pub of_loop : Loop → End → List Pusher → Parallel
  of_loop s a ps = record {
    shared = record { done = s.done; events = s.events };
    others_empty =
        no_futures s.async_queue
        && no_entries s.wait_queue
        && is_empty s.deferred_queue
        && is_empty s.cancel_events;
    at = a;
    pushers = ps;
  }

  abbrev pub with_event : SchedulerEvent → Loop → Loop
  with_event e s = record s { world = record s.world { core = push_event e s.core } }

  and_last : (a b c d e : Bool) → ((a && b && c && e) && d) ≡ (a && b && c && d && e)
  and_last a b c d e = ground arith

  -- A call of push_event that is not interrupted is the model's push_event, and the end of the body
  -- without interruption is the model's update of `done`.
  pub run-of_loop :
      (e : SchedulerEvent) (s : Loop) (a : End) (ps : List Pusher)
      → (run (pusher 0 ∷ pusher 0 ∷ []) (of_loop s a (before e ∷ ps))
          ≡ of_loop (with_event e s) a (pushed ∷ ps))
        × (run (body_end ∷ body_end ∷ []) (of_loop s checking ps)
            ≡ of_loop (update_done s) waiting ps)
  unfolding run move end_step push_step push_move push_event update_done all_empty
  run-of_loop e s a ps = (
    refl,
    ap (λ b. record (of_loop s waiting ps) { shared = record { done = b; events = s.events } })
        (and_last (no_futures s.async_queue) (no_entries s.wait_queue) (is_empty s.deferred_queue)
          (is_empty s.events) (is_empty s.cancel_events)),
  )
