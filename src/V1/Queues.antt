-- ===== src/V1/Queues.antt =====
-- taskmgr_v1.rs: the queues: who is next, who is cancelled, what is counted.
use mathlib.Core.Option
use mathlib.Core.Option.{some-injective}
use native.Mathlib.Nat.{mod-eq_of_lt}
use mlua_scheduler.Base.{
  ℕ, ◌+◌, ◌^◌, ◌≤◌, ◌<◌, ◌≡◌, ◌⊎◌, ◌↔◌, refl, sym, ap, subst, ◌∙◌, Bool, true, false, not, none,
  some, List, [], ◌∷◌, ◌++◌, arith, Perm, All, ltb, filter, length, All-of_perm, uncons-eq-some,
  uncons-eq-none, Option-cases, Bool-cases, inl, inr, ==_iff, nil_of_length,
}
use mlua_scheduler.Deps.Mlua.{Mlua}
use mlua_scheduler.Deps.BinaryHeap.{BinaryHeap, Descending}
use mlua_scheduler.V1.State.{
  WaitingThread, DeferredThread, at_most, TaskManagerInner, cancel, total_len, is_empty, incr_async,
  decr_async,
}
use mlua_scheduler.V1.Process.{next_waiting, pop_back}

module _ ⦃m : Mlua⦄ ⦃h : BinaryHeap WaitingThread at_most⦄ where
  open m use {Thread, same_thread, same_thread_iff}
  open h use {
    Heap, items, pop, peek, items-pop, peek_lem, items-Descending, items-retain, len-items,
  }

  pop-items :
      (q : Heap) {e : WaitingThread} {r : Heap} → pop q ≡ some (e, r) → items q ≡ e ∷ items r
  pop-items q p = uncons-eq-some (items q) (sym (items-pop q) ∙ ap (Option.map _) p)

  pop-none : (q : Heap) → pop q ≡ none → items q ≡ []
  pop-none q p = uncons-eq-none (items q) (sym (items-pop q) ∙ ap (Option.map _) p)

  none_behind :
      (now : ℕ) (e : WaitingThread) (es : List WaitingThread)
      → now < e.wake_at
      → All (λ x. at_most x e ≡ true) es
      → All (λ x. now < x.wake_at) es
  none_behind now e [] late a = tt
  none_behind now e (x ∷ xs) late (p, ps) = (ground arith, none_behind now e xs late ps)

  none_left :
      (t : Thread) (xs : List WaitingThread)
      → All (λ x. same_thread x.thread t ≡ false) (filter (λ x. not (same_thread x.thread t)) xs)
  unfolding filter
  none_left t [] = tt
  none_left t (x ∷ xs) = ground (arith, none_left t xs)

  none_left_deferred :
      (t : Thread) (xs : List DeferredThread)
      → All (λ x. same_thread x.thread t ≡ false) (filter (λ x. not (same_thread x.thread t)) xs)
  unfolding filter
  none_left_deferred t [] = tt
  none_left_deferred t (x ∷ xs) = ground (arith, none_left_deferred t xs)

  wake_order :
      (e : WaitingThread) (es : List WaitingThread)
      → All (λ x. at_most x e ≡ true) es
      → All (λ x. e.wake_at ≤ x.wake_at) es
  wake_order e [] a = tt
  wake_order e (x ∷ xs) (p, ps) = (ground arith, wake_order e xs ps)

  -- A thread is taken from the waiting queue exactly when one is due: either nothing is taken and
  -- every thread in the queue wakes after `now`, or the one that is taken is due, was in the queue
  -- with the rest, and wakes no later than any of the rest.
  pub next_waiting_cases :
      (now : ℕ) (q : Heap)
      → ((next_waiting now q ≡ none) × All (λ x. now < x.wake_at) (items q))
        ⊎ ((e : WaitingThread) × (r : Heap) × (next_waiting now q ≡ some (e, r))
            × (e.wake_at ≤ now)
            × (items q ≡ e ∷ items r)
            × All (λ x. e.wake_at ≤ x.wake_at) (items r))
  unfolding next_waiting
  next_waiting_cases now q = elim (Option-cases (pop q)) [
    | inl p ↦ inl (rw (top, p, next_waiting) p, rw (pop-none q p) tt)
    | inr (r, p) ↦
        let is = pop-items q p in
        let behind = (subst (Descending at_most) is (items-Descending q)).0 in
        elim (Bool-cases (ltb now r.0.wake_at)) [
          | inl late ↦ inl (
            rw (top, p, next_waiting, late),
            rw is (ground arith, none_behind now r.0 (items r.1) (ground arith) behind),
          )
          | inr due ↦ inr (
            r.0,
            r.1,
            rw (top, p, next_waiting, due) p,
            ground arith,
            is,
            wake_order r.0 (items r.1) behind,
          )
        ]
  ]
    where
      top : peek q ≡ Option.map (λ (a, g). a) (pop q)
      top = peek_lem q

  -- `pop_back` takes what was pushed last.
  pub pop_back-snoc :
      (ds : List DeferredThread) (d : DeferredThread) → pop_back (ds ++ d ∷ []) ≡ some (d, ds)
  unfolding pop_back
  pop_back-snoc [] d = refl
  pop_back-snoc (e ∷ ds) d = rw (pop_back-snoc ds d, pop_back)

  pub pop_back-eq-none : (ds : List DeferredThread) → pop_back ds ≡ none → ds ≡ []
  unfolding pop_back
  pop_back-eq-none [] r = refl
  pop_back-eq-none (x ∷ ds) r = elim (Option-cases (pop_back ds)) [
    | inl n ↦ cc (rw (n, pop_back) at r)
    | inr (p, n) ↦ cc (rw (n, pop_back) at r)
  ]

  -- What `pop_back` takes is the last entry.
  pub pop_back-eq-some :
      (ds : List DeferredThread) {d : DeferredThread} {rest : List DeferredThread}
      → pop_back ds ≡ some (d, rest)
      → ds ≡ rest ++ d ∷ []
  unfolding pop_back
  pop_back-eq-some [] r = cc
  pop_back-eq-some (x ∷ ds) {d} {rest} r = elim (Option-cases (pop_back ds)) [
    | inl n ↦
        ap (◌∷◌ x) (pop_back-eq-none ds n)
        ∙ ap (λ (q : DeferredThread × List DeferredThread). q.1 ++ q.0 ∷ [])
            (some-injective (x, []) (d, rest) (rw (n, pop_back) at r))
    | inr (p, n) ↦
        ap (◌∷◌ x) (pop_back-eq-some ds {d = p.0} {rest = p.1} n)
        ∙ ap (λ (q : DeferredThread × List DeferredThread). q.1 ++ q.0 ∷ [])
            (some-injective (p.0, x ∷ p.1) (d, rest) (rw (n, pop_back) at r))
  ]

  -- Whether an entry is the thread's.
  abbrev is_other : Thread → WaitingThread → Bool
  is_other t x = not (same_thread x.thread t)

  -- `cancel_task` leaves no waiting and no deferred entry of the thread. The entries of other threads
  -- stay: the deferred ones in order, the waiting ones each as often as before. The count of async
  -- functions and the stop flag stay.
  cancel_lem :
      (t : Thread) (c : TaskManagerInner)
      → All (λ x. same_thread x.thread t ≡ false) (cancel t c).deferred_queue
        × ((cancel t c).deferred_queue
            ≡ filter (λ x. not (same_thread x.thread t)) c.deferred_queue)
        × Perm (items (cancel t c).waiting_queue) (filter (is_other t) (items c.waiting_queue))
        × (All (λ x. same_thread x.thread t ≡ false) (items (cancel t c).waiting_queue))
        × ((cancel t c).pending_asyncs ≡ c.pending_asyncs)
        × ((cancel t c).is_cancelled ≡ c.is_cancelled)
  unfolding cancel
  cancel_lem t c = (
    none_left_deferred t c.deferred_queue,
    refl,
    items-retain _ c.waiting_queue,
    All-of_perm _ false (items-retain _ c.waiting_queue) (none_left t (items c.waiting_queue)),
    refl,
    refl,
  )

  -- `is_empty` is true exactly when no thread waits, none is deferred and no async function runs, as
  -- long as the three counts together stay below 2 ^ 64.
  is_empty_iff :
      (c : TaskManagerInner)
      → length (items c.waiting_queue) + length c.deferred_queue + c.pending_asyncs < 2 ^ 64
      → (is_empty c ≡ true)
        ↔ ((items c.waiting_queue ≡ []) × (c.deferred_queue ≡ []) × (c.pending_asyncs ≡ 0))
  unfolding is_empty total_len
  is_empty_iff c small = (
    λ e. (
      nil_of_length _ (omega (arith, counted, (==_iff (total_len c) 0).0 e)),
      nil_of_length _ (omega (arith, counted, (==_iff (total_len c) 0).0 e)),
      omega (arith, counted, (==_iff (total_len c) 0).0 e),
    ),
    λ (a, b, z). (==_iff (total_len c) 0).1 (omega (arith, counted, ap length a, ap length b, z)),
  )
    where
      counted :
          total_len c ≡ length (items c.waiting_queue) + length c.deferred_queue + c.pending_asyncs
      counted = rw len-items (mod-eq_of_lt small)

  -- The end of an async function undoes the count of its start, also where the counter wraps.
  pub decr-incr :
      (c : TaskManagerInner)
      → c.pending_asyncs < 2 ^ 64
      → (decr_async (incr_async c) ≡ c) × (incr_async (decr_async c) ≡ c)
  unfolding incr_async decr_async
  decr-incr c small = ground arith
