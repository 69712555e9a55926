-- ===== src/Contract/Waits.antt =====
-- The specification where the only jobs are waits, which may not be dropped: what is left of a
-- thread.
use mlua_scheduler.Base.{
  ℕ, ◌+◌, ◌≡◌, refl, sym, ap, ◌∙◌, List, [], ◌∷◌, All, arith, ◌==◌, if◌then◌else◌,
}
use mlua_scheduler.Contract.Bag.{put_all}
use mlua_scheduler.Contract.Spec.{
  Job, Rules, Report, State, thread_of, wait as wait_job, deferred as deferred_job,
  async as async_job,
}
use mlua_scheduler.Contract.Conserve.{Answered, none_yet, other, answer, Account}
use mlua_scheduler.Contract.Tally.{sum, sum-append, weight, weight-put_all}

abbrev pub NotWait : {Thread Values Fut : Type 0} → Job Thread Values Fut → Type 0
NotWait (wait_job t args) = ⊥
NotWait (deferred_job t args) = Unit
NotWait (async_job t fut) = Unit

-- The rules by which no wait may be dropped, nothing added, and no report made without a job.
abbrev pub only_waits : {Thread Values Error Fut : Type 0} → Rules Thread Values Error Fut
only_waits = record { may_drop = NotWait; may_add = λ j. ⊥; may_report = λ r. ⊥ }

abbrev pub not_wait : {Thread Values Fut : Type 0} → Job Thread Values Fut → ℕ
not_wait (wait_job t args) = 0
not_wait (deferred_job t args) = 1
not_wait (async_job t fut) = 1

abbrev pub one_for : {Thread : Type 0} → (Thread → ℕ) → ℕ → Thread → ℕ
one_for id k t = if id t == k then 1 else 0

-- The waits of the threads with id `k`, and their reports.
abbrev pub wait_of : {Thread Values Fut : Type 0} → (Thread → ℕ) → ℕ → Job Thread Values Fut → ℕ
wait_of id k (wait_job t args) = one_for id k t
wait_of id k (deferred_job t args) = 0
wait_of id k (async_job t fut) = 0

abbrev pub report_for :
    {Thread Values Error : Type 0} → (Thread → ℕ) → ℕ → Report Thread Values Error → ℕ
report_for id k r = one_for id k r.thread

module _ {Thread Values Fut : Type 0} (id : Thread → ℕ) (k : ℕ) where
  waits-sum :
      (js : List (Job Thread Values Fut))
      → sum not_wait js ≡ 0
      → sum (λ j. one_for id k (thread_of j)) js ≡ sum (wait_of id k) js
  unfolding sum
  waits-sum [] e = refl
  waits-sum (wait_job t args ∷ js) e = omega (arith, waits-sum js (omega arith))
  waits-sum (deferred_job t args ∷ js) e = absurd (omega arith)
  waits-sum (async_job t fut ∷ js) e = absurd (omega arith)

  dropped-sum : (js : List (Job Thread Values Fut)) → All NotWait js → sum (wait_of id k) js ≡ 0
  unfolding sum
  dropped-sum [] h = refl
  dropped-sum (wait_job t args ∷ js) (h, hs) = absurd h
  dropped-sum (deferred_job t args ∷ js) (h, hs) = omega (arith, dropped-sum js hs)
  dropped-sum (async_job t fut ∷ js) (h, hs) = omega (arith, dropped-sum js hs)

none_added : {A : Type 0} (xs : List A) → All (λ x. ⊥) xs → xs ≡ []
none_added [] h = refl
none_added (x ∷ xs) (h, hs) = absurd h

module _ {Thread Values Error Fut : Type 0} where
  -- The balance of an account, weighed.
  balance :
      {D : Rules Thread Values Error Fut} {s t : State Thread Values Error Fut}
      (p : Job Thread Values Fut → ℕ) (a : Account D s t)
      → sum p a.added + weight p s.jobs ≡ sum p a.served + (sum p a.dropped + weight p t.jobs)
  balance {s} {t} p a =
      sym (weight-put_all p a.added s.jobs)
      ∙ ap (weight p) a.balance
      ∙ weight-put_all p a.served (put_all a.dropped t.jobs)
      ∙ ap (λ n. sum p a.served + n) (weight-put_all p a.dropped t.jobs)

module _ {Thread Values Error Fut : Type 0} (id : Thread → ℕ) (k : ℕ) where
  answered-sum :
      {js : List (Job Thread Values Fut)} {rs : List (Report Thread Values Error)}
      → Answered (λ r. ⊥) js rs
      → sum (report_for id k) rs ≡ sum (λ j. one_for id k (thread_of j)) js
  unfolding sum
  answered-sum none_yet = refl
  answered-sum (other r a o) = absurd o
  answered-sum (answer j r e a) = omega (arith, answered-sum a, ap (one_for id k) e)

  -- How often a thread waits and how often it was reported, together, stays the same.
  pub Account-waits :
      {s t : State Thread Values Error Fut}
      → Account only_waits s t
      → weight not_wait s.jobs ≡ 0
      → weight (wait_of id k) s.jobs + sum (report_for id k) s.reports
        ≡ weight (wait_of id k) t.jobs + sum (report_for id k) t.reports
  unfolding sum
  Account-waits {s} {t} a only =
      let none = none_added a.added a.wanted in
      let kinds = balance not_wait a in
      let waits = balance (wait_of id k) a in
      let served =
        answered-sum a.answered
        ∙ waits-sum id k a.served (omega (arith, kinds, ap (sum not_wait) none, only)) in
      omega (
        arith,
        waits,
        served,
        ap (sum (wait_of id k)) none,
        dropped-sum id k a.dropped a.droppable,
        ap (sum (report_for id k)) a.reported,
        sum-append (report_for id k) s.reports a.new,
      )
