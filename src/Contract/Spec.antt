-- ===== src/Contract/Spec.antt =====
-- The abstract specification: a bag of jobs, and the reports that went to the feedback.
use mlua_scheduler.Base.{◌≡◌, refl, sym, subst, List, [], ◌∷◌, ◌++◌, Option, String, Result}
use mlua_scheduler.Contract.Bag.{Bag, put}

-- What a manager can be given: a thread that waits, with the arguments of `task.delay` or without, a
-- thread that is deferred, and a thread with a future.
pub data Job (Thread Values Fut : Type 0) : Type 0 where
  wait : Thread → Option Values → Job Thread Values Fut
  deferred : Thread → Values → Job Thread Values Fut
  async : Thread → Fut → Job Thread Values Fut

abbrev pub thread_of : {Thread Values Fut : Type 0} → Job Thread Values Fut → Thread
thread_of (wait t args) = t
thread_of (deferred t args) = t
thread_of (async t fut) = t

pub record Report (Thread Values Error : Type 0) : Type 0 where
  pub label : String
  pub thread : Thread
  pub result : Result Values Error

pub record State (Thread Values Error Fut : Type 0) : Type 0 where
  pub jobs : Bag (Job Thread Values Fut)
  pub reports : List (Report Thread Values Error)

-- What the specification allows: the jobs that may be dropped, those that may be added, and the
-- reports that may be made without a job.
pub record Rules (Thread Values Error Fut : Type 0) : Type 1 where
  pub may_drop : Job Thread Values Fut → Type 0
  pub may_add : Job Thread Values Fut → Type 0
  pub may_report : Report Thread Values Error → Type 0

module _ {Thread Values Error Fut : Type 0} where
  -- What can come of a state. A job is added, or a report is made that no job stands for, if the
  -- rules allow it. A job is dropped, if they allow it, or it is served: it leaves the bag, Lua
  -- code and other tasks act, and the result of its thread is reported.
  pub data Steps (D : Rules Thread Values Error Fut)
      : State Thread Values Error Fut → State Thread Values Error Fut → Type 0 where
    done : (s : State Thread Values Error Fut) → Steps D s s
    add :
        {s t : State Thread Values Error Fut} (j : Job Thread Values Fut)
        → Steps D s t
        → D.may_add j
        → Steps D s (record t { jobs = put j t.jobs })
    drop :
        {s t : State Thread Values Error Fut} (j : Job Thread Values Fut)
        (b : Bag (Job Thread Values Fut))
        → Steps D s t
        → t.jobs ≡ put j b
        → D.may_drop j
        → Steps D s (record t { jobs = b })
    report :
        {s t : State Thread Values Error Fut} (r : Report Thread Values Error)
        → Steps D s t
        → D.may_report r
        → Steps D s (record t { reports = t.reports ++ r ∷ [] })
    serve :
        {s t u : State Thread Values Error Fut} (j : Job Thread Values Fut)
        (b : Bag (Job Thread Values Fut)) (r : Report Thread Values Error)
        → Steps D s t
        → t.jobs ≡ put j b
        → Steps D (record t { jobs = b }) u
        → r.thread ≡ thread_of j
        → Steps D s (record u { reports = u.reports ++ r ∷ [] })

module _ {Thread Values Error Fut : Type 0} {D : Rules Thread Values Error Fut} where
  pub Steps-trans :
      {s t u : State Thread Values Error Fut} → Steps D s t → Steps D t u → Steps D s u
  Steps-trans p (done t) = p
  Steps-trans p (add j q m) = add j (Steps-trans p q) m
  Steps-trans p (drop j b q e d) = drop j b (Steps-trans p q) e d
  Steps-trans p (report r q m) = report r (Steps-trans p q) m
  Steps-trans p (serve j b r q e inner same) = serve j b r (Steps-trans p q) e inner same

  -- The steps to a state that is given by its two parts.
  pub Steps-same :
      {s t : State Thread Values Error Fut} → t.jobs ≡ s.jobs → t.reports ≡ s.reports → Steps D s t
  Steps-same {s} {t} p q =
      subst (Steps D s) (λ i. record { jobs = sym p i; reports = sym q i }) (done s)

  pub Steps-add :
      {s t : State Thread Values Error Fut} (j : Job Thread Values Fut)
      → D.may_add j
      → t.jobs ≡ put j s.jobs
      → t.reports ≡ s.reports
      → Steps D s t
  Steps-add {s} {t} j m p q = Steps-trans (add j (done s) m) (Steps-same p q)

  pub Steps-drop :
      {s t : State Thread Values Error Fut} (j : Job Thread Values Fut)
      → D.may_drop j
      → s.jobs ≡ put j t.jobs
      → t.reports ≡ s.reports
      → Steps D s t
  Steps-drop {s} {t} j d p q = Steps-trans (drop j t.jobs (done s) p d) (Steps-same refl q)

  pub Steps-report :
      {s t : State Thread Values Error Fut} (r : Report Thread Values Error)
      → D.may_report r
      → t.jobs ≡ s.jobs
      → t.reports ≡ s.reports ++ r ∷ []
      → Steps D s t
  Steps-report {s} {t} r m p q = Steps-trans (report r (done s) m) (Steps-same p q)

  -- A service whose inner part goes from `u` to `v`.
  pub Steps-serve :
      {s t u v : State Thread Values Error Fut} (j : Job Thread Values Fut)
      (r : Report Thread Values Error)
      → r.thread ≡ thread_of j
      → s.jobs ≡ put j u.jobs
      → u.reports ≡ s.reports
      → Steps D u v
      → t.jobs ≡ v.jobs
      → t.reports ≡ v.reports ++ r ∷ []
      → Steps D s t
  Steps-serve {s} {t} {u} {v} j r same p q inner p' q' =
      Steps-trans
        (serve j u.jobs r (done s) p
          (Steps-trans (Steps-same {s = record s { jobs = u.jobs }} {t = u} refl q) inner) same)
        (Steps-same p' q')
