-- ===== src/Contract/Conserve.antt =====
-- What follows from the specification: no job is served twice, and none is lost without a trace.
use mathlib.Core.List.{append_assoc, append-nil}
use mlua_scheduler.Base.{◌≡◌, refl, sym, ap, subst, ◌∙◌, List, [], ◌∷◌, ◌++◌, All}
use mlua_scheduler.Contract.Bag.{
  Bag, put, put_all, put_all-put, put_all-snoc, put_all-append, put_all_comm,
}
use mlua_scheduler.Contract.Spec.{
  Job, Rules, thread_of, Report, State, Steps, done, add, drop, report, serve,
}

module _ {A : Type 0} where
  -- The balance of a service, from that before it and that within it.
  serve-balance :
      (added served dropped added' served' dropped' : List A) (j : A) (s t b u : Bag A)
      → put_all added s ≡ put_all served (put_all dropped t)
      → t ≡ put j b
      → put_all added' b ≡ put_all served' (put_all dropped' u)
      → put_all (added' ++ added) s
        ≡ put_all (served ++ (served' ++ j ∷ [])) (put_all (dropped ++ dropped') u)
  serve-balance added served dropped added' served' dropped' j s t b u p e q =
      put_all-append added' added s
      ∙ ap (put_all added') (p ∙ ap (λ c. put_all served (put_all dropped c)) e)
      ∙ put_all_comm added' served (put_all dropped (put j b))
      ∙ ap (put_all served) inside
      ∙ sym (put_all-append served (served' ++ j ∷ []) (put_all (dropped ++ dropped') u))
    where
      inside :
          put_all added' (put_all dropped (put j b))
          ≡ put_all (served' ++ j ∷ []) (put_all (dropped ++ dropped') u)
      inside =
          put_all_comm added' dropped (put j b)
          ∙ ap (put_all dropped) (put_all-put added' j b ∙ ap (put j) q)
          ∙ put_all-put dropped j (put_all served' (put_all dropped' u))
          ∙ ap (put j) (
              put_all_comm dropped served' (put_all dropped' u)
              ∙ ap (put_all served') (sym (put_all-append dropped dropped' u)))
          ∙ sym (put_all-snoc served' j (put_all (dropped ++ dropped') u))

  All-append : (D : A → Type 0) (xs ys : List A) → All D xs → All D ys → All D (xs ++ ys)
  All-append D [] ys h k = k
  All-append D (x ∷ xs) ys (h, t) k = (h, All-append D xs ys t k)

module _ {Thread Values Error Fut : Type 0} where
  -- Each job has a report of its own, for its thread, and the reports of the jobs come in the order
  -- of the jobs; other reports are ones that `O` allows.
  pub data Answered (O : Report Thread Values Error → Type 0)
      : List (Job Thread Values Fut) → List (Report Thread Values Error) → Type 0 where
    none_yet : Answered O [] []
    other :
        {js : List (Job Thread Values Fut)} {rs : List (Report Thread Values Error)}
        (r : Report Thread Values Error)
        → Answered O js rs
        → O r
        → Answered O js (r ∷ rs)
    answer :
        {js : List (Job Thread Values Fut)} {rs : List (Report Thread Values Error)}
        (j : Job Thread Values Fut) (r : Report Thread Values Error)
        → r.thread ≡ thread_of j
        → Answered O js rs
        → Answered O (j ∷ js) (r ∷ rs)

  Answered-append :
      {O : Report Thread Values Error → Type 0} {js ks : List (Job Thread Values Fut)}
      {rs qs : List (Report Thread Values Error)}
      → Answered O js rs
      → Answered O ks qs
      → Answered O (js ++ ks) (rs ++ qs)
  Answered-append none_yet b = b
  Answered-append (other r a o) b = other r (Answered-append a b) o
  Answered-append (answer j r e a) b = answer j r e (Answered-append a b)

  -- What has become of the jobs between two states.
  pub record Account (D : Rules Thread Values Error Fut) (s t : State Thread Values Error Fut)
      : Type 0 where
    pub added : List (Job Thread Values Fut)
    pub wanted : All D.may_add added
    pub served : List (Job Thread Values Fut)
    pub dropped : List (Job Thread Values Fut)
    pub droppable : All D.may_drop dropped
    pub new : List (Report Thread Values Error)
    pub reported : t.reports ≡ s.reports ++ new
    pub answered : Answered D.may_report served new
    pub balance : put_all added s.jobs ≡ put_all served (put_all dropped t.jobs)

  -- Between two states of the specification, every job that was there or was added has been served
  -- once, has been dropped, which `D` allows, or is still there; and each job served has a report
  -- of its own.
  pub Steps-Account :
      {D : Rules Thread Values Error Fut} {s t : State Thread Values Error Fut}
      → Steps D s t
      → Account D s t
  unfolding put_all
  Steps-Account (done s) = record {
    added = [];
    wanted = tt;
    served = [];
    dropped = [];
    droppable = tt;
    new = [];
    reported = sym (append-nil s.reports);
    answered = none_yet;
    balance = refl;
  }
  Steps-Account (add {s} {t} j p m) =
      let a = Steps-Account p in
      record {
        added = j ∷ a.added;
        wanted = (m, a.wanted);
        served = a.served;
        dropped = a.dropped;
        droppable = a.droppable;
        new = a.new;
        reported = a.reported;
        answered = a.answered;
        balance =
            ap (put j) a.balance
            ∙ sym (put_all-put a.served j (put_all a.dropped t.jobs))
            ∙ ap (put_all a.served) (sym (put_all-put a.dropped j t.jobs));
      }
  Steps-Account (drop {s} {t} j b p e d) =
      let a = Steps-Account p in
      record {
        added = a.added;
        wanted = a.wanted;
        served = a.served;
        dropped = j ∷ a.dropped;
        droppable = (d, a.droppable);
        new = a.new;
        reported = a.reported;
        answered = a.answered;
        balance =
            a.balance
            ∙ ap (λ c. put_all a.served (put_all a.dropped c)) e
            ∙ ap (put_all a.served) (put_all-put a.dropped j b);
      }
  Steps-Account {D} (report {s} {t} r p m) =
      let a = Steps-Account p in
      record {
        added = a.added;
        wanted = a.wanted;
        served = a.served;
        dropped = a.dropped;
        droppable = a.droppable;
        new = a.new ++ r ∷ [];
        reported = ap (λ l. l ++ r ∷ []) a.reported ∙ append_assoc s.reports a.new (r ∷ []);
        answered =
            subst (λ js. Answered D.may_report js (a.new ++ r ∷ [])) (append-nil a.served)
              (Answered-append a.answered (other r none_yet m));
        balance = a.balance;
      }
  Steps-Account (serve {s} {t} {u} j b r p e inner same) =
      let a = Steps-Account p in
      let i = Steps-Account inner in
      record {
        added = i.added ++ a.added;
        wanted = All-append _ i.added a.added i.wanted a.wanted;
        served = a.served ++ (i.served ++ j ∷ []);
        dropped = a.dropped ++ i.dropped;
        droppable = All-append _ a.dropped i.dropped a.droppable i.droppable;
        new = a.new ++ (i.new ++ r ∷ []);
        reported =
            ap (λ l. l ++ r ∷ []) i.reported
            ∙ ap (λ l. (l ++ i.new) ++ r ∷ []) a.reported
            ∙ ap (λ l. l ++ r ∷ []) (append_assoc s.reports a.new i.new)
            ∙ append_assoc s.reports (a.new ++ i.new) (r ∷ [])
            ∙ ap (λ l. s.reports ++ l) (append_assoc a.new i.new (r ∷ []));
        answered =
            Answered-append a.answered (Answered-append i.answered (answer j r same none_yet));
        balance =
            serve-balance a.added a.served a.dropped i.added i.served i.dropped j s.jobs t.jobs b
              u.jobs a.balance e i.balance;
      }
