-- ===== src/Deps/SampleDelays.antt =====
-- A delay queue as the list of its entries, newest first; a new key is above all keys inside, and
-- a time is too far ahead from 2 ^ 36 milliseconds on.
use mathlib.Core.Option
use mlua_scheduler.Base.{
  ℕ, ◌+◌, ◌≤◌, ◌<◌, ◌≡◌, ◌≢◌, ◌↔◌, refl, subst, Bool, true, false, Option, none, some, List, [],
  ◌∷◌, arith, leb, ltb, ◌==◌, if◌then◌else◌, All, Removed, here, there, Bool-cases, inl, inr,
}
use mlua_scheduler.Deps.DelayQueue.{DelayQueues, Entry}

module _ {A : Type 0} where
  abbrev pub cons_snd : Entry A → Entry A × List (Entry A) → Entry A × List (Entry A)
  cons_snd e (d, ds) = (d, e ∷ ds)

  -- The first entry that is due, and the others.
  abbrev pub take_due : ℕ → List (Entry A) → Option (Entry A × List (Entry A))
  take_due now [] = none
  take_due now (e ∷ es) =
      let rest = Option.map (cons_snd e) (take_due now es) in
      if leb e.deadline now then some (e, es) else rest

  abbrev pub take_key : ℕ → List (Entry A) → Option (List (Entry A))
  take_key k [] = none
  take_key k (e ∷ es) =
      let rest = Option.map (◌∷◌ e) (take_key k es) in if e.key == k then some es else rest

  abbrev pub key_bound : List (Entry A) → ℕ
  key_bound [] = 0
  key_bound (e ∷ es) = e.key + key_bound es + 1

  abbrev pub nothing : List (Entry A) → Bool
  nothing [] = true
  nothing (e ∷ es) = false

  pub nothing_iff : (es : List (Entry A)) → (nothing es ≡ true) ↔ (es ≡ [])
  nothing_iff [] = (λ _. refl, λ _. refl)
  nothing_iff (e ∷ es) = (λ h. cc, λ h. cc)

  pub key_bound_above : (n : ℕ) (es : List (Entry A)) → key_bound es ≤ n → All (λ e. e.key ≢ n) es
  key_bound_above n [] h = tt
  key_bound_above n (e ∷ es) h = (omega arith, key_bound_above n es (omega arith))

  -- What a search for a due entry may give.
  abbrev pub Taken : ℕ → List (Entry A) → Option (Entry A × List (Entry A)) → Type 0
  Taken now es none = All (λ e. now < e.deadline) es
  Taken now es (some (d, ds)) = Removed d es ds × (d.deadline ≤ now)

  Taken-cons :
      (now : ℕ) (e : Entry A) (es : List (Entry A)) (r : Option (Entry A × List (Entry A)))
      → now < e.deadline
      → Taken now es r
      → Taken now (e ∷ es) (Option.map (cons_snd e) r)
  Taken-cons now e es none late t = (late, t)
  Taken-cons now e es (some (d, ds)) late (r, due) = (there e r, due)

  pub take_due-Taken : (now : ℕ) (es : List (Entry A)) → Taken now es (take_due now es)
  take_due-Taken now [] = tt
  take_due-Taken now (e ∷ es) = elim (Bool-cases (leb e.deadline now)) [
    | inl due ↦ rw due (here es, ground arith)
    | inr late ↦ rw late (Taken-cons now e es _ (ground arith) (take_due-Taken now es))
  ]

  pub Taken_some :
      (now : ℕ) (es : List (Entry A)) {d : Entry A} {ds : List (Entry A)}
      → take_due now es ≡ some (d, ds)
      → Removed d es ds × (d.deadline ≤ now)
  Taken_some now es p = subst (Taken now es) p (take_due-Taken now es)

  abbrev pub Keyed : ℕ → List (Entry A) → Option (List (Entry A)) → Type 0
  Keyed k es none = Unit
  Keyed k es (some ds) = (e : Entry A) × (e.key ≡ k) × Removed e es ds

  Keyed-cons :
      (k : ℕ) (e : Entry A) (es : List (Entry A)) (r : Option (List (Entry A)))
      → Keyed k es r
      → Keyed k (e ∷ es) (Option.map (◌∷◌ e) r)
  Keyed-cons k e es none t = tt
  Keyed-cons k e es (some ds) (d, p, r) = (d, p, there e r)

  pub take_key-Keyed : (k : ℕ) (es : List (Entry A)) → Keyed k es (take_key k es)
  take_key-Keyed k [] = tt
  take_key-Keyed k (e ∷ es) = elim (Bool-cases (e.key == k)) [
    | inl hit ↦ rw hit (e, ground arith, here es)
    | inr miss ↦ rw miss (Keyed-cons k e es _ (take_key-Keyed k es))
  ]

abbrev pub sample_delays : DelayQueues
sample_delays = record {
  DelayQueue = λ A. List (Entry A);
  new_queue = [];
  insert = λ a duration now q.
      (key_bound q, record { key = key_bound q; deadline = now + duration; value = a } ∷ q);
  too_far = λ duration now q. ltb 68_719_476_735_000_000 duration;
  next = take_due;
  remove = take_key;
  clear = λ q. [];
  no_entries = nothing;
  entries = λ q. q;
  entries-new = refl;
  entries-insert = λ a duration now q. refl;
  insert-fresh = λ a duration now q. key_bound_above (key_bound q) q (omega arith);
  next-Removed = λ now q p. (Taken_some now q p).0;
  next-due = λ now q p. (Taken_some now q p).1;
  next-none = λ now q p. subst (Taken now q) p (take_due-Taken now q);
  remove-Removed = λ k q p. subst (Keyed k q) p (take_key-Keyed k q);
  entries-clear = λ q. refl;
  no_entries_iff = nothing_iff;
}
