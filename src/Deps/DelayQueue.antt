-- ===== src/Deps/DelayQueue.antt =====
-- tokio_util::time::DelayQueue: values that come out when their delay is over, each under a key
-- that is unique among the values inside. `entries` is for statements only.
use mlua_scheduler.Base.{
  ℕ, ◌+◌, ◌≤◌, ◌<◌, ◌≡◌, ◌≢◌, ◌↔◌, Bool, true, Option, none, some, List, [], ◌∷◌, All, Removed,
}

pub record Entry (A : Type 0) : Type 0 where
  pub key : ℕ
  pub deadline : ℕ
  pub value : A

pub record DelayQueues : Type 1 where
  pub DelayQueue : Type 0 → Type 0
  pub new_queue : {A : Type 0} → DelayQueue A
  -- insert value duration now
  pub insert : {A : Type 0} → A → (duration now : ℕ) → DelayQueue A → ℕ × DelayQueue A
  -- Whether `insert` panics, since the time is too far ahead for the timer.
  pub too_far : {A : Type 0} → (duration now : ℕ) → DelayQueue A → Bool
  pub next : {A : Type 0} → (now : ℕ) → DelayQueue A → Option (Entry A × DelayQueue A)
  -- none: the call panics, since the key is not in the queue
  pub remove : {A : Type 0} → ℕ → DelayQueue A → Option (DelayQueue A)
  pub clear : {A : Type 0} → DelayQueue A → DelayQueue A
  pub no_entries : {A : Type 0} → DelayQueue A → Bool
  pub entries : {A : Type 0} → DelayQueue A → List (Entry A)
  pub entries-new : {A : Type 0} → entries (new_queue {A = A}) ≡ []
  pub entries-insert :
      {A : Type 0} (a : A) (duration now : ℕ) (q : DelayQueue A)
      → entries (insert a duration now q).1
        ≡ record { key = (insert a duration now q).0; deadline = now + duration; value = a }
          ∷ entries q
  pub insert-fresh :
      {A : Type 0} (a : A) (duration now : ℕ) (q : DelayQueue A)
      → All (λ e. e.key ≢ (insert a duration now q).0) (entries q)
  pub next-Removed :
      {A : Type 0} (now : ℕ) (q : DelayQueue A) {e : Entry A} {q' : DelayQueue A}
      → next now q ≡ some (e, q')
      → Removed e (entries q) (entries q')
  pub next-due :
      {A : Type 0} (now : ℕ) (q : DelayQueue A) {e : Entry A} {q' : DelayQueue A}
      → next now q ≡ some (e, q')
      → e.deadline ≤ now
  pub next-none :
      {A : Type 0} (now : ℕ) (q : DelayQueue A)
      → next now q ≡ none
      → All (λ e. now < e.deadline) (entries q)
  pub remove-Removed :
      {A : Type 0} (k : ℕ) (q : DelayQueue A) {q' : DelayQueue A}
      → remove k q ≡ some q'
      → (e : Entry A) × (e.key ≡ k) × Removed e (entries q) (entries q')
  pub entries-clear : {A : Type 0} (q : DelayQueue A) → entries (clear q) ≡ []
  pub no_entries_iff : {A : Type 0} (q : DelayQueue A) → (no_entries q ≡ true) ↔ (entries q ≡ [])
