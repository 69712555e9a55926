-- ===== src/Deps/Samples.antt =====
-- Concrete instances of the interfaces, which show that their laws can hold.
--
-- Threads are numbers. A thread finishes when it is resumed; the machine's state is the
-- list of finished threads. No Lua code here calls the task manager. Thread 99 fails.
use mathlib.Core.Option
use mlua_scheduler.Base.{
  ℕ, ◌≡◌, refl, subst, Bool, true, false, Option, none, some, List, [], ◌∷◌, ◌++◌, ◌||◌, ◌↔◌,
  uncons, ◌==◌, if◌then◌else◌, ==_iff, ok, err, Removed, here, String,
}
use mlua_scheduler.Deps.Mlua.{Mlua, finished, other}
use mlua_scheduler.Deps.Channel.{Channels}
use mlua_scheduler.Deps.SampleDelays.{sample_delays}
use mlua_scheduler.Deps.Futures.{Futures, Outcome, completed}
use mlua_scheduler.Deps.Runtime.{Runtime}

abbrev seen : ℕ → List ℕ → Bool
seen t [] = false
seen t (x ∷ xs) = x == t || seen t xs

instance abbrev pub sample_mlua : Mlua
sample_mlua = record {
  Thread = ℕ;
  Values = ℕ;
  Error = String;
  Fut = ℕ;
  Function = ℕ;
  F64 = ℕ;
  State = List ℕ;
  to_pointer = λ t. t;
  same_thread = ◌==◌;
  same_thread_iff = ==_iff;
  is_alive = λ s. true;
  status = λ s t. if seen t s then finished else other;
  resume =
      λ t v s. record { lua = t ∷ s; calls = []; result = if t == 99 then err "failed" else ok v };
  resume_error = λ t e s. record { lua = t ∷ s; calls = []; result = err e };
  error_text = λ e. e;
  runtime_error = λ e. e;
  create_thread = λ f s. (ok f, s);
  close = λ t s. (ok tt, t ∷ s);
  as_secs_f64 = λ n. n;
  from_f64 = λ x. x;
}

module _ {A : Type 0} where
  abbrev pub list_recv : List A → Option (A × List A)
  list_recv [] = none
  list_recv (x ∷ xs) = some (x, xs)

  abbrev pub is_nil : List A → Bool
  is_nil [] = true
  is_nil (x ∷ xs) = false

  pub list_recv_lem : (c : List A) → Option.map (λ (a, d). (a, d)) (list_recv c) ≡ uncons c
  list_recv_lem [] = refl
  list_recv_lem (x ∷ xs) = refl

  pub is_nil_iff : (c : List A) → (is_nil c ≡ true) ↔ (c ≡ [])
  is_nil_iff [] = (λ _. refl, λ _. refl)
  is_nil_iff (x ∷ xs) = (λ h. cc, λ h. cc)

abbrev pub sample_channels : Channels
sample_channels = record {
  Chan = λ A. List A;
  unbounded_channel = [];
  send = λ a c. c ++ a ∷ [];
  recv = list_recv;
  is_empty = is_nil;
  contents = λ c. c;
  contents-new = refl;
  contents-send = λ a c. refl;
  contents-recv = list_recv_lem;
  is_empty_iff = is_nil_iff;
}

module _ {T F O : Type 0} (o : F → O) where
  abbrev pub poll_first : List (T × F) → Option ((T × F) × O × List (T × F))
  poll_first [] = none
  poll_first ((t, f) ∷ r) = some ((t, f), o f, r)

  abbrev pub Polled : List (T × F) → Option ((T × F) × O × List (T × F)) → Type 0
  Polled p none = Unit
  Polled p (some (tf, x, p')) = Removed tf p p'

  pub poll_first-Polled : (p : List (T × F)) → Polled p (poll_first p)
  poll_first-Polled [] = tt
  poll_first-Polled ((t, f) ∷ r) = here r

  pub poll_first-Removed :
      (p : List (T × F)) {tf : T × F} {x : O} {p' : List (T × F)}
      → poll_first p ≡ some (tf, x, p')
      → Removed tf p p'
  poll_first-Removed p e = subst (Polled p) e (poll_first-Polled p)

-- Futures complete in order, each with the number that stands for it.
abbrev pub sample_futures : Futures ℕ ℕ (Outcome ℕ String)
sample_futures = record {
  Pool = List (ℕ × ℕ);
  new_pool = [];
  push = λ t f p. (t, f) ∷ p;
  poll_next = λ now p. poll_first (λ (n : ℕ). completed (ok n)) p;
  no_futures = is_nil;
  pending = λ p. p;
  pending-new = refl;
  pending-push = λ t f p. refl;
  poll_next-Removed = λ now p e. poll_first-Removed _ p e;
  no_futures_iff = is_nil_iff;
}

instance abbrev pub sample : Runtime
sample = record {
  mlua = sample_mlua;
  channels = sample_channels;
  delays = sample_delays;
  futures = sample_futures;
}
