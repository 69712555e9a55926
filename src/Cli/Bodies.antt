-- ===== src/Cli/Bodies.antt =====
-- crates/cli/src/main.rs: what the functions of the program give.
use Prim.Native.String.{◌++◌ as str_append}
use mlua_scheduler.Base.{
  ℕ, zero, suc, ◌+◌, ◌*◌, ◌/◌, ◌%◌, ◌≡◌, ◌≢◌, ◌≤◌, ◌⊎◌, refl, ap, true, false, String, ok, err, inl,
  inr, Bool-cases, Result-cases, arith, ◌==◌, ==_iff,
}
use mlua_scheduler.Deps.Futures.{text}
use mlua_scheduler.Deps.Runtime.{Runtime}
use mlua_scheduler.Cli.Integers.{ℤ, pos, negsuc, neg, rem, equals}
use mlua_scheduler.Cli.Functions.{
  Sleeping, gives, sleeps, panics, sleep_for, test_async_work, error_body,
}

abs : ℤ → ℕ
abs (pos n) = n
abs (negsuc n) = n + 1

ends_in_three : {n : ℕ} (k : ℕ) → n ≡ 10 * k + 3 → (n % 10 == 3) ≢ false
ends_in_three k p q = ground (arith, p, q)

equals-neg : (n : ℕ) → equals (neg n) 3 ≡ false
unfolding neg equals
equals-neg zero = refl
equals-neg (suc n) = refl

module _ ⦃rt : Runtime⦄ (external : String → rt.Error) (to_string : ℤ → String) where
  open rt use {Error, F64}

  -- `_ERROR` gives a text exactly for the numbers 3, 13, 23 and so on; for all others, those below
  -- zero included, it fails with the number as the error's text.
  error_body_cases :
      (n : ℤ)
      → ((k : ℕ) × (n ≡ pos (10 * k + 3))
          × (error_body external to_string n ≡ gives (ok (str_append "Y" (to_string n)))))
        ⊎ (((k : ℕ) → n ≢ pos (10 * k + 3))
            × (error_body external to_string n ≡ gives (err (external (to_string n)))))
  unfolding error_body rem equals abs
  error_body_cases (pos n) = elim (Bool-cases (n % 10 == 3)) [
    | inl p ↦ inl (n / 10, ap pos (omega (arith, (==_iff (n % 10) 3).0 p)), rw p refl)
    | inr p ↦ inr (λ k q. ends_in_three k (ap abs q) p, rw p refl)
  ]
  error_body_cases (negsuc n) = inr (λ k p. cc p, rw (equals-neg ((n + 1) % 10)) refl)

  -- `_TEST_ASYNC_WORK` refuses numbers below zero. For others it panics, where the number is no
  -- duration, or sleeps for at least 50 milliseconds.
  test_async_work_cases :
      (sec : Sleeping F64) (n : F64)
      → ((sec.less_than n sec.zero_secs ≡ true)
          × (test_async_work external to_string sec n
              ≡ gives (err (external "Negative sleep time"))))
        ⊎ ((sec.less_than n sec.zero_secs ≡ false)
            × (e : String) × (sec.from_secs_f64 n ≡ err e)
            × (test_async_work external to_string sec n ≡ panics (text e)))
        ⊎ ((sec.less_than n sec.zero_secs ≡ false)
            × (d : ℕ) × (50_000_000 ≤ d)
            × (test_async_work external to_string sec n ≡ sleeps d))
  unfolding test_async_work sleep_for
  test_async_work_cases sec n = elim (Bool-cases (sec.less_than n sec.zero_secs)) [
    | inl below ↦ inl (below, rw below refl)
    | inr above ↦ inr (elim (Bool-cases (sec.less_than n sec.least)) [
      | inl short ↦ inr (above, 100_000_000, omega arith, rw (above, short, sec.from_tenth) refl)
      | inr long ↦ elim (Result-cases (sec.from_secs_f64 n)) [
        | inr (e, p) ↦ inl (above, e, p, rw (above, long, p) refl)
        | inl (d, p) ↦ inr (above, d, sec.from_least n long p, rw (above, long, p) refl)
      ]
    ])
  ]
