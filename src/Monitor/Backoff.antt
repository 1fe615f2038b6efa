-- ===== src/Monitor/Backoff.antt =====
-- The time between two starts of a plugin that keeps failing.
use native.Mathlib.Nat.{pow-le-pow_right}
use dazeus_core.Base.{
  ℕ, zero, suc, ◌-◌, ◌*◌, ◌^◌, ◌≤◌, ◌<◌, ◌≡◌, ◌∙◌, some, none, arith, ltb, if◌then◌else◌, inl, inr,
  Bool-cases,
}
use dazeus_core.Text.Decimal.{int_max}
use dazeus_core.Monitor.{wait_seconds}

pow_mono : (n m : ℕ) → n ≤ m → 2 ^ n ≤ 2 ^ m
pow_mono n m h = pow-le-pow_right (omega arith) h

small_pow : (n : ℕ) → n < 29 → 2 ^ n ≤ 2 ^ 28
small_pow n h = pow_mono n 28 (omega arith)

large_pow : (n : ℕ) → 29 ≤ n → 2 ^ 29 ≤ 2 ^ n
large_pow n h = pow_mono 29 n h

wait_seconds-suc :
    (n : ℕ)
    → wait_seconds (suc n) ≡ (
        if ltb int_max (5 * 2 ^ n)
        then none
        else some (if ltb 300 (5 * 2 ^ n) then 300 else 5 * 2 ^ n))
unfolding wait_seconds
wait_seconds-suc n = let e : suc n - 1 ≡ n = omega arith in rw e (ground arith)

-- The wait doubles from five seconds up to five minutes; from the thirtieth failure in a row on, the
-- product is no `int`, and the wait has no defined value.
pub wait_seconds_lem :
    (n : ℕ)
    → wait_seconds (suc n)
      ≡ (if ltb n 29 then some (if ltb 300 (5 * 2 ^ n) then 300 else 5 * 2 ^ n) else none)
wait_seconds_lem n = wait_seconds-suc n ∙ cap
  where
    cap :
        (if ltb int_max (5 * 2 ^ n)
          then none
          else some (if ltb 300 (5 * 2 ^ n) then 300 else 5 * 2 ^ n))
        ≡ (if ltb n 29 then some (if ltb 300 (5 * 2 ^ n) then 300 else 5 * 2 ^ n) else none)
    cap = elim (Bool-cases (ltb n 29)) [
      | inl small ↦ ground (arith, small_pow n)
      | inr large ↦ ground (arith, large_pow n)
    ]

-- While it is defined, the wait never falls as failures add up, and is at most five minutes.
pub wait_seconds_mono :
    (n m a b : ℕ) → n ≤ m → wait_seconds n ≡ some a → wait_seconds m ≡ some b → (a ≤ b) × (b ≤ 300)
wait_seconds_mono zero zero a b h p q = unfold wait_seconds in ground arith
wait_seconds_mono zero (suc m) a b h p q = unfold wait_seconds in ground (arith)
wait_seconds_mono (suc n) zero a b h p q = absurd (omega arith)
wait_seconds_mono (suc n) (suc m) a b h p q =
    ground (arith, wait_seconds-suc n, wait_seconds-suc m, pow_mono n m)
