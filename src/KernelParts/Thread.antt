-- ===== src/KernelParts/Thread.antt =====
-- The thread of kthread.c.
use linux_driver_kb.Prelude.{
  ℕ, zero, suc, ◌+◌, ◌≤◌, ◌<◌, ◌≡◌, Bool, true, false, Option, none, some, arith, ℕ_discrete,
  if◌then◌else◌,
}
use linux_driver_kb.Prelude.Int.{ℤ, pos}

-- kthread_fn from its `i`-th test of kthread_should_stop on: the return value and how often it has
-- printed that it runs, or `none` where the fuel does not reach to its end.
unfoldable pub kthread_fn : (ℕ → Bool) → ℕ → ℕ → Option (ℤ × ℕ)
kthread_fn should_stop zero i = none
kthread_fn should_stop (suc fuel) i =
    let rest = kthread_fn should_stop fuel (i + 1) in
    if should_stop i then some (pos 0, i) else rest

ends_from :
    (should_stop : ℕ → Bool) (end fuel i : ℕ)
    → i ≤ end
    → end < i + fuel
    → ((j : ℕ) → j < end → should_stop j ≡ false)
    → should_stop end ≡ true
    → kthread_fn should_stop fuel i ≡ some (pos 0, end)
unfolding kthread_fn
ends_from should_stop end zero i below few runs stops = absurd (omega (arith, below, few))
ends_from should_stop end (suc fuel) i below few runs stops = elim (ℕ_discrete i end) [
  | yes now ↦ rw (now, stops)
  | no later ↦
      let before : i < end = omega (arith, below, later) in
      rw (runs i before) (
        ends_from should_stop end fuel (i + 1) (omega (arith, before)) (omega (arith, few)) runs
          stops)
]

-- The thread ends at the first test that finds kthread_stop called, the one after `n` rounds, with 0, and
-- has printed once for each round: `n + 1` tests are enough.
pub kthread_fn-ends :
    (should_stop : ℕ → Bool) (n fuel : ℕ)
    → ((j : ℕ) → j < n → should_stop j ≡ false)
    → should_stop n ≡ true
    → n < fuel
    → kthread_fn should_stop fuel 0 ≡ some (pos 0, n)
kthread_fn-ends should_stop n fuel runs stops enough =
    ends_from should_stop n fuel 0 (omega arith) (omega (arith, enough)) runs stops
