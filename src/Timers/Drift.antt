-- ===== src/Timers/Drift.antt =====
-- The handlers of timer.c and hrtimer.c, which start their timers again, and when the next expiry is.
use linux_driver_kb.Prelude.{ℕ, suc, ◌+◌, ◌*◌, ◌≤◌, ◌<◌, ◌≡◌, List, [], ◌∷◌, length, arith}

-- my_function runs some jiffies after its expiry, or at once, and sets the next one.
unfoldable pub my_function : ℕ → ℕ → ℕ
my_function hz jiffies = jiffies + 3 * hz

-- The expiry that timer_drv_init sets.
unfoldable pub first_expiry : ℕ → ℕ → ℕ
first_expiry hz jiffies = jiffies + 3 * hz

-- The expiry after some runs, each late by some jiffies.
unfoldable pub expiry_after : ℕ → ℕ → List ℕ → ℕ
expiry_after hz expires [] = expires
expiry_after hz expires (late ∷ lates) = expiry_after hz (my_function hz (expires + late)) lates

abbrev pub sum : List ℕ → ℕ
sum [] = 0
sum (n ∷ ns) = n + sum ns

-- The expiries of timer.c drift: each run sets the next one from the time at which it runs, so that what
-- the runs are late adds up.
expiry_drifts :
    (hz expires : ℕ) (lates : List ℕ)
    → expiry_after hz expires lates ≡ expires + sum lates + length lates * (3 * hz)
unfolding expiry_after my_function
expiry_drifts hz expires [] = omega arith
expiry_drifts hz expires (late ∷ lates) =
    omega (arith, expiry_drifts hz (expires + late + 3 * hz) lates)

-- hrtimer_forward moves an expiry on by whole intervals until it is later than `now`.
pub record Forward : Type 0 where
  pub hrtimer_forward : ℕ → ℕ → ℕ → ℕ
  pub forwards :
      (expires now interval : ℕ)
      → 0 < interval
      → expires ≤ now
      → (n : ℕ) × (hrtimer_forward expires now interval ≡ expires + suc n * interval)
        × (now < hrtimer_forward expires now interval)

-- The interval of hrtimer.c in nanoseconds.
abbrev pub kt : ℕ
kt = 1000000010

-- HRTIMER_RESTART or HRTIMER_NORESTART.
pub data Restart : Type 0 where
  restart norestart : Restart

module _ (kernel : Forward) where
  -- The handler at some time: what it returns, and the new expiry.
  unfoldable pub hrtimer_handler : ℕ → ℕ → Restart × ℕ
  hrtimer_handler expires now = (restart, kernel.hrtimer_forward expires now kt)

  -- The core starts the timer again if the handler says so.
  unfoldable pub hrtimer_after : ℕ → List ℕ → ℕ
  unfolding hrtimer_handler
  hrtimer_after expires [] = expires
  hrtimer_after expires (late ∷ lates) = elim (hrtimer_handler expires (expires + late)).0 [
    | restart ↦ hrtimer_after (hrtimer_handler expires (expires + late)).1 lates
    | norestart ↦ expires
  ]

  -- However late the handler of hrtimer.c runs each time, its expiries stay a whole number of intervals
  -- after the first, at least one for each run.
  pub hrtimer_keeps_time :
      (expires : ℕ) (lates : List ℕ)
      → (n : ℕ) × (hrtimer_after expires lates ≡ expires + n * kt) × (length lates ≤ n)
  unfolding hrtimer_after hrtimer_handler
  hrtimer_keeps_time expires [] = (0, omega arith, omega arith)
  hrtimer_keeps_time expires (late ∷ lates) =
      let (n, e, _) = kernel.forwards expires (expires + late) kt (omega arith) (omega arith) in
      let (m, e', h) =
        hrtimer_keeps_time (kernel.hrtimer_forward expires (expires + late) kt) lates in
      (suc n + m, omega (arith, e, e'), omega (arith, h))
