-- ===== src/Watchdog/Timing.antt =====
-- Where the two timers of a watchdog stand after a ping.
use native.Mathlib.Nat.{mod-eq_of_lt, mul-le-mul}
use linux_driver_kb.Prelude.{
  ℕ, ◌+◌, ◌-◌, ◌*◌, ◌<◌, ◌≤◌, ◌≡◌, none, some, arith, if◌then◌else◌, ◌==◌, ap,
}
use linux_driver_kb.Watchdog.{Softdog, softdog_ping, sub32, in_jiffies}

in_jiffies-exact : (hz s : ℕ) → hz ≤ 1000 → s ≤ 65535 → in_jiffies hz s ≡ s * hz
in_jiffies-exact hz s h t =
    let bound : s * hz ≤ 65535 * 1000 = mul-le-mul t h in mod-eq_of_lt (omega arith)

sub32-exact : (a b : ℕ) → b < a → a ≤ 65535 → sub32 a b ≡ a - b
sub32-exact a b h t = omega arith

-- A ping of a watchdog whose pretimeout is below its timeout, with the timeout that the driver lets the
-- core accept and at most 1000 jiffies a second, arms the restart timer for the timeout, and the warning
-- timer, if there is a pretimeout, for as long before that; without one the warning timer is off.
pub softdog_ping-due :
    (hz now : ℕ) (w : Softdog)
    → hz ≤ 1000
    → w.timeout ≤ 65535
    → w.pretimeout < w.timeout
    → ((softdog_ping hz now w).0.fire ≡ some (now + w.timeout * hz))
      × ((softdog_ping hz now w).0.pre
          ≡ (if w.pretimeout == 0 then none else some (now + (w.timeout - w.pretimeout) * hz)))
unfolding softdog_ping
softdog_ping-due hz now w h1 h2 h3 = (
  ap (λ x. some (now + x)) (in_jiffies-exact hz w.timeout h1 h2),
  rw (
    sub32-exact w.timeout w.pretimeout h3 h2,
    in_jiffies-exact hz (w.timeout - w.pretimeout) h1 (omega arith),
  ),
)
