-- ===== src/Iio/Light.antt =====
-- The light itself, after any sequence of handlers.
use linux_driver_kb.Prelude.{ℕ, suc, ◌+◌, ◌/◌, ◌%◌, ◌≡◌, Bool, List, [], ◌∷◌, arith}
use linux_driver_kb.Prelude.Int.{ℤ}
use linux_driver_kb.Iio.{
  Channel, Direction, Info, Priv, fake_iiodev_write_raw, fake_iiodev_write_event_config,
  fake_iiodev_write_event_value, push_events, lux_auto_change, fake_iiodev_trigger_handler, probed,
}

-- The calls that change the private data; `timer` takes the time at which it runs.
pub data Call : Type 0 where
  write_raw : ℕ → Channel → ℤ → Info → Call
  write_event_config : Channel → Bool → Call
  write_event_value : Channel → Direction → ℤ → Call
  timer : ℕ → Call
  trigger : Call

module _ (hz : ℕ) where
  unfoldable pub step : Priv → Call → Priv
  step s (write_raw now c val info) = (fake_iiodev_write_raw hz now s c val info).1
  step s (write_event_config c state) = (fake_iiodev_write_event_config s c state).1
  step s (write_event_value c dir val) = (fake_iiodev_write_event_value s c dir val).1
  step s (timer now) = lux_auto_change hz now s
  step s trigger = fake_iiodev_trigger_handler s

  unfoldable pub run : Priv → List Call → Priv
  run s [] = s
  run s (c ∷ cs) = run (step s c) cs

  -- How often the timer runs.
  abbrev pub ticks : List Call → ℕ
  ticks [] = 0
  ticks (timer now ∷ cs) = suc (ticks cs)
  ticks (_ ∷ cs) = ticks cs

  -- The timer has run `n` times since the light was `x`.
  abbrev pub IsLit : ℕ → Priv → Type 0
  IsLit x s = (s.current_lux.0 ≡ x % 256) × (s.current_lux.1 ≡ x % 256 / 2)

  step-IsLit : (x : ℕ) (s : Priv) (c : Call) → IsLit x s → IsLit (x + ticks (c ∷ [])) (step s c)
  unfolding step fake_iiodev_write_raw fake_iiodev_write_event_config fake_iiodev_write_event_value
      lux_auto_change push_events fake_iiodev_trigger_handler
  step-IsLit x s (write_raw now c val info) l = ground arith
  step-IsLit x s (write_event_config c state) l = ground arith
  step-IsLit x s (write_event_value c dir val) l = ground arith
  step-IsLit x s (timer now) l = ground arith
  step-IsLit x s trigger l = ground arith

  ticks-cons : (c : Call) (cs : List Call) → ticks (c ∷ cs) ≡ ticks (c ∷ []) + ticks cs
  ticks-cons (write_raw now ch val info) cs = omega arith
  ticks-cons (write_event_config ch state) cs = omega arith
  ticks-cons (write_event_value ch dir val) cs = omega arith
  ticks-cons (timer now) cs = omega arith
  ticks-cons trigger cs = omega arith

  run-IsLit : (x : ℕ) (cs : List Call) (s : Priv) → IsLit x s → IsLit (x + ticks cs) (run s cs)
  unfolding run
  run-IsLit x [] s l = omega arith
  run-IsLit x (c ∷ cs) s l =
      omega
        (arith, ticks-cons c cs, run-IsLit (x + ticks (c ∷ [])) cs (step s c) (step-IsLit x s c l))

  -- After the probe and any calls, channel 0 shows how often the timer has run, modulo 256, and
  -- channel 1 half of that, rounded down.
  pub lux-ticks :
      (jiffies : ℕ) (cs : List Call)
      → let s = run (probed hz jiffies) cs in
        (s.current_lux.0 ≡ ticks cs % 256) × (s.current_lux.1 ≡ ticks cs % 256 / 2)
  unfolding probed
  lux-ticks jiffies cs = omega (arith, run-IsLit 0 cs (probed hz jiffies) (omega arith))
