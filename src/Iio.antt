-- ===== src/Iio.antt =====
-- The simulated light sensor of 22.iio/driver/fake_iiodev.c: two channels, thresholds with events, a
-- timer that changes the light, and a triggered buffer. Each handler runs under one mutex, so a
-- handler is one step.
pub mod Light
pub mod Crossing
pub mod Values
pub mod Scan
pub mod Types
pub mod Channels
pub mod Setup
mod Tests
use linux_driver_kb.Prelude.{
  ℕ, ◌+◌, ◌*◌, ◌/◌, ◌%◌, ◌^◌, ◌==◌, ◌&&◌, Bool, true, false, Option, none, some, List, [], ◌∷◌, ltb,
  if◌then◌else◌,
}
use linux_driver_kb.Prelude.Int.{ℤ, pos, to_unsigned, signed32, ltb_ℤ}
use linux_driver_kb.Kernel.Errno.{einval}

-- The channels by their scan index; channel 2, the time stamp, has no attributes.
pub data Channel : Type 0 where
  ch0 ch1 : Channel

-- IIO_EV_DIR_RISING, IIO_EV_DIR_FALLING and the other directions.
pub data Direction : Type 0 where
  rising falling either : Direction

-- IIO_CHAN_INFO_PROCESSED, IIO_CHAN_INFO_INT_TIME and the other masks.
pub data Info : Type 0 where
  processed int_time other_info : Info

abbrev pub IioEvent : Type 0
IioEvent = Channel × Direction

-- The private data, with what the handlers ask of the kernel: when the timer is due (jiffies, which
-- are not wrapped here), the events pushed, the newest first, and the scans pushed to the buffer.
pub record Priv : Type 0 where
  pub current_lux : ℕ × ℕ  -- unsigned char
  pub freq : ℕ  -- unsigned int
  pub event : Bool × Bool
  pub high_thresh : ℕ × ℕ  -- unsigned char
  pub low_thresh : ℕ × ℕ  -- unsigned char
  pub due : Option ℕ
  pub events : List IioEvent
  pub scans : List (ℕ × ℕ)

abbrev pub at {ℓ} : {A : Type ℓ} → A × A → Channel → A
at p ch0 = p.0
at p ch1 = p.1

abbrev set_at {ℓ} : {A : Type ℓ} → A × A → Channel → A → A × A
set_at p ch0 v = (v, p.1)
set_at p ch1 v = (p.0, v)

abbrev pub iio_val_int : ℤ
iio_val_int = pos 1

-- The return value, and `*val` where it was stored.
unfoldable pub fake_iiodev_read_raw : Priv → Channel → Info → ℤ × Option ℤ
fake_iiodev_read_raw s c processed = (iio_val_int, some (pos (at s.current_lux c)))
fake_iiodev_read_raw s c int_time = (iio_val_int, some (signed32 s.freq))
fake_iiodev_read_raw s c other_info = (einval, none)

-- The timer `freq` seconds from now.
abbrev mod_timer : ℕ → ℕ → Priv → Priv
mod_timer hz jiffies s = record s { due = some (jiffies + s.freq * hz % 2 ^ 32) }

-- For a value outside 1 to 5 the code sets a variable that it does not return.
unfoldable pub fake_iiodev_write_raw : ℕ → ℕ → Priv → Channel → ℤ → Info → ℤ × Priv
fake_iiodev_write_raw hz jiffies s c val int_time =
    (pos 0, mod_timer hz jiffies (record s { freq = to_unsigned 32 val }))
fake_iiodev_write_raw hz jiffies s c val _ = (einval, s)

-- How the core reads a written number.
unfoldable pub fake_iiodev_write_raw_get_fmt : Info → ℤ
fake_iiodev_write_raw_get_fmt int_time = iio_val_int
fake_iiodev_write_raw_get_fmt _ = einval

unfoldable fake_iiodev_read_event_config : Priv → Channel → ℤ
fake_iiodev_read_event_config s c = if at s.event c then pos 1 else pos 0

unfoldable pub fake_iiodev_write_event_config : Priv → Channel → Bool → ℤ × Priv
fake_iiodev_write_event_config s c state = (pos 0, record s { event = set_at s.event c state })

unfoldable pub fake_iiodev_read_event_value : Priv → Channel → Direction → ℤ × Option ℤ
fake_iiodev_read_event_value s c rising = (iio_val_int, some (pos (at s.high_thresh c)))
fake_iiodev_read_event_value s c falling = (iio_val_int, some (pos (at s.low_thresh c)))
fake_iiodev_read_event_value s c either = (einval, none)

unfoldable pub fake_iiodev_write_event_value : Priv → Channel → Direction → ℤ → ℤ × Priv
fake_iiodev_write_event_value s c rising val =
    (pos 0, record s { high_thresh = set_at s.high_thresh c (to_unsigned 8 val) })
fake_iiodev_write_event_value s c falling val =
    (pos 0, record s { low_thresh = set_at s.low_thresh c (to_unsigned 8 val) })
fake_iiodev_write_event_value s c either val = (einval, s)

-- The body of lux_auto_change's loop over the channels.
unfoldable pub push_events : Channel → Priv → Priv
push_events c s =
    let lux = at s.current_lux c in
    let up = if lux == at s.high_thresh c then (c, rising) ∷ s.events else s.events in
    let both = if lux == at s.low_thresh c then (c, falling) ∷ up else up in
    if at s.event c then record s { events = both } else s

unfoldable pub lux_auto_change : ℕ → ℕ → Priv → Priv
lux_auto_change hz jiffies s =
    let lux = (s.current_lux.0 + 1) % 256 in
    let lit = record s { current_lux = (lux, lux / 2) } in
    mod_timer hz jiffies (push_events ch1 (push_events ch0 lit))

-- In one step, as the mutex makes it; Iio.Scan has the steps.
unfoldable pub fake_iiodev_trigger_handler : Priv → Priv
fake_iiodev_trigger_handler s = record s {
  scans = (at s.current_lux ch0, at s.current_lux ch1) ∷ s.scans;
}

-- After a successful probe: the zeroed data, a frequency of 1 and the timer started.
unfoldable pub probed : ℕ → ℕ → Priv
probed hz jiffies = mod_timer hz jiffies (record {
  current_lux = (0, 0);
  freq = 1;
  event = (false, false);
  high_thresh = (0, 0);
  low_thresh = (0, 0);
  due = none;
  events = [];
  scans = [];
})
