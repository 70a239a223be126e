-- ===== src/Iio/Values.antt =====
-- The attributes of the sensor.
use linux_driver_kb.Prelude.{ℕ, ◌+◌, ◌*◌, ◌-◌, ◌%◌, ◌^◌, ◌≡◌, ◌≢◌, ◌⊎◌, refl, some, arith}
use linux_driver_kb.Prelude.Int.{ℤ, pos, negsuc, ◌≤ℤ◌, ◌<ℤ◌, to_unsigned, signed32}
use linux_driver_kb.Iio.{
  Channel, Direction, either, int_time, Priv, iio_val_int, fake_iiodev_read_raw,
  fake_iiodev_write_raw, fake_iiodev_read_event_value, fake_iiodev_write_event_value,
}

-- A written threshold is read back as its lowest byte, so unchanged if it fits one; and the
-- thresholds of the other channel and of the other direction stay.
pub read_event_value-write :
    (s : Priv) (c c' : Channel) (dir dir' : Direction) (val : ℤ)
    → dir ≢ either
    → (c' ≢ c) ⊎ (dir' ≢ dir)
    → let s' = (fake_iiodev_write_event_value s c dir val).1 in
      (fake_iiodev_read_event_value s' c dir ≡ (iio_val_int, some (pos (to_unsigned 8 val))))
      × (fake_iiodev_read_event_value s' c' dir' ≡ fake_iiodev_read_event_value s c' dir')
unfolding fake_iiodev_write_event_value fake_iiodev_read_event_value
read_event_value-write s c c' dir dir' val ne other = ground arith

signed32-to_unsigned :
    (val : ℤ)
    → negsuc (2 ^ 31 - 1) ≤ℤ val
    → val <ℤ pos (2 ^ 31)
    → signed32 (to_unsigned 32 val) ≡ val
signed32-to_unsigned (pos n) low high = ground arith
signed32-to_unsigned (negsuc n) low high = ground arith

-- Whatever `int` is written as the integration time, the write succeeds, the time is read back, and the
-- timer is set to it, taken as an unsigned number of seconds: also for a time outside the range of 1 to 5.
pub write_raw_unchecked :
    (hz jiffies : ℕ) (s : Priv) (c : Channel) (val : ℤ)
    → negsuc (2 ^ 31 - 1) ≤ℤ val
    → val <ℤ pos (2 ^ 31)
    → let (ret, s') = fake_iiodev_write_raw hz jiffies s c val int_time in
      (ret ≡ pos 0)
      × (fake_iiodev_read_raw s' c int_time ≡ (iio_val_int, some val))
      × (s'.due ≡ some (jiffies + to_unsigned 32 val * hz % 2 ^ 32))
unfolding fake_iiodev_write_raw fake_iiodev_read_raw
write_raw_unchecked hz jiffies s c val low high =
    (refl, rw (signed32-to_unsigned val low high) refl, refl)
