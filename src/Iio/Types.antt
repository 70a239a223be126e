-- ===== src/Iio/Types.antt =====
-- The fields of the sensor keep to their types in C.
use linux_driver_kb.Prelude.{
  ℕ, ◌+◌, ◌/◌, ◌^◌, ◌<◌, ◌≡◌, refl, Bool-cases, inl, inr, ◌%◌, List, [], ◌∷◌, arith,
}
use linux_driver_kb.Prelude.Int.{ℤ, pos, negsuc, to_unsigned}
use linux_driver_kb.Iio.{
  Channel, ch0, ch1, rising, falling, either, processed, int_time, other_info, Priv, at,
  fake_iiodev_write_raw, fake_iiodev_write_event_config, fake_iiodev_write_event_value, push_events,
  lux_auto_change, fake_iiodev_trigger_handler, probed,
}
use linux_driver_kb.Iio.Light.{
  Call, write_raw, write_event_config, write_event_value, timer, trigger, step, run,
}

-- Two values of `unsigned char`.
abbrev pub AreChars : ℕ × ℕ → Type 0
AreChars p = (p.0 < 256) × (p.1 < 256)

-- A sample: the light and the half of it.
abbrev pub IsSample : ℕ × ℕ → Type 0
IsSample p = (p.0 < 256) × (p.1 ≡ p.0 / 2)

pub data AllSamples : List (ℕ × ℕ) → Type 0 where
  no_sample : AllSamples []
  sample : {p : ℕ × ℕ} {ps : List (ℕ × ℕ)} → IsSample p → AllSamples ps → AllSamples (p ∷ ps)

pub record IsTyped (s : Priv) : Type 0 where
  pub lux : IsSample s.current_lux
  pub freq : s.freq < 2 ^ 32
  pub high : AreChars s.high_thresh
  pub low : AreChars s.low_thresh
  pub scans : AllSamples s.scans

to_unsigned8 : (val : ℤ) → to_unsigned 8 val < 256
to_unsigned8 (pos n) = ground arith
to_unsigned8 (negsuc n) = ground arith

to_unsigned32 : (val : ℤ) → to_unsigned 32 val < 2 ^ 32
to_unsigned32 (pos n) = ground arith
to_unsigned32 (negsuc n) = ground arith

push_events-IsTyped : (c : Channel) (s : Priv) → IsTyped s → IsTyped (push_events c s)
unfolding push_events
push_events-IsTyped c s t = elim (Bool-cases (at s.event c)) [
  | inl enabled ↦
      rw enabled
        (record { lux = t.lux; freq = t.freq; high = t.high; low = t.low; scans = t.scans })
  | inr disabled ↦ rw disabled t
]

step-IsTyped : (hz : ℕ) (s : Priv) (c : Call) → IsTyped s → IsTyped (step hz s c)
unfolding step fake_iiodev_write_raw fake_iiodev_write_event_config fake_iiodev_write_event_value
    lux_auto_change push_events fake_iiodev_trigger_handler
step-IsTyped hz s (write_raw now c val int_time) t = record {
  lux = t.lux;
  freq = to_unsigned32 val;
  high = t.high;
  low = t.low;
  scans = t.scans;
}
step-IsTyped hz s (write_raw now c val processed) t = t
step-IsTyped hz s (write_raw now c val other_info) t = t
step-IsTyped hz s (write_event_config c state) t = record {
  lux = t.lux;
  freq = t.freq;
  high = t.high;
  low = t.low;
  scans = t.scans;
}
step-IsTyped hz s (write_event_value ch0 rising val) t = record {
  lux = t.lux;
  freq = t.freq;
  high = (to_unsigned8 val, t.high.1);
  low = t.low;
  scans = t.scans;
}
step-IsTyped hz s (write_event_value ch1 rising val) t = record {
  lux = t.lux;
  freq = t.freq;
  high = (t.high.0, to_unsigned8 val);
  low = t.low;
  scans = t.scans;
}
step-IsTyped hz s (write_event_value ch0 falling val) t = record {
  lux = t.lux;
  freq = t.freq;
  high = t.high;
  low = (to_unsigned8 val, t.low.1);
  scans = t.scans;
}
step-IsTyped hz s (write_event_value ch1 falling val) t = record {
  lux = t.lux;
  freq = t.freq;
  high = t.high;
  low = (t.low.0, to_unsigned8 val);
  scans = t.scans;
}
step-IsTyped hz s (write_event_value c either val) t = t
step-IsTyped hz s (timer now) t =
    let lux = (s.current_lux.0 + 1) % 256 in
    let lit : IsTyped (record s { current_lux = (lux, lux / 2) }) = record {
      lux = (omega arith, refl);
      freq = t.freq;
      high = t.high;
      low = t.low;
      scans = t.scans;
    } in
    let pushed = push_events-IsTyped ch1 _ (push_events-IsTyped ch0 _ lit) in
    record {
      lux = pushed.lux;
      freq = pushed.freq;
      high = pushed.high;
      low = pushed.low;
      scans = pushed.scans;
    }
step-IsTyped hz s trigger t = record {
  lux = t.lux;
  freq = t.freq;
  high = t.high;
  low = t.low;
  scans = sample t.lux t.scans;
}

probed-IsTyped : (hz jiffies : ℕ) → IsTyped (probed hz jiffies)
unfolding probed
probed-IsTyped hz jiffies = record {
  lux = (omega arith, refl);
  freq = omega arith;
  high = (omega arith, omega arith);
  low = (omega arith, omega arith);
  scans = no_sample;
}

run_from-IsTyped : (hz : ℕ) (cs : List Call) (s : Priv) → IsTyped s → IsTyped (run hz s cs)
unfolding run
run_from-IsTyped hz [] s t = t
run_from-IsTyped hz (c ∷ cs) s t = run_from-IsTyped hz cs (step hz s c) (step-IsTyped hz s c t)

-- After the probe and any calls every field has a value of its type in C: the thresholds and the light are
-- unsigned chars and the integration time an unsigned int, so no reader sees more than was stored; and each
-- scan in the buffer is a light with its half, never a light of one time with the half of another.
pub run-IsTyped : (hz jiffies : ℕ) (cs : List Call) → IsTyped (run hz (probed hz jiffies) cs)
run-IsTyped hz jiffies cs = run_from-IsTyped hz cs (probed hz jiffies) (probed-IsTyped hz jiffies)
