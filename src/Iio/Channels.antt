-- ===== src/Iio/Channels.antt =====
-- The table of the sensor's channels, and why its handlers index their arrays of two as they do.
use linux_driver_kb.Prelude.{
  ℕ, zero, suc, ◌≡◌, refl, ◌⊎◌, inl, inr, List, [], ◌∷◌, ◌++◌, some, get_elem?,
}
use linux_driver_kb.Iio.{Channel, ch0, ch1, Direction, rising, falling, Info, processed, int_time}

-- An iio_chan_spec: scan_index, channel, the masks, the directions of event_spec, and the width of a sample.
pub record ChanSpec : Type 0 where
  pub scan_index : ℕ
  pub channel : ℕ
  pub info_mask_separate : List Info
  pub info_mask_shared_by_type : List Info
  pub event_spec : List Direction
  pub storagebits : ℕ

abbrev pub fake_iiodev_event_spec : List Direction
fake_iiodev_event_spec = rising ∷ falling ∷ []

-- IIO_CHAN_SOFT_TIMESTAMP, the kernel's: a channel at an index, without attributes.
pub record Timestamp : Type 0 where
  pub soft_timestamp : ℕ → ChanSpec
  pub no_attributes :
      (i : ℕ)
      → ((soft_timestamp i).info_mask_separate ≡ [])
        × ((soft_timestamp i).info_mask_shared_by_type ≡ [])
        × ((soft_timestamp i).event_spec ≡ [])

-- The index of a channel of the model.
abbrev pub index : Channel → ℕ
index ch0 = 0
index ch1 = 1

abbrev light0 : ChanSpec
light0 = record {
  scan_index = 0;
  channel = 0;
  info_mask_separate = processed ∷ [];
  info_mask_shared_by_type = int_time ∷ [];
  event_spec = fake_iiodev_event_spec;
  storagebits = 8;
}

abbrev light1 : ChanSpec
light1 = record {
  scan_index = 1;
  channel = 1;
  info_mask_separate = processed ∷ [];
  info_mask_shared_by_type = [];
  event_spec = fake_iiodev_event_spec;
  storagebits = 8;
}

module _ (kernel : Timestamp) where
  abbrev pub fake_iiodev_channels : List ChanSpec
  fake_iiodev_channels = light0 ∷ light1 ∷ kernel.soft_timestamp 2 ∷ []

  -- A channel of the table has no attributes and no events, so that no handler is called for it, or it is
  -- one of the two that the model has, and its scan index is a place in the arrays of two bytes.
  pub fake_iiodev_channels-index :
      (i : ℕ) (spec : ChanSpec)
      → get_elem? fake_iiodev_channels i ≡ some spec
      → (spec.info_mask_separate ++ spec.info_mask_shared_by_type ≡ []) × (spec.event_spec ≡ [])
        ⊎ ((c : Channel) × (spec.scan_index ≡ index c) × (spec.channel ≡ index c))
  fake_iiodev_channels-index zero spec e =
      let found : light0 ≡ spec = cc e in rw (← found) (inr (ch0, refl, refl))
  fake_iiodev_channels-index (suc zero) spec e =
      let found : light1 ≡ spec = cc e in rw (← found) (inr (ch1, refl, refl))
  fake_iiodev_channels-index (suc (suc zero)) spec e =
      let found : kernel.soft_timestamp 2 ≡ spec = cc e in
      let (separate, shared, events) = kernel.no_attributes 2 in
      rw (← found) (inl (rw (separate, shared) refl, events))
  fake_iiodev_channels-index (suc (suc (suc i))) spec e = absurd (cc e)
