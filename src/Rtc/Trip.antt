-- ===== src/Rtc/Trip.antt =====
-- A time that is set is read back.
use Prim.Native.Nat.{bit_and}
use linux_driver_kb.Prelude.{
  ℕ, ◌+◌, ◌-◌, ◌*◌, ◌/◌, ◌%◌, ◌≤◌, ◌<◌, ◌≡◌, ◌⊎◌, refl, true, none, some, ◌^◌, arith, length,
}
use linux_driver_kb.Prelude.Int.{pos, pos_part, is_neg}
use linux_driver_kb.Rtc.{
  RtcTime, Bcd, Regmap, to_register, decode, encode, ds1340_get_time, ds1340_set_time,
}
use linux_driver_kb.Rtc.Masks.{bit_and-masks}

-- A time of the years 2000 to 2099 in the kernel's ranges.
pub record IsTime (t : RtcTime) : Type 0 where
  pub nonneg :
      (t.tm_sec ≡ pos (pos_part t.tm_sec))
      × (t.tm_min ≡ pos (pos_part t.tm_min))
      × (t.tm_hour ≡ pos (pos_part t.tm_hour))
      × (t.tm_wday ≡ pos (pos_part t.tm_wday))
      × (t.tm_mday ≡ pos (pos_part t.tm_mday))
      × (t.tm_mon ≡ pos (pos_part t.tm_mon))
      × (t.tm_year ≡ pos (pos_part t.tm_year))
  pub clock : (pos_part t.tm_sec < 60) × (pos_part t.tm_min < 60) × (pos_part t.tm_hour < 24)
  pub date : (pos_part t.tm_wday < 7) × (pos_part t.tm_mday < 32) × (pos_part t.tm_mon < 12)
  pub century : (100 ≤ pos_part t.tm_year) × (pos_part t.tm_year < 200)

-- A number of two digits in a register.
abbrev digits : ℕ → ℕ
digits n = n / 10 * 16 + n % 10

module _ (bcd : Bcd) where
  register : (n : ℕ) → n < 100 → to_register bcd (pos n) ≡ digits n
  register n h =
      let word : n % 2 ^ 32 ≡ n = omega arith in rw word (omega (arith, bcd.bin2bcd_two n h))

  number : (n : ℕ) → n < 100 → bcd.bcd2bin (digits n) ≡ n
  number n h = omega (arith, bcd.bcd2bin_two (digits n))

  -- A number goes through a register and each mask that keeps its digits.
  plain : (n : ℕ) → n < 100 → bcd.bcd2bin (to_register bcd (pos n)) ≡ n
  plain n h = rw (register n h) (number n h)

  low_7 : (n : ℕ) → n < 80 → bcd.bcd2bin (bit_and (to_register bcd (pos n)) 0x7f) ≡ n
  low_7 n h =
      let kept : bit_and (digits n) 0x7f ≡ digits n =
        omega (arith, (bit_and-masks (digits n) (omega arith)).0) in
      rw (register n (omega arith), kept) (number n (omega arith))

  low_6 : (n : ℕ) → n < 40 → bcd.bcd2bin (bit_and (to_register bcd (pos n)) 0x3f) ≡ n
  low_6 n h =
      let kept : bit_and (digits n) 0x3f ≡ digits n =
        omega (arith, (bit_and-masks (digits n) (omega arith)).1) in
      rw (register n (omega arith), kept) (number n (omega arith))

  low_5 : (n : ℕ) → n < 20 → bcd.bcd2bin (bit_and (to_register bcd (pos n)) 0x1f) ≡ n
  low_5 n h =
      let kept : bit_and (digits n) 0x1f ≡ digits n =
        omega (arith, (bit_and-masks (digits n) (omega arith)).2) in
      rw (register n (omega arith), kept) (number n (omega arith))

  low_3 : (n : ℕ) → n < 8 → bcd.bcd2bin (bit_and (to_register bcd (pos n)) 0x07) ≡ n
  low_3 n h =
      let kept : bit_and (digits n) 0x07 ≡ digits n =
        omega (arith, (bit_and-masks (digits n) (omega arith)).3) in
      rw (register n (omega arith), kept) (number n (omega arith))

  decode-encode : (t : RtcTime) → IsTime t → decode bcd (encode bcd t) ≡ t
  unfolding decode encode
  decode-encode t v = ground (
    arith,
    v,
    low_7 (pos_part t.tm_sec),
    low_7 (pos_part t.tm_min),
    low_6 (pos_part t.tm_hour),
    low_3 (pos_part t.tm_wday + 1),
    low_6 (pos_part t.tm_mday),
    low_5 (pos_part t.tm_mon + 1),
    plain (pos_part t.tm_year - 100),
  )

  length-encode : (t : RtcTime) → length (encode bcd t) ≡ 7
  unfolding encode
  length-encode t = refl

  module _ (map : Regmap) where
    -- After a time of the years 2000 to 2099 was set without an error, reading it gives the same
    -- time, or the error of the read.
    pub get_time-set_time :
        (c : map.Chip) (t : RtcTime)
        → IsTime t
        → (ds1340_set_time bcd map c t).0 ≡ pos 0
        → let (ret, got) = ds1340_get_time bcd map (ds1340_set_time bcd map c t).1 in
          ((ret ≡ pos 0) × (got ≡ some t)) ⊎ ((is_neg ret ≡ true) × (got ≡ none))
    unfolding ds1340_get_time ds1340_set_time
    get_time-set_time c t v ok =
        ground (arith, map.read_back c 0 (encode bcd t), length-encode t, decode-encode t v)
