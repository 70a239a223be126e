-- ===== src/Rtc.antt =====
-- The clock chip of 19.rtc/driver/rtc-ds1340.c: the time in seven BCD registers.
pub mod Map
pub mod Masks
pub mod Trip
pub mod Setup
mod Tests
use Prim.Native.Nat.{bit_and}
use linux_driver_kb.Prelude.{
  ℕ, ◌+◌, ◌*◌, ◌/◌, ◌%◌, ◌≤◌, ◌<◌, ◌≡◌, false, Option, none, some, List, [], ◌∷◌, get_or, length,
  if◌then◌else◌,
}
use linux_driver_kb.Prelude.Int.{ℤ, pos, ◌+ℤ◌, ◌-ℤ◌, is_neg, to_unsigned}

-- struct rtc_time, whose members are `int`s; months and week days count from 0, years from 1900.
pub record RtcTime : Type 0 where
  pub tm_sec : ℤ
  pub tm_min : ℤ
  pub tm_hour : ℤ
  pub tm_wday : ℤ
  pub tm_mday : ℤ
  pub tm_mon : ℤ
  pub tm_year : ℤ

-- bin2bcd and bcd2bin of the kernel, for numbers of two digits.
pub record Bcd : Type 0 where
  pub bin2bcd : ℕ → ℕ
  pub bcd2bin : ℕ → ℕ
  pub bin2bcd_two : (n : ℕ) → n < 100 → bin2bcd n ≡ n / 10 * 16 + n % 10
  pub bcd2bin_two : (b : ℕ) → b < 256 → bcd2bin b ≡ b / 16 * 10 + b % 16

-- The register map over the chip: bulk transfers from a register on, which may fail. Bytes that
-- were written are read back, while the clock does not tick.
pub record Regmap : Type 1 where
  pub Chip : Type 0
  pub bulk_read : Chip → ℕ → ℕ → ℤ × List ℕ
  pub bulk_write : Chip → ℕ → List ℕ → ℤ × Chip
  pub read_back :
      (c : Chip) (reg : ℕ) (bytes : List ℕ)
      → is_neg (bulk_write c reg bytes).0 ≡ false
      → is_neg (bulk_read (bulk_write c reg bytes).1 reg (length bytes)).0 ≡ false
      → (bulk_read (bulk_write c reg bytes).1 reg (length bytes)).1 ≡ bytes

abbrev reg_secs : ℕ
reg_secs = 0

module _ (bcd : Bcd) where
  -- The time in `buf`, which ds1340_get_time reads from the chip.
  unfoldable pub decode : List ℕ → RtcTime
  decode buf = record {
    tm_sec = pos (bcd.bcd2bin (bit_and (get_or buf 0 0) 0x7f));
    tm_min = pos (bcd.bcd2bin (bit_and (get_or buf 1 0) 0x7f));
    tm_hour = pos (bcd.bcd2bin (bit_and (get_or buf 2 0) 0x3f));
    tm_wday = pos (bcd.bcd2bin (bit_and (get_or buf 3 0) 0x07)) -ℤ pos 1;
    tm_mday = pos (bcd.bcd2bin (bit_and (get_or buf 4 0) 0x3f));
    tm_mon = pos (bcd.bcd2bin (bit_and (get_or buf 5 0) 0x1f)) -ℤ pos 1;
    tm_year = pos (bcd.bcd2bin (get_or buf 6 0)) +ℤ pos 100;
  }

  -- An `int` as bin2bcd's unsigned argument, and its result in an unsigned char.
  abbrev pub to_register : ℤ → ℕ
  to_register t = bcd.bin2bcd (to_unsigned 32 t) % 256

  -- The bytes that ds1340_set_time writes.
  unfoldable pub encode : RtcTime → List ℕ
  encode t =
      to_register t.tm_sec
      ∷ to_register t.tm_min
      ∷ to_register t.tm_hour
      ∷ to_register (t.tm_wday +ℤ pos 1)
      ∷ to_register t.tm_mday
      ∷ to_register (t.tm_mon +ℤ pos 1)
      ∷ to_register (t.tm_year -ℤ pos 100)
      ∷ []

  module _ (map : Regmap) where
    -- The return value, and the time where one was stored in `*t`.
    unfoldable pub ds1340_get_time : map.Chip → ℤ × Option RtcTime
    ds1340_get_time c =
        let (ret, buf) = map.bulk_read c reg_secs 7 in
        if is_neg ret then (ret, none) else (pos 0, some (decode buf))

    unfoldable pub ds1340_set_time : map.Chip → RtcTime → ℤ × map.Chip
    ds1340_set_time c t =
        let (ret, c') = map.bulk_write c reg_secs (encode t) in
        if is_neg ret then (ret, c') else (pos 0, c')
