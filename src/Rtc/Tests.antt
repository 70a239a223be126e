-- ===== src/Rtc/Tests.antt =====
-- The clock chip at a concrete time, over registers that always answer.
use linux_driver_kb.Prelude.{
  ℕ, ◌+◌, ◌*◌, ◌/◌, ◌%◌, ◌≡◌, ◌⊎◌, refl, ap, true, none, some, List, [], ◌∷◌, arith, length, take,
}
use linux_driver_kb.Prelude.Int.{pos, is_neg}
use linux_driver_kb.Rtc.{RtcTime, Bcd, Regmap, encode, ds1340_get_time, ds1340_set_time}
use linux_driver_kb.Rtc.Trip.{get_time-set_time}

abbrev two_digits : Bcd
two_digits = record {
  bin2bcd = λ n. n / 10 * 16 + n % 10;
  bcd2bin = λ b. b / 16 * 10 + b % 16;
  bin2bcd_two = λ n h. refl;
  bcd2bin_two = λ b h. refl;
}

take-length : (bytes : List ℕ) → take (length bytes) bytes ≡ bytes
take-length [] = refl
take-length (b ∷ bytes) = ap (λ l. b ∷ l) (take-length bytes)

abbrev registers : Regmap
registers = record {
  Chip = List ℕ;
  bulk_read = λ c reg n. (pos 0, take n c);
  bulk_write = λ c reg bytes. (pos 0, bytes);
  read_back = λ c reg bytes p q. take-length bytes;
}

-- Wednesday, 31 December 2025, 23:59:07
abbrev new_year : RtcTime
new_year = record {
  tm_sec = pos 7;
  tm_min = pos 59;
  tm_hour = pos 23;
  tm_wday = pos 3;
  tm_mday = pos 31;
  tm_mon = pos 11;
  tm_year = pos 125;
}

new_year_bytes : encode two_digits new_year ≡ 0x07 ∷ 0x59 ∷ 0x23 ∷ 0x04 ∷ 0x31 ∷ 0x12 ∷ 0x25 ∷ []
unfolding encode
new_year_bytes = refl

get_time-set_time_example :
    let (ret, got) =
      ds1340_get_time two_digits registers (ds1340_set_time two_digits registers [] new_year).1 in
    ((ret ≡ pos 0) × (got ≡ some new_year)) ⊎ ((is_neg ret ≡ true) × (got ≡ none))
unfolding ds1340_set_time
get_time-set_time_example =
    get_time-set_time two_digits registers [] new_year
      (record {
        nonneg = (refl, refl, refl, refl, refl, refl, refl);
        clock = omega arith;
        date = omega arith;
        century = omega arith;
      })
      refl
