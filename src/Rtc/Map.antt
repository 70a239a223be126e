-- ===== src/Rtc/Map.antt =====
-- The register map of 19.rtc/driver/rtc-ds1340.c: how the driver sets it up, and what that means for the time.
use linux_driver_kb.Prelude.{
  ℕ, refl, ◌+◌, ◌≤◌, ◌<◌, ◌≡◌, Bool, true, leb, some, none, List, arith, if◌then◌else◌,
}
use linux_driver_kb.Prelude.Int.{ℤ, pos, is_neg}
use linux_driver_kb.Kernel.Regmap.{RegmapConfig}
use linux_driver_kb.Rtc.{Regmap, Bcd, decode, ds1340_get_time}

unfoldable pub ds1340_is_volatile_reg : ℕ → Bool
ds1340_is_volatile_reg reg = leb reg 6

-- Without a test of its own every register may be written.
abbrev pub ds1340_regmap_config : RegmapConfig
ds1340_regmap_config = record {
  reg_bits = 8;
  val_bits = 8;
  max_register = 8;
  writeable_reg = λ reg. true;
  volatile_reg = ds1340_is_volatile_reg;
}

-- A bus on which registers are read from the chip itself.
pub record Bus : Type 1 where
  pub Chip : Type 0
  pub read_registers : Chip → ℕ → ℕ → ℤ × List ℕ

-- The kernel's register map over a bus. Registers that are all volatile are read in one transfer.
pub record Core (bus : Bus) (config : RegmapConfig) : Type 1 where
  pub map : Regmap
  pub chip : map.Chip → bus.Chip
  pub volatile_bulk :
      (m : map.Chip) (reg n : ℕ)
      → reg + n ≤ config.max_register + 1
      → ((i : ℕ) → i < n → config.volatile_reg (reg + i) ≡ true)
      → map.bulk_read m reg n ≡ bus.read_registers (chip m) reg n

module _ (bcd : Bcd) (bus : Bus) (core : Core bus ds1340_regmap_config) where
  -- The time is what seven registers of the chip say at that moment, in one transfer, and an error is the
  -- bus's: no byte of it is from the cache.
  pub get_time-fresh :
      (m : core.map.Chip)
      → let (ret, buf) = bus.read_registers (core.chip m) 0 7 in
        ds1340_get_time bcd core.map m
        ≡ (if is_neg ret then (ret, none) else (pos 0, some (decode bcd buf)))
  unfolding ds1340_get_time ds1340_is_volatile_reg
  get_time-fresh m =
      let all_volatile : (i : ℕ) → i < 7 → ds1340_is_volatile_reg (0 + i) ≡ true =
        λ i h. ground arith in
      rw (core.volatile_bulk m 0 7 (omega arith) all_volatile) refl
