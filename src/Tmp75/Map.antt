-- ===== src/Tmp75/Map.antt =====
-- The register map of 16.regmap/driver/tmp75.c and 18.hwmon/driver/tmp75.c: how the drivers set it up, and
-- what that means for the temperature.
use linux_driver_kb.Prelude.{
  ℕ, ◌+◌, ◌*◌, ◌/◌, ◌^◌, ◌≤◌, ◌≡◌, ◌==◌, not, Bool, true, false, List, [], ◌∷◌,
}
use linux_driver_kb.Prelude.Int.{pos, is_neg}
use linux_driver_kb.Kernel.Regmap.{RegmapConfig}
use linux_driver_kb.Tmp75.{Regmap}
use linux_driver_kb.Tmp75.I2c
use linux_driver_kb.Tmp75.I2c.{Bus}

unfoldable pub tmp75_is_writeable_reg : ℕ → Bool
tmp75_is_writeable_reg reg = not (reg == 0)

unfoldable pub tmp75_is_volatile_reg : ℕ → Bool
tmp75_is_volatile_reg reg = reg == 0

-- The values are put on the bus with the higher byte first.
abbrev pub tmp75_regmap_config : RegmapConfig
tmp75_regmap_config = record {
  reg_bits = 8;
  val_bits = 16;
  max_register = 2;
  writeable_reg = tmp75_is_writeable_reg;
  volatile_reg = tmp75_is_volatile_reg;
}

-- The same configuration in the driver of 18.hwmon.
abbrev hwmon_regmap_config : RegmapConfig
hwmon_regmap_config = tmp75_regmap_config

-- The number that bytes stand for, the higher first.
abbrev pub big_endian : List ℕ → ℕ → ℕ
big_endian [] n = n
big_endian (b ∷ bs) n = big_endian bs (n * 2 ^ 8 + b)

-- The kernel's register map over a bus. A volatile register is never read from the cache.
pub record Core (bus : Bus) (config : RegmapConfig) : Type 1 where
  pub map : Regmap
  pub chip : map.Chip → bus.Chip
  pub volatile_reads :
      (m : map.Chip) (reg : ℕ)
      → reg ≤ config.max_register
      → config.volatile_reg reg ≡ true
      → let (r, buf) = bus.exchange (chip m) reg (config.val_bits / 8) in
        (is_neg r ≡ true → (map.read m reg).0 ≡ r)
        × (is_neg r ≡ false → map.read m reg ≡ (pos 0, big_endian buf 0))

-- The bus answers a read with as many bytes as were asked for.
abbrev pub Answers : Bus → Type 0
Answers bus =
    (c : bus.Chip) (reg : ℕ)
    → is_neg (bus.exchange c reg 2).0 ≡ false
    → (high low : ℕ) × ((bus.exchange c reg 2).1 ≡ high ∷ low ∷ [])
