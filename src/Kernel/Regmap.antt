-- ===== src/Kernel/Regmap.antt =====
-- What a driver tells the kernel of the registers of its chip, in a struct regmap_config.
use linux_driver_kb.Prelude.{ℕ, Bool}

-- A register that may not be written is not among those of `writeable_reg`; one that is among those of
-- `volatile_reg` is never read from the cache.
pub record RegmapConfig : Type 0 where
  pub reg_bits : ℕ
  pub val_bits : ℕ
  pub max_register : ℕ
  pub writeable_reg : ℕ → Bool
  pub volatile_reg : ℕ → Bool
