-- ===== src/Tmp75.antt =====
-- The thermometer over a register map: 16.regmap/driver/tmp75.c and 18.hwmon/driver/tmp75.c, which
-- share the functions that talk to the chip.
pub mod Degrees
pub mod Calls
pub mod I2c
pub mod Attributes
pub mod Map
pub mod Setup
mod Tests
use linux_driver_kb.Prelude.{
  ℕ, zero, suc, ◌+◌, ◌-◌, ◌*◌, ◌/◌, ◌%◌, ◌^◌, ◌||◌, Option, none, some, List, [], ◌∷◌, ltb, get_or,
  if◌then◌else◌,
}
use linux_driver_kb.Prelude.Int.{ℤ, pos, negsuc, is_neg}
use linux_driver_kb.Kernel.Errno.{einval}

abbrev pub enotty : ℤ
enotty = negsuc 24

-- The bits of a temperature, by resolution_cfg.
abbrev pub resolution : List ℕ
resolution = 9 ∷ 10 ∷ 11 ∷ 12 ∷ []

abbrev pub bit_12 : ℕ
bit_12 = 3

-- REG_TMP75_CONF_RESOLUTION.
abbrev pub conf_resolution : ℕ → ℕ
conf_resolution x = x % 4 * 32

-- `unsigned int` to `short`.
abbrev pub to_short : ℕ → ℤ
to_short val = let n = val % 2 ^ 16 in if ltb n (2 ^ 15) then pos n else negsuc (2 ^ 16 - 1 - n)

-- The arithmetic shift to the right.
abbrev shift_right : ℤ → ℕ → ℤ
shift_right (pos n) k = pos (n / 2 ^ k)
shift_right (negsuc n) k = negsuc (n / 2 ^ k)

-- A product with a positive number, `suc k`.
abbrev pub scale : ℕ → ℤ → ℤ
scale k (pos n) = pos (suc k * n)
scale k (negsuc n) = negsuc (suc k * n + k)

-- The temperature in thousandths of a degree from the register's value; `bits` is the resolution.
unfoldable pub temperature : ℕ → ℕ → ℤ
temperature bits val = shift_right (scale 999 (shift_right (to_short val) (16 - bits))) (bits - 8)

-- The register map: a read, and an update of the bits of a mask.
pub record Regmap : Type 1 where
  pub Chip : Type 0
  pub read : Chip → ℕ → ℤ × ℕ
  pub update_bits : Chip → ℕ → ℕ → ℕ → ℤ × Chip

-- TMP75_SET_RESOLUTION, TMP75_GET_TEMPERATURE and the other commands.
pub data Cmd : Type 0 where
  set_resolution get_temperature other_cmd : Cmd

module _ (map : Regmap) where
  pub record Priv : Type 0 where
    pub resolution_cfg : ℕ
    pub chip : map.Chip

  unfoldable pub tmp75_set_resolution : Priv → ℕ → ℤ × map.Chip
  tmp75_set_resolution s cfg =
      map.update_bits s.chip 1 (conf_resolution bit_12) (conf_resolution cfg)

  -- The return value, and the temperature if it was stored.
  unfoldable pub tmp75_get_temperature : Priv → ℕ → ℤ × Option ℤ
  tmp75_get_temperature s cfg =
      let (ret, val) = map.read s.chip 0 in
      if is_neg ret then (ret, none) else (pos 0, some (temperature (get_or resolution cfg 0) val))

  -- The part that ioctl and the attribute's store have in common, after the test of the number.
  unfoldable pub change_resolution : Priv → ℕ → ℤ → ℤ × Priv
  unfolding tmp75_set_resolution
  change_resolution s cfg good =
      let (ret, chip) = tmp75_set_resolution s cfg in
      if is_neg ret
      then (ret, record s { chip = chip })
      else (good, record { resolution_cfg = cfg; chip = chip })

  -- `put` is put_user's result for a temperature. The enumeration has 32 bits without a sign.
  unfoldable pub tmp75_ioctl : (ℤ → ℤ) → Cmd → ℕ → Priv → ℤ × Priv
  unfolding change_resolution
  tmp75_ioctl put set_resolution arg s =
      let cfg = arg % 2 ^ 32 in
      if ltb bit_12 cfg then (einval, s) else change_resolution s cfg (pos 0)
  tmp75_ioctl put get_temperature arg s = elim (tmp75_get_temperature s s.resolution_cfg).1 [
    | none ↦ ((tmp75_get_temperature s s.resolution_cfg).0, s)
    | some t ↦ (put t, s)
  ]
  tmp75_ioctl put other_cmd arg s = (enotty, s)

  -- The attribute of the hwmon driver, with the number that sscanf read from `count` bytes.
  unfoldable pub tmp75_resolution_store : ℕ → ℕ → Priv → ℤ × Priv
  unfolding change_resolution
  tmp75_resolution_store cfg count s =
      if ltb cfg 0 || ltb bit_12 cfg then (einval, s) else change_resolution s cfg (pos count)
