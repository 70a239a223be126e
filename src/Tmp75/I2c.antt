-- ===== src/Tmp75/I2c.antt =====
-- The thermometer on the plain bus, 15.I2C/driver/tmp75.c, beside the one over a register map.
use linux_driver_kb.Prelude.{
  ℕ, ◌+◌, ◌*◌, ◌%◌, ◌^◌, if◌then◌else◌, ltb, Option, none, some, List, [], ◌∷◌, get_or,
}
use linux_driver_kb.Prelude.Int.{ℤ, pos, is_neg}
use linux_driver_kb.Kernel.Errno.{einval}
use linux_driver_kb.Tmp75.{
  Cmd, set_resolution, get_temperature, other_cmd, resolution, bit_12, temperature, enotty,
  conf_resolution,
}

-- The bus with the chip on it. `send` is i2c_master_send; `exchange` writes a register's number and
-- reads some bytes of it.
pub record Bus : Type 1 where
  pub Chip : Type 0
  pub send : Chip → List ℕ → ℤ × Chip
  pub exchange : Chip → ℕ → ℕ → ℤ × List ℕ

module _ (bus : Bus) where
  pub record Priv : Type 0 where
    pub resolution_cfg : ℕ
    pub chip : bus.Chip

  unfoldable pub tmp75_write_reg : Priv → ℕ → List ℕ → ℤ × bus.Chip
  tmp75_write_reg s reg buf = bus.send s.chip (reg ∷ buf)

  unfoldable pub tmp75_read_reg : Priv → ℕ → ℕ → ℤ × List ℕ
  tmp75_read_reg s reg len = bus.exchange s.chip reg len

  unfoldable pub tmp75_set_resolution : Priv → ℕ → ℤ × bus.Chip
  unfolding tmp75_write_reg
  tmp75_set_resolution s res_cfg = tmp75_write_reg s 1 (conf_resolution res_cfg ∷ [])

  -- The two bytes do not overlap: the `|` adds them.
  unfoldable pub tmp75_get_temperature : Priv → ℕ → ℤ × Option ℤ
  unfolding tmp75_read_reg
  tmp75_get_temperature s res_cfg =
      let (ret, buf) = tmp75_read_reg s 0 2 in
      if is_neg ret then (ret, none) else (
        pos 0,
        some (temperature (get_or resolution res_cfg 0) (get_or buf 0 0 * 2 ^ 8 + get_or buf 1 0)),
      )

  -- `put` is put_user's result for a temperature.
  unfoldable pub tmp75_ioctl : (ℤ → ℤ) → Cmd → ℕ → Priv → ℤ × Priv
  tmp75_ioctl put set_resolution arg s =
      let cfg = arg % 2 ^ 32 in
      let (ret, chip) = tmp75_set_resolution s cfg in
      if ltb bit_12 cfg
      then (einval, s)
      else (if is_neg ret
          then (ret, record s { chip = chip })
          else (pos 0, record { resolution_cfg = cfg; chip = chip }))
  tmp75_ioctl put get_temperature arg s = elim (tmp75_get_temperature s s.resolution_cfg).1 [
    | none ↦ ((tmp75_get_temperature s s.resolution_cfg).0, s)
    | some t ↦ (put t, s)
  ]
  tmp75_ioctl put other_cmd arg s = (enotty, s)
