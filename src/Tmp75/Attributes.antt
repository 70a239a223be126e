-- ===== src/Tmp75/Attributes.antt =====
-- The attributes of 18.hwmon/driver/tmp75.c: the temperature and the resolution.
use linux_driver_kb.Prelude.{ℕ, ◌≡◌, refl, ◌⊎◌, inl, inr, true, false, List, Option, none, arith}
use linux_driver_kb.Prelude.Int.{ℤ, is_neg}
use linux_driver_kb.Kernel.Errno.{einval}
use linux_driver_kb.Tmp75.{
  Regmap, Priv, change_resolution, tmp75_get_temperature, tmp75_set_resolution,
  tmp75_resolution_store,
}

-- hwmon_temp_input, the other attributes of a temperature, and those of another type.
pub data Attribute : Type 0 where
  temp_input other_temp other_type : Attribute

-- S_IRUGO.
abbrev s_irugo : ℕ
s_irugo = 292

unfoldable pub tmp75_is_visible : Attribute → ℕ
tmp75_is_visible temp_input = s_irugo
tmp75_is_visible _ = 0

module _ (map : Regmap) where
  -- The functions that talk to the chip are those of 16.regmap.
  abbrev hwmon_set_resolution : Priv map → ℕ → ℤ × map.Chip
  hwmon_set_resolution = tmp75_set_resolution map

  abbrev hwmon_get_temperature : Priv map → ℕ → ℤ × Option ℤ
  hwmon_get_temperature = tmp75_get_temperature map

  -- The return value, and `*val` where it was stored.
  unfoldable pub tmp75_read : Priv map → Attribute → ℤ × Option ℤ
  tmp75_read s temp_input = hwmon_get_temperature s s.resolution_cfg
  tmp75_read s _ = (einval, none)

  -- What cannot be seen cannot be read either, and what is read is the temperature.
  pub is_visible-read :
      (s : Priv map) (a : Attribute)
      → (tmp75_is_visible a ≡ 0) × (tmp75_read s a ≡ (einval, none))
        ⊎ (tmp75_is_visible a ≡ s_irugo)
          × (tmp75_read s a ≡ tmp75_get_temperature map s s.resolution_cfg)
  unfolding tmp75_is_visible tmp75_read
  is_visible-read s temp_input = inr (refl, refl)
  is_visible-read s other_temp = inl (refl, refl)
  is_visible-read s other_type = inl (refl, refl)

  module _ (sprintf : ℕ → List ℕ) where
    unfoldable pub tmp75_resolution_show : Priv map → List ℕ
    tmp75_resolution_show s = sprintf s.resolution_cfg

    -- A resolution that was stored without an error is shown; after an error the old one is shown still.
    pub resolution_show-store :
        (cfg count : ℕ) (s : Priv map)
        → let (ret, s') = tmp75_resolution_store map cfg count s in
          (is_neg ret ≡ false) × (tmp75_resolution_show s' ≡ sprintf cfg)
          ⊎ (is_neg ret ≡ true) × (tmp75_resolution_show s' ≡ tmp75_resolution_show s)
    unfolding tmp75_resolution_store change_resolution tmp75_resolution_show
    resolution_show-store cfg count s = ground arith
