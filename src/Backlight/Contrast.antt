-- ===== src/Backlight/Contrast.antt =====
-- The brightness of backlight-drv.c, which sets the panel's contrast.
use linux_driver_kb.Prelude.{ℕ, ◌%◌, ◌^◌, ◌≡◌, false, if◌then◌else◌, List, [], ◌∷◌, ◌⊎◌, arith}
use linux_driver_kb.Prelude.Int.{ℤ, pos, is_neg}

-- The bus with the panel on it: i2c_master_send.
pub record Bus : Type 1 where
  pub Panel : Type 0
  pub send : Panel → List ℕ → ℤ × Panel

module _ (bus : Bus) where
  pub record Oled : Type 0 where
    pub contrast : ℕ
    pub panel : bus.Panel

  unfoldable pub oled_write_cmd : bus.Panel → ℕ → ℤ × bus.Panel
  oled_write_cmd panel cmd = bus.send panel (0x80 ∷ cmd % 2 ^ 8 ∷ [])

  unfoldable pub oled_update_bl : ℕ → Oled → ℤ × Oled
  unfolding oled_write_cmd
  oled_update_bl brightness oled =
      let (ret, panel) = oled_write_cmd oled.panel 0x81 in
      let (ret', panel') = oled_write_cmd panel brightness in
      if is_neg ret
      then (ret, record { contrast = brightness; panel = panel })
      else (if is_neg ret'
          then (ret', record { contrast = brightness; panel = panel' })
          else (pos 0, record { contrast = brightness; panel = panel' }))

  unfoldable pub oled_get_brightness : Oled → ℕ
  oled_get_brightness oled = oled.contrast

  -- The brightness that is read back is the one asked for last, whether or not the panel was reached: an
  -- update whose first command the bus refuses returns the bus's error, and the new brightness is
  -- read back although the panel was sent nothing else.
  pub get-update :
      (brightness : ℕ) (oled : Oled)
      → let (ret, oled') = oled_update_bl brightness oled in
        let (first, panel) = oled_write_cmd oled.panel 0x81 in
        (oled_get_brightness oled' ≡ brightness)
        × ((is_neg first ≡ false) ⊎ ((ret ≡ first) × (oled'.panel ≡ panel)))
  unfolding oled_update_bl oled_write_cmd oled_get_brightness
  get-update brightness oled = ground arith
