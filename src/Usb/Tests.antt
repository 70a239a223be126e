-- ===== src/Usb/Tests.antt =====
-- The mouse at concrete transfers.
use linux_driver_kb.Prelude.{List, [], ◌∷◌, ◌≡◌, refl, true, false}
use linux_driver_kb.Usb.Mouse.Poll.{
  left_click, right_click, wheel_click, Transfer, pressed, bus_error, all_seen,
}

-- A left click, a failed transfer, and two buttons at once.
abbrev transfers : List Transfer
transfers = pressed true false false 0 ∷ bus_error 70 ∷ pressed false true true 3 ∷ []

three_clicks : all_seen transfers ≡ left_click ∷ right_click ∷ wheel_click ∷ []
three_clicks = refl
