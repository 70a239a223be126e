-- ===== src/Tmp75/Calls.antt =====
-- Calls of the two drivers in any order.
use linux_driver_kb.Prelude.{ℕ, ◌≤◌, List, [], ◌∷◌, arith}
use linux_driver_kb.Prelude.Int.{ℤ}
use linux_driver_kb.Tmp75.{
  Regmap, Cmd, set_resolution, get_temperature, other_cmd, Priv, bit_12, tmp75_ioctl,
  tmp75_resolution_store,
}

pub data Call : Type 0 where
  ioctl : Cmd → ℕ → Call
  store : ℕ → ℕ → Call

module _ (map : Regmap) (put : ℤ → ℤ) where
  unfoldable pub step : Priv map → Call → Priv map
  step s (ioctl cmd arg) = (tmp75_ioctl map put cmd arg s).1
  step s (store cfg count) = (tmp75_resolution_store map cfg count s).1

  unfoldable pub run : Priv map → List Call → Priv map
  run s [] = s
  run s (c ∷ cs) = run (step s c) cs

  step-in_table :
      (s : Priv map) (c : Call) → s.resolution_cfg ≤ bit_12 → (step s c).resolution_cfg ≤ bit_12
  unfolding step tmp75_ioctl tmp75_resolution_store
  step-in_table s (ioctl set_resolution arg) h = ground arith
  step-in_table s (ioctl get_temperature arg) h = ground arith
  step-in_table s (ioctl other_cmd arg) h = h
  step-in_table s (store cfg count) h = ground arith

  -- Whatever is asked of either driver, in whatever order, and whatever the bus answers: the index into
  -- the table of resolutions stays inside it.
  pub run-in_table :
      (s : Priv map) (cs : List Call)
      → s.resolution_cfg ≤ bit_12
      → (run s cs).resolution_cfg ≤ bit_12
  unfolding run
  run-in_table s [] h = h
  run-in_table s (c ∷ cs) h = run-in_table (step s c) cs (step-in_table s c h)
