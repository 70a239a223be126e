-- ===== src/Tmp75/Setup.antt =====
-- Probe and remove of the three drivers of the thermometer.
use linux_driver_kb.Prelude.{◌∷◌, List, refl}
use linux_driver_kb.Prelude.Int.{pos, negsuc}
use linux_driver_kb.Kernel.Errno.{enomem}
use linux_driver_kb.Kernel.Ledger.{
  Kernel, Code, return, acquire, drop_res, Res, Res-discrete, devm_mem, devm_regmap, devm_hwmon,
  miscdev, Runs, ProbeEnds, Gone, acquire_rule, drop_rule, probe_error_rule, probe_done_rule,
  Gone-rule,
}

-- 15.I2C/driver/tmp75.c.
pub i2c_tmp75_probe : Kernel → Code
i2c_tmp75_probe k =
    acquire k devm_mem (λ _. return enomem)
      (acquire k miscdev (λ n. return (negsuc n)) (return (pos 0)))

pub i2c_tmp75_remove : Code
i2c_tmp75_remove = drop_res miscdev (return (pos 0))

pub i2c_tmp75_probe-Runs :
    (k : Kernel) (held : List Res)
    → Runs (ProbeEnds held (miscdev ∷ devm_mem ∷ held)) held (i2c_tmp75_probe k)
unfolding i2c_tmp75_probe Res-discrete
i2c_tmp75_probe-Runs k held =
    acquire_rule k devm_mem (λ _. probe_error_rule held 11 refl)
      (acquire_rule k miscdev (λ n. probe_error_rule held n refl) (probe_done_rule held))

pub i2c_tmp75_remove-Runs :
    (held : List Res) → Runs (Gone held) (miscdev ∷ devm_mem ∷ held) i2c_tmp75_remove
unfolding i2c_tmp75_remove Res-discrete
i2c_tmp75_remove-Runs held = drop_rule miscdev refl refl (Gone-rule held (pos 0) refl)

-- 16.regmap/driver/tmp75.c.
pub regmap_tmp75_probe : Kernel → Code
regmap_tmp75_probe k =
    acquire k devm_mem (λ _. return enomem)
      (acquire k devm_regmap (λ n. return (negsuc n))
        (acquire k miscdev (λ n. return (negsuc n)) (return (pos 0))))

pub regmap_tmp75_remove : Code
regmap_tmp75_remove = drop_res miscdev (return (pos 0))

pub regmap_tmp75_probe-Runs :
    (k : Kernel) (held : List Res)
    → Runs (ProbeEnds held (miscdev ∷ devm_regmap ∷ devm_mem ∷ held)) held (regmap_tmp75_probe k)
unfolding regmap_tmp75_probe Res-discrete
regmap_tmp75_probe-Runs k held =
    acquire_rule k devm_mem (λ _. probe_error_rule held 11 refl)
      (acquire_rule k devm_regmap (λ n. probe_error_rule held n refl)
        (acquire_rule k miscdev (λ n. probe_error_rule held n refl) (probe_done_rule held)))

pub regmap_tmp75_remove-Runs :
    (held : List Res)
    → Runs (Gone held) (miscdev ∷ devm_regmap ∷ devm_mem ∷ held) regmap_tmp75_remove
unfolding regmap_tmp75_remove Res-discrete
regmap_tmp75_remove-Runs held = drop_rule miscdev refl refl (Gone-rule held (pos 0) refl)

-- 18.hwmon/driver/tmp75.c.
pub hwmon_tmp75_probe : Kernel → Code
hwmon_tmp75_probe k =
    acquire k devm_mem (λ _. return enomem)
      (acquire k devm_regmap (λ n. return (negsuc n))
        (acquire k devm_hwmon (λ n. return (negsuc n)) (return (pos 0))))

pub hwmon_tmp75_remove : Code
hwmon_tmp75_remove = return (pos 0)

pub hwmon_tmp75_probe-Runs :
    (k : Kernel) (held : List Res)
    → Runs (ProbeEnds held (devm_hwmon ∷ devm_regmap ∷ devm_mem ∷ held)) held (hwmon_tmp75_probe k)
unfolding hwmon_tmp75_probe Res-discrete
hwmon_tmp75_probe-Runs k held =
    acquire_rule k devm_mem (λ _. probe_error_rule held 11 refl)
      (acquire_rule k devm_regmap (λ n. probe_error_rule held n refl)
        (acquire_rule k devm_hwmon (λ n. probe_error_rule held n refl) (probe_done_rule held)))

pub hwmon_tmp75_remove-Runs :
    (held : List Res)
    → Runs (Gone held) (devm_hwmon ∷ devm_regmap ∷ devm_mem ∷ held) hwmon_tmp75_remove
unfolding hwmon_tmp75_remove Res-discrete
hwmon_tmp75_remove-Runs held = Gone-rule held (pos 0) refl
