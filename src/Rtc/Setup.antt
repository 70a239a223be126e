-- ===== src/Rtc/Setup.antt =====
-- Probe and remove of the clock.
use linux_driver_kb.Prelude.{◌∷◌, List, refl}
use linux_driver_kb.Prelude.Int.{pos, negsuc}
use linux_driver_kb.Kernel.Errno.{enomem}
use linux_driver_kb.Kernel.Ledger.{
  Kernel, Code, return, acquire, Res, Res-discrete, devm_mem, devm_regmap, devm_rtc, Runs,
  ProbeEnds, Gone, acquire_rule, probe_error_rule, probe_done_rule, Gone-rule,
}

pub ds1340_probe : Kernel → Code
ds1340_probe k =
    acquire k devm_mem (λ _. return enomem)
      (acquire k devm_regmap (λ n. return (negsuc n))
        (acquire k devm_rtc (λ n. return (negsuc n)) (return (pos 0))))

pub ds1340_remove : Code
ds1340_remove = return (pos 0)

pub ds1340_probe-Runs :
    (k : Kernel) (held : List Res)
    → Runs (ProbeEnds held (devm_rtc ∷ devm_regmap ∷ devm_mem ∷ held)) held (ds1340_probe k)
unfolding ds1340_probe Res-discrete
ds1340_probe-Runs k held =
    acquire_rule k devm_mem (λ _. probe_error_rule held 11 refl)
      (acquire_rule k devm_regmap (λ n. probe_error_rule held n refl)
        (acquire_rule k devm_rtc (λ n. probe_error_rule held n refl) (probe_done_rule held)))

pub ds1340_remove-Runs :
    (held : List Res) → Runs (Gone held) (devm_rtc ∷ devm_regmap ∷ devm_mem ∷ held) ds1340_remove
unfolding ds1340_remove Res-discrete
ds1340_remove-Runs held = Gone-rule held (pos 0) refl
