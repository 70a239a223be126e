-- ===== src/Pinctrl/Gpiochip.antt =====
-- The GPIO chip of 33.pinctrl/driver/virt_gpiochip.c, whose lines are requested from the pin controller.
use linux_driver_kb.Prelude.{◌∷◌, List, refl}
use linux_driver_kb.Prelude.Int.{pos, negsuc}
use linux_driver_kb.Kernel.Errno.{enomem}
use linux_driver_kb.Kernel.Ledger.{
  Kernel, Code, return, acquire, drop_res, Res, Res-discrete, devm_mem, gpiochip, Runs, ProbeEnds,
  Gone, acquire_rule, drop_rule, probe_error_rule, probe_done_rule, Gone-rule,
}

pub virt_gpiochip_probe : Kernel → Code
virt_gpiochip_probe k =
    acquire k devm_mem (λ _. return enomem)
      (acquire k gpiochip (λ n. return (negsuc n)) (return (pos 0)))

pub virt_gpiochip_remove : Code
virt_gpiochip_remove = drop_res gpiochip (return (pos 0))

pub virt_gpiochip_probe-Runs :
    (k : Kernel) (held : List Res)
    → Runs (ProbeEnds held (gpiochip ∷ devm_mem ∷ held)) held (virt_gpiochip_probe k)
unfolding virt_gpiochip_probe Res-discrete
virt_gpiochip_probe-Runs k held =
    acquire_rule k devm_mem (λ _. probe_error_rule held 11 refl)
      (acquire_rule k gpiochip (λ n. probe_error_rule held n refl) (probe_done_rule held))

pub virt_gpiochip_remove-Runs :
    (held : List Res) → Runs (Gone held) (gpiochip ∷ devm_mem ∷ held) virt_gpiochip_remove
unfolding virt_gpiochip_remove Res-discrete
virt_gpiochip_remove-Runs held = drop_rule gpiochip refl refl (Gone-rule held (pos 0) refl)
