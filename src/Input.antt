-- ===== src/Input.antt =====
-- The button of 13.input/driver/input-drv.c.
pub mod Debounce
mod Tests
use linux_driver_kb.Prelude.{◌∷◌, List, refl}
use linux_driver_kb.Prelude.Int.{pos, negsuc}
use linux_driver_kb.Kernel.Errno.{enomem}
use linux_driver_kb.Kernel.Ledger.{
  Kernel, Code, return, acquire, drop_res, Res, Res-discrete, devm_gpio, devm_input, devm_irq,
  devm_mem, input_device, Runs, ProbeEnds, Gone, acquire_rule, drop_rule, probe_error_rule,
  probe_done_rule, Gone-rule,
}

pub input_device_probe : Kernel → Code
input_device_probe k =
    acquire k devm_mem (λ _. return enomem)
      (acquire k devm_gpio (λ n. return (negsuc n))
        (acquire k devm_irq (λ n. return (negsuc n))
          (acquire k devm_input (λ _. return enomem)
            (acquire k input_device (λ n. return (negsuc n)) (return (pos 0))))))

pub input_device_remove : Code
input_device_remove = drop_res input_device (return (pos 0))

pub input_device_probe-Runs :
    (k : Kernel) (held : List Res)
    → Runs
        (ProbeEnds held (input_device ∷ devm_input ∷ devm_irq ∷ devm_gpio ∷ devm_mem ∷ held))
        held
        (input_device_probe k)
unfolding input_device_probe Res-discrete
input_device_probe-Runs k held =
    acquire_rule k devm_mem (λ _. probe_error_rule held 11 refl)
      (acquire_rule k devm_gpio (λ n. probe_error_rule held n refl)
        (acquire_rule k devm_irq (λ n. probe_error_rule held n refl)
          (acquire_rule k devm_input (λ _. probe_error_rule held 11 refl)
            (acquire_rule k input_device (λ n. probe_error_rule held n refl)
              (probe_done_rule held)))))

pub input_device_remove-Runs :
    (held : List Res)
    → Runs
        (Gone held)
        (input_device ∷ devm_input ∷ devm_irq ∷ devm_gpio ∷ devm_mem ∷ held)
        input_device_remove
unfolding input_device_remove Res-discrete
input_device_remove-Runs held = drop_rule input_device refl refl (Gone-rule held (pos 0) refl)
