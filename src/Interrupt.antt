-- ===== src/Interrupt.antt =====
-- The interrupt with its bottom halves, 08.中断/driver/gpio_interrupt.c.
pub mod Halves
use linux_driver_kb.Prelude.{
  ◌∷◌, List, [], refl, ℕ, ◌+◌, ◌-◌, ◌≤◌, ◌<◌, ◌≡◌, ◌⊎◌, inl, inr, ◌==◌, Bool, true, false, not,
  ◌||◌, if◌then◌else◌, some, none, Option, arith,
}
use linux_driver_kb.Prelude.Int.{ℤ, pos, negsuc, is_neg}
use linux_driver_kb.Kernel.Errno.{enomem, einval, enodev, eperm, efault}
use linux_driver_kb.Kernel.Ledger.{
  Kernel, Code, Log, holds, refuse, return, acquire, grant, attempt, drop_res, Res, Res-discrete,
  devm_gpio, devm_irq, devm_mem, Runs, ProbeEnds, Gone, acquire_rule, grant_rule, drop_rule,
  return_rule, probe_error_rule, probe_done_rule, Gone-rule,
}

pub gpio_interrupt_probe : Kernel → Code
gpio_interrupt_probe k =
    acquire k devm_mem (λ _. return enomem)
      (acquire k devm_gpio (λ n. return (negsuc n))
        (acquire k devm_irq (λ _. return eperm) (return (pos 0))))

pub gpio_interrupt_remove : Code
gpio_interrupt_remove = return (pos 0)

pub gpio_interrupt_probe-Runs :
    (k : Kernel) (held : List Res)
    → Runs (ProbeEnds held (devm_irq ∷ devm_gpio ∷ devm_mem ∷ held)) held (gpio_interrupt_probe k)
unfolding gpio_interrupt_probe Res-discrete
gpio_interrupt_probe-Runs k held =
    acquire_rule k devm_mem (λ _. probe_error_rule held 11 refl)
      (acquire_rule k devm_gpio (λ n. probe_error_rule held n refl)
        (acquire_rule k devm_irq (λ _. probe_error_rule held 0 refl) (probe_done_rule held)))

pub gpio_interrupt_remove-Runs :
    (held : List Res)
    → Runs (Gone held) (devm_irq ∷ devm_gpio ∷ devm_mem ∷ held) gpio_interrupt_remove
unfolding gpio_interrupt_remove Res-discrete
gpio_interrupt_remove-Runs held = Gone-rule held (pos 0) refl
