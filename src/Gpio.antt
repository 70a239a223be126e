-- ===== src/Gpio.antt =====
-- The GPIO chip of 07.gpio/driver/virt_gpiochip.c, whose lines read as 0 and take every value, and the
-- consumer of a line, 07.gpio/driver/gpio_consumer.c.
use linux_driver_kb.Prelude.{◌∷◌, List, refl}
use linux_driver_kb.Prelude.Int.{pos, negsuc}
use linux_driver_kb.Kernel.Errno.{enomem}
use linux_driver_kb.Kernel.Ledger.{
  Kernel, Code, return, acquire, drop_res, Res, Res-discrete, devm_mem, devm_gpio, gpiochip, Runs,
  ProbeEnds, Gone, acquire_rule, drop_rule, probe_error_rule, probe_done_rule, Gone-rule,
}

pub virt_gpiochip_probe : Kernel → Code
virt_gpiochip_probe k =
    acquire k devm_mem (λ _. return enomem)
      (acquire k gpiochip (λ n. return (negsuc n)) (return (pos 0)))

pub virt_gpiochip_remove : Code
virt_gpiochip_remove = drop_res gpiochip (return (pos 0))

pub virt_gpiochip_probe-Runs :
    (k : Kernel) (held : List Res)
    → Runs (ProbeEnds held (gpiochip ∷ devm_mem ∷ held)) held (virt_gpiochip_probe k)
unfolding virt_gpiochip_probe Res-discrete
virt_gpiochip_probe-Runs k held =
    acquire_rule k devm_mem (λ _. probe_error_rule held 11 refl)
      (acquire_rule k gpiochip (λ n. probe_error_rule held n refl) (probe_done_rule held))

pub virt_gpiochip_remove-Runs :
    (held : List Res) → Runs (Gone held) (gpiochip ∷ devm_mem ∷ held) virt_gpiochip_remove
unfolding virt_gpiochip_remove Res-discrete
virt_gpiochip_remove-Runs held = drop_rule gpiochip refl refl (Gone-rule held (pos 0) refl)

pub gpio_consumer_probe : Kernel → Code
gpio_consumer_probe k =
    acquire k devm_mem (λ _. return enomem)
      (acquire k devm_gpio (λ n. return (negsuc n)) (return (pos 0)))

pub gpio_consumer_remove : Code
gpio_consumer_remove = return (pos 0)

pub gpio_consumer_probe-Runs :
    (k : Kernel) (held : List Res)
    → Runs (ProbeEnds held (devm_gpio ∷ devm_mem ∷ held)) held (gpio_consumer_probe k)
unfolding gpio_consumer_probe Res-discrete
gpio_consumer_probe-Runs k held =
    acquire_rule k devm_mem (λ _. probe_error_rule held 11 refl)
      (acquire_rule k devm_gpio (λ n. probe_error_rule held n refl) (probe_done_rule held))

pub gpio_consumer_remove-Runs :
    (held : List Res) → Runs (Gone held) (devm_gpio ∷ devm_mem ∷ held) gpio_consumer_remove
unfolding gpio_consumer_remove Res-discrete
gpio_consumer_remove-Runs held = Gone-rule held (pos 0) refl
