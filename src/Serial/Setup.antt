-- ===== src/Serial/Setup.antt =====
-- Registration of the virtual serial port's drivers, and of one port.
use linux_driver_kb.Prelude.{◌∷◌, List, ◌≡◌, refl}
use linux_driver_kb.Prelude.Int.{pos, negsuc}
use linux_driver_kb.Kernel.Errno.{enomem}
use linux_driver_kb.Kernel.Ledger.{
  Kernel, Code, return, acquire, drop_res, Res, Res-discrete, devm_mem, dt_property, uart_driver,
  platform_driver, uart_port, Runs, AllOrNothing, ProbeEnds, Gone, Gone-rule, acquire_rule,
  drop_rule, return_rule, error_rule, done_rule, probe_error_rule, probe_done_rule,
}

pub virt_uart_probe : Kernel → Code
virt_uart_probe k =
    acquire k devm_mem (λ _. return enomem)
      (acquire k dt_property (λ n. return (negsuc n))
        (acquire k uart_port (λ n. return (negsuc n)) (return (pos 0))))

pub virt_uart_remove : Code
virt_uart_remove = drop_res uart_port (return (pos 0))

pub virt_uart_init : Kernel → Code
virt_uart_init k =
    acquire k uart_driver (λ n. return (negsuc n))
      (acquire k platform_driver (λ n. drop_res uart_driver (return (negsuc n))) (return (pos 0)))

pub virt_uart_exit : Code
virt_uart_exit = drop_res platform_driver (drop_res uart_driver (return (pos 0)))

pub virt_uart_probe-Runs :
    (k : Kernel) (held : List Res)
    → Runs (ProbeEnds held (uart_port ∷ dt_property ∷ devm_mem ∷ held)) held (virt_uart_probe k)
unfolding virt_uart_probe Res-discrete
virt_uart_probe-Runs k held =
    acquire_rule k devm_mem (λ _. probe_error_rule held 11 refl)
      (acquire_rule k dt_property (λ n. probe_error_rule held n refl)
        (acquire_rule k uart_port (λ n. probe_error_rule held n refl) (probe_done_rule held)))

-- Loading the module registers both drivers or neither, and unloading takes both back.
pub virt_uart_init-Runs :
    (k : Kernel) (held : List Res)
    → Runs (AllOrNothing held (platform_driver ∷ uart_driver ∷ held)) held (virt_uart_init k)
      × Runs (λ ret end. end ≡ held) (platform_driver ∷ uart_driver ∷ held) virt_uart_exit
unfolding virt_uart_init virt_uart_exit Res-discrete
virt_uart_init-Runs k held = (
  acquire_rule k uart_driver (λ n. error_rule n)
      (acquire_rule k platform_driver (λ n. drop_rule uart_driver refl refl (error_rule n))
        done_rule),
  drop_rule platform_driver refl refl (drop_rule uart_driver refl refl (return_rule (pos 0) refl)),
)

pub virt_uart_remove-Runs :
    (held : List Res)
    → Runs (Gone held) (uart_port ∷ dt_property ∷ devm_mem ∷ held) virt_uart_remove
unfolding virt_uart_remove Res-discrete
virt_uart_remove-Runs held = drop_rule uart_port refl refl (Gone-rule held (pos 0) refl)
