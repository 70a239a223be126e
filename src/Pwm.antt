-- ===== src/Pwm.antt =====
-- The PWM chip of 05.pwm/driver/pwm_chip.c, whose handlers only print, and the user of a channel,
-- pwm_device.c.
use linux_driver_kb.Prelude.{◌∷◌, List, refl}
use linux_driver_kb.Prelude.Int.{pos, negsuc}
use linux_driver_kb.Kernel.Errno.{enomem}
use linux_driver_kb.Kernel.Ledger.{
  Kernel, Code, return, acquire, drop_res, Res, Res-discrete, devm_mem, pwm, pwmchip, Runs,
  ProbeEnds, Gone, acquire_rule, drop_rule, probe_error_rule, probe_done_rule, Gone-rule,
}

-- pwmchip_remove succeeds when no channel is requested.
pub pwmchip_test_probe : Kernel → Code
pwmchip_test_probe k =
    acquire k devm_mem (λ _. return enomem)
      (acquire k pwmchip (λ n. return (negsuc n)) (return (pos 0)))

pub pwmchip_test_remove : Code
pwmchip_test_remove = drop_res pwmchip (return (pos 0))

pub pwmchip_test_probe-Runs :
    (k : Kernel) (held : List Res)
    → Runs (ProbeEnds held (pwmchip ∷ devm_mem ∷ held)) held (pwmchip_test_probe k)
unfolding pwmchip_test_probe Res-discrete
pwmchip_test_probe-Runs k held =
    acquire_rule k devm_mem (λ _. probe_error_rule held 11 refl)
      (acquire_rule k pwmchip (λ n. probe_error_rule held n refl) (probe_done_rule held))

pub pwmchip_test_remove-Runs :
    (held : List Res) → Runs (Gone held) (pwmchip ∷ devm_mem ∷ held) pwmchip_test_remove
unfolding pwmchip_test_remove Res-discrete
pwmchip_test_remove-Runs held = drop_rule pwmchip refl refl (Gone-rule held (pos 0) refl)

pub pwmdevice_test_probe : Kernel → Code
pwmdevice_test_probe k = acquire k pwm (λ n. return (negsuc n)) (return (pos 0))

pub pwmdevice_test_remove : Code
pwmdevice_test_remove = drop_res pwm (return (pos 0))

pub pwmdevice_test_probe-Runs :
    (k : Kernel) (held : List Res)
    → Runs (ProbeEnds held (pwm ∷ held)) held (pwmdevice_test_probe k)
unfolding pwmdevice_test_probe Res-discrete
pwmdevice_test_probe-Runs k held =
    acquire_rule k pwm (λ n. probe_error_rule held n refl) (probe_done_rule held)

pub pwmdevice_test_remove-Runs :
    (held : List Res) → Runs (Gone held) (pwm ∷ held) pwmdevice_test_remove
unfolding pwmdevice_test_remove Res-discrete
pwmdevice_test_remove-Runs held = drop_rule pwm refl refl (Gone-rule held (pos 0) refl)
