-- ===== src/Mtd/Setup.antt =====
-- Probe and remove of the flash.
use linux_driver_kb.Prelude.{◌∷◌, List, refl}
use linux_driver_kb.Prelude.Int.{pos, negsuc}
use linux_driver_kb.Kernel.Errno.{enomem}
use linux_driver_kb.Kernel.Ledger.{
  Kernel, Code, return, acquire, drop_res, Res, Res-discrete, devm_mem, mtd_device, Runs, ProbeEnds,
  Gone, acquire_rule, drop_rule, probe_error_rule, probe_done_rule, Gone-rule,
}

-- The calls of virt_mtd_probe. Remove returns what mtd_device_unregister does, 0 when nobody uses the
-- device.
pub virt_mtd_register : Kernel → Code
virt_mtd_register k =
    acquire k devm_mem (λ _. return enomem)
      (acquire k mtd_device (λ n. return (negsuc n)) (return (pos 0)))

pub virt_mtd_remove : Code
virt_mtd_remove = drop_res mtd_device (return (pos 0))

pub virt_mtd_register-Runs :
    (k : Kernel) (held : List Res)
    → Runs (ProbeEnds held (mtd_device ∷ devm_mem ∷ held)) held (virt_mtd_register k)
unfolding virt_mtd_register Res-discrete
virt_mtd_register-Runs k held =
    acquire_rule k devm_mem (λ _. probe_error_rule held 11 refl)
      (acquire_rule k mtd_device (λ n. probe_error_rule held n refl) (probe_done_rule held))

pub virt_mtd_remove-Runs :
    (held : List Res) → Runs (Gone held) (mtd_device ∷ devm_mem ∷ held) virt_mtd_remove
unfolding virt_mtd_remove Res-discrete
virt_mtd_remove-Runs held = drop_rule mtd_device refl refl (Gone-rule held (pos 0) refl)
