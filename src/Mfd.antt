-- ===== src/Mfd.antt =====
-- The multi-function device of 30.mfd设备/driver/virt_mfd_core.c.
pub mod Children
use linux_driver_kb.Prelude.{◌∷◌, List, refl}
use linux_driver_kb.Prelude.Int.{pos, negsuc}
use linux_driver_kb.Kernel.Ledger.{
  Kernel, Code, return, acquire, Res, Res-discrete, devm_mfd, Runs, ProbeEnds, Gone, acquire_rule,
  probe_error_rule, probe_done_rule, Gone-rule,
}

pub virt_mfd_core_probe : Kernel → Code
virt_mfd_core_probe k = acquire k devm_mfd (λ n. return (negsuc n)) (return (pos 0))

pub virt_mfd_core_remove : Code
virt_mfd_core_remove = return (pos 0)

pub virt_mfd_core_probe-Runs :
    (k : Kernel) (held : List Res)
    → Runs (ProbeEnds held (devm_mfd ∷ held)) held (virt_mfd_core_probe k)
unfolding virt_mfd_core_probe Res-discrete
virt_mfd_core_probe-Runs k held =
    acquire_rule k devm_mfd (λ n. probe_error_rule held n refl) (probe_done_rule held)

pub virt_mfd_core_remove-Runs :
    (held : List Res) → Runs (Gone held) (devm_mfd ∷ held) virt_mfd_core_remove
unfolding virt_mfd_core_remove Res-discrete
virt_mfd_core_remove-Runs held = Gone-rule held (pos 0) refl
