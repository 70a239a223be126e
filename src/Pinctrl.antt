-- ===== src/Pinctrl.antt =====
-- The pin controller of 33.pinctrl/driver/virt-pinctrl.c: four pins in three groups, one function for
-- each group.
pub mod Tables
pub mod Consumer
pub mod Gpiochip
use linux_driver_kb.Prelude.{
  ◌∷◌, List, [], refl, ℕ, ◌+◌, ◌-◌, ◌≤◌, ◌<◌, ◌≡◌, ◌⊎◌, inl, inr, ◌==◌, Bool, true, false, not,
  ◌||◌, if◌then◌else◌, some, none, Option, arith,
}
use linux_driver_kb.Prelude.Int.{ℤ, pos, negsuc, is_neg}
use linux_driver_kb.Kernel.Errno.{enomem, einval, enodev, eperm, efault}
use linux_driver_kb.Kernel.Ledger.{
  Kernel, Code, Log, holds, refuse, return, acquire, grant, attempt, drop_res, Res, Res-discrete,
  devm_mem, pinctrl, Runs, ProbeEnds, Gone, acquire_rule, grant_rule, drop_rule, return_rule,
  probe_error_rule, probe_done_rule, Gone-rule,
}

pub virt_pinctrl_probe : Kernel → Code
virt_pinctrl_probe k =
    acquire k devm_mem (λ _. return enomem)
      (acquire k pinctrl (λ n. return (negsuc n)) (return (pos 0)))

pub virt_pinctrl_remove : Code
virt_pinctrl_remove = drop_res pinctrl (return (pos 0))

pub virt_pinctrl_probe-Runs :
    (k : Kernel) (held : List Res)
    → Runs (ProbeEnds held (pinctrl ∷ devm_mem ∷ held)) held (virt_pinctrl_probe k)
unfolding virt_pinctrl_probe Res-discrete
virt_pinctrl_probe-Runs k held =
    acquire_rule k devm_mem (λ _. probe_error_rule held 11 refl)
      (acquire_rule k pinctrl (λ n. probe_error_rule held n refl) (probe_done_rule held))

pub virt_pinctrl_remove-Runs :
    (held : List Res) → Runs (Gone held) (pinctrl ∷ devm_mem ∷ held) virt_pinctrl_remove
unfolding virt_pinctrl_remove Res-discrete
virt_pinctrl_remove-Runs held = drop_rule pinctrl refl refl (Gone-rule held (pos 0) refl)
