-- ===== src/Backlight.antt =====
-- The backlight of 06.backlight/driver/backlight-drv.c.
pub mod Contrast
use linux_driver_kb.Prelude.{
  ◌∷◌, List, [], refl, ℕ, ◌+◌, ◌-◌, ◌≤◌, ◌<◌, ◌≡◌, ◌⊎◌, inl, inr, ◌==◌, Bool, true, false, not,
  ◌||◌, if◌then◌else◌, some, none, Option, arith,
}
use linux_driver_kb.Prelude.Int.{ℤ, pos, negsuc, is_neg}
use linux_driver_kb.Kernel.Errno.{enomem, einval, enodev, eperm, efault}
use linux_driver_kb.Kernel.Ledger.{
  Kernel, Code, Log, holds, refuse, return, acquire, grant, attempt, drop_res, Res, Res-discrete,
  backlight, devm_mem, Runs, ProbeEnds, Gone, acquire_rule, grant_rule, drop_rule, return_rule,
  probe_error_rule, probe_done_rule, Gone-rule,
}

pub backlight_test_probe : Kernel → Code
backlight_test_probe k =
    acquire k devm_mem (λ _. return enomem)
      (acquire k backlight (λ n. return (negsuc n)) (return (pos 0)))

pub backlight_test_remove : Code
backlight_test_remove = drop_res backlight (return (pos 0))

pub backlight_test_probe-Runs :
    (k : Kernel) (held : List Res)
    → Runs (ProbeEnds held (backlight ∷ devm_mem ∷ held)) held (backlight_test_probe k)
unfolding backlight_test_probe Res-discrete
backlight_test_probe-Runs k held =
    acquire_rule k devm_mem (λ _. probe_error_rule held 11 refl)
      (acquire_rule k backlight (λ n. probe_error_rule held n refl) (probe_done_rule held))

pub backlight_test_remove-Runs :
    (held : List Res) → Runs (Gone held) (backlight ∷ devm_mem ∷ held) backlight_test_remove
unfolding backlight_test_remove Res-discrete
backlight_test_remove-Runs held = drop_rule backlight refl refl (Gone-rule held (pos 0) refl)
