-- ===== src/Uio.antt =====
-- The user-space I/O device of 29.uio/driver/virt_uio.c: its interrupt is switched on and off by user
-- programs, and a flag keeps the calls of the kernel in pairs.
pub mod Irq
mod Tests
use linux_driver_kb.Prelude.{
  ◌∷◌, List, [], refl, ℕ, ◌+◌, ◌-◌, ◌%◌, ◌≤◌, ◌<◌, ◌≡◌, ◌⊎◌, inl, inr, ◌==◌, Bool, true, false, not,
  ◌||◌, if◌then◌else◌, some, none, Option, arith, ◌>>=◌, ap,
}
use linux_driver_kb.Prelude.Int.{ℤ, pos, negsuc, is_neg}
use linux_driver_kb.Kernel.Errno.{enomem, einval, enodev, eperm, efault}
use linux_driver_kb.Kernel.Ledger.{
  Kernel, Code, Log, holds, refuse, return, acquire, grant, attempt, drop_res, Res, Res-discrete,
  devm_mem, devm_gpio, uio_device, Runs, unmanaged, ProbeEnds, Gone, acquire_rule, attempt_rule,
  grant_rule, drop_rule, return_rule, probe_error_rule, probe_done_rule, Gone-rule, forget_rule,
}

-- The flag, and how often the interrupt is disabled in the kernel.
pub record Line : Type 0 where
  pub flag : Bool
  pub depth : ℕ

-- enable_irq of a line that is not disabled is an error, `none`.
abbrev pub enable_irq : ℕ → Option ℕ
enable_irq depth = if depth == 0 then none else some (depth - 1)

abbrev with_depth : Bool → Option ℕ → Option Line
with_depth flag none = none
with_depth flag (some depth) = some (record { flag = flag; depth = depth })

-- Each branch makes its call only if the bit changed.
unfoldable pub virt_uio_irqcontrol : Line → Bool → Option Line
virt_uio_irqcontrol s true = if s.flag then some s else with_depth true (enable_irq s.depth)
virt_uio_irqcontrol s false = if s.flag then with_depth false (some (s.depth + 1)) else some s

-- After probe: the bit set and the interrupt enabled by the registration.
abbrev pub fresh : Line
fresh = record { flag = true; depth = 0 }

-- The third allocation, of the memory that is shared with the user, is not looked at.
pub virt_uio_probe : Kernel → Code
virt_uio_probe k =
    acquire k devm_mem (λ _. return enomem)
      (acquire k devm_mem (λ _. return enomem)
        (acquire k devm_gpio (λ n. return (negsuc n))
          (attempt k devm_mem (acquire k uio_device (λ n. return (negsuc n)) (return (pos 0))))))

pub virt_uio_remove : Code
virt_uio_remove = drop_res uio_device (return (pos 0))

-- The memory is managed, so it makes no difference to what is released later whether the device has it all.
pub virt_uio_probe-Runs :
    (k : Kernel) (held : List Res)
    → Runs (ProbeEnds held (uio_device ∷ held)) held (virt_uio_probe k)
unfolding virt_uio_probe Res-discrete
virt_uio_probe-Runs k held =
    let registered =
      acquire_rule k uio_device (λ n. probe_error_rule held n refl) (probe_done_rule held) in
    acquire_rule k devm_mem (λ _. probe_error_rule held 11 refl)
      (forget_rule devm_mem refl (
        acquire_rule k devm_mem (λ _. probe_error_rule held 11 refl)
          (forget_rule devm_mem refl (
            acquire_rule k devm_gpio (λ n. probe_error_rule held n refl)
              (forget_rule devm_gpio refl
                (attempt_rule k devm_mem registered (forget_rule devm_mem refl registered)))))))

pub virt_uio_remove-Runs : (held : List Res) → Runs (Gone held) (uio_device ∷ held) virt_uio_remove
unfolding virt_uio_remove Res-discrete
virt_uio_remove-Runs held = drop_rule uio_device refl refl (Gone-rule held (pos 0) refl)
