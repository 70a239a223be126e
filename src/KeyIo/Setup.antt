-- ===== src/KeyIo/Setup.antt =====
-- Probe and remove of the key drivers.
use linux_driver_kb.Prelude.{◌∷◌, List, ◌≡◌, refl}
use linux_driver_kb.Prelude.Int.{ℤ, pos, negsuc}
use linux_driver_kb.Kernel.Errno.{eperm, enomem, efault}
use linux_driver_kb.Kernel.Ledger.{
  Kernel, Code, return, acquire, drop_res, Res, Res-discrete, region, cdev, class, device, miscdev,
  devm_mem, devm_gpio, devm_irq, Runs, ProbeEnds, Gone, Gone-rule, acquire_rule, drop_rule,
  return_rule, probe_error_rule, probe_done_rule,
}

err_chrdev_unreg : ℤ → Code
err_chrdev_unreg ret = drop_res region (return ret)

err_cdev_del : ℤ → Code
err_cdev_del ret = drop_res cdev (err_chrdev_unreg ret)

err_class_destr : ℤ → Code
err_class_destr ret = drop_res class (err_cdev_del ret)

-- block_io_probe; nonblock_io_probe and fasync_io_probe have the same text.
pub block_io_probe : Kernel → Code
unfolding err_chrdev_unreg err_cdev_del err_class_destr
block_io_probe k =
    acquire k devm_mem (λ _. return enomem)
      (acquire k devm_gpio (λ n. return (negsuc n))
        (acquire k devm_irq (λ _. return eperm)
          (acquire k region (λ _. return efault)
            (acquire k cdev (λ _. err_chrdev_unreg efault)
              (acquire k class (λ n. err_cdev_del (negsuc n))
                (acquire k device (λ n. err_class_destr (negsuc n)) (return (pos 0))))))))

pub block_io_remove : Code
block_io_remove =
    drop_res cdev (drop_res region (drop_res device (drop_res class (return (pos 0)))))

-- fasync_io_probe of fasync_io_misc.c.
pub misc_probe : Kernel → Code
misc_probe k =
    acquire k devm_mem (λ _. return enomem)
      (acquire k devm_gpio (λ n. return (negsuc n))
        (acquire k devm_irq (λ n. return (negsuc n))
          (acquire k miscdev (λ n. return (negsuc n)) (return (pos 0)))))

pub misc_remove : Code
misc_remove = drop_res miscdev (return (pos 0))

-- Whatever the kernel answers, the probe succeeds with everything held, or fails with nothing left
-- but what the device core releases by itself.
pub block_io_probe-Runs :
    (k : Kernel) (held : List Res)
    → Runs
        (ProbeEnds held (device ∷ class ∷ cdev ∷ region ∷ devm_irq ∷ devm_gpio ∷ devm_mem ∷ held))
        held
        (block_io_probe k)
unfolding block_io_probe Res-discrete
block_io_probe-Runs k held =
    acquire_rule k devm_mem (λ _. probe_error_rule held 11 refl)
      (acquire_rule k devm_gpio (λ n. probe_error_rule held n refl)
        (acquire_rule k devm_irq (λ _. probe_error_rule held 0 refl)
          (acquire_rule k region (λ _. probe_error_rule held 13 refl)
            (acquire_rule k cdev (λ _. drop_rule region refl refl (probe_error_rule held 13 refl))
              (acquire_rule k class
                (λ n.
                  drop_rule cdev refl refl
                    (drop_rule region refl refl (probe_error_rule held n refl)))
                (acquire_rule k device
                  (λ n. drop_rule class refl refl (
                    drop_rule cdev refl refl
                      (drop_rule region refl refl (probe_error_rule held n refl))))
                  (probe_done_rule held)))))))

-- The same for the misc device.
pub misc_probe-Runs :
    (k : Kernel) (held : List Res)
    → Runs (ProbeEnds held (miscdev ∷ devm_irq ∷ devm_gpio ∷ devm_mem ∷ held)) held (misc_probe k)
unfolding misc_probe Res-discrete
misc_probe-Runs k held =
    acquire_rule k devm_mem (λ _. probe_error_rule held 11 refl)
      (acquire_rule k devm_gpio (λ n. probe_error_rule held n refl)
        (acquire_rule k devm_irq (λ n. probe_error_rule held n refl)
          (acquire_rule k miscdev (λ n. probe_error_rule held n refl) (probe_done_rule held))))

-- After a successful probe, remove releases all that is not managed.
pub block_io_remove-Runs :
    (held : List Res)
    → Runs
        (λ ret end. (ret ≡ pos 0) × (end ≡ held))
        (device ∷ class ∷ cdev ∷ region ∷ held)
        block_io_remove
unfolding block_io_remove Res-discrete
block_io_remove-Runs held = drop_rule cdev refl refl (
    drop_rule region refl refl
      (drop_rule device refl refl (drop_rule class refl refl (return_rule (pos 0) (refl, refl)))))

-- The same for the misc device.
pub misc_remove-Runs :
    (held : List Res)
    → Runs (Gone held) (miscdev ∷ devm_irq ∷ devm_gpio ∷ devm_mem ∷ held) misc_remove
unfolding misc_remove Res-discrete
misc_remove-Runs held = drop_rule miscdev refl refl (Gone-rule held (pos 0) refl)
