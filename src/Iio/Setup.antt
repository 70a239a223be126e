-- ===== src/Iio/Setup.antt =====
-- Probe of the sensor; the core takes back all of it when the device goes.
use linux_driver_kb.Prelude.{◌∷◌, List, refl}
use linux_driver_kb.Prelude.Int.{pos, negsuc}
use linux_driver_kb.Kernel.Errno.{enomem}
use linux_driver_kb.Kernel.Ledger.{
  Kernel, Code, return, acquire, grant, drop_res, Res, Res-discrete, devm_mem, devm_iio_buffer,
  devm_iio, timer, Runs, ProbeEnds, Gone, Gone-rule, drop_rule, acquire_rule, grant_rule,
  probe_error_rule, probe_done_rule,
}

pub fake_iiodev_probe : Kernel → Code
fake_iiodev_probe k =
    acquire k devm_mem (λ _. return enomem)
      (acquire k devm_iio_buffer (λ n. return (negsuc n))
        (acquire k devm_iio (λ n. return (negsuc n)) (grant timer (return (pos 0)))))

pub fake_iiodev_remove : Code
fake_iiodev_remove = drop_res timer (return (pos 0))

pub fake_iiodev_probe-Runs :
    (k : Kernel) (held : List Res)
    → Runs
        (ProbeEnds held (timer ∷ devm_iio ∷ devm_iio_buffer ∷ devm_mem ∷ held))
        held
        (fake_iiodev_probe k)
unfolding fake_iiodev_probe Res-discrete
fake_iiodev_probe-Runs k held =
    acquire_rule k devm_mem (λ _. probe_error_rule held 11 refl)
      (acquire_rule k devm_iio_buffer (λ n. probe_error_rule held n refl)
        (acquire_rule k devm_iio (λ n. probe_error_rule held n refl)
          (grant_rule timer (probe_done_rule held))))

-- After a successful probe, remove leaves only what the device core releases.
pub fake_iiodev_remove-Runs :
    (held : List Res)
    → Runs (Gone held) (timer ∷ devm_iio ∷ devm_iio_buffer ∷ devm_mem ∷ held) fake_iiodev_remove
unfolding fake_iiodev_remove Res-discrete
fake_iiodev_remove-Runs held = drop_rule timer refl refl (Gone-rule held (pos 0) refl)
