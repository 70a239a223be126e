-- ===== src/DeviceTree.antt =====
-- The readers of a device tree's node: 03.设备树/driver/dts.c, which looks the node up, and
-- 04.platform设备/driver/p-drv.c, which is given it.
use linux_driver_kb.Prelude.{List, ◌∷◌, refl}
use linux_driver_kb.Prelude.Int.{pos, negsuc}
use linux_driver_kb.Kernel.Errno.{einval, enodev}
use linux_driver_kb.Kernel.Ledger.{
  Kernel, Code, return, acquire, of_node, dt_property, Res, Runs, ProbeEnds, Gone, acquire_rule,
  probe_error_rule, probe_done_rule, Gone-rule,
}

-- The properties one after the other; the last, a Boolean one, must be there.
properties : Kernel → Code
properties k =
    acquire k dt_property (λ n. return (negsuc n))
      (acquire k dt_property (λ n. return (negsuc n))
        (acquire k dt_property (λ n. return (negsuc n))
          (acquire k dt_property (λ _. return einval) (return (pos 0)))))

-- No branch gives the node back.
unfoldable pub dts_test_init : Kernel → Code
unfolding properties
dts_test_init k = acquire k of_node (λ _. return enodev) (properties k)

pub platform_test_probe : Kernel → Code
unfolding properties
platform_test_probe k = properties k

pub platform_test_remove : Code
platform_test_remove = return (pos 0)

pub platform_test_probe-Runs :
    (k : Kernel) (held : List Res)
    → Runs
        (ProbeEnds held (dt_property ∷ dt_property ∷ dt_property ∷ dt_property ∷ held))
        held
        (platform_test_probe k)
unfolding platform_test_probe properties
platform_test_probe-Runs k held =
    acquire_rule k dt_property (λ n. probe_error_rule held n refl)
      (acquire_rule k dt_property (λ n. probe_error_rule held n refl)
        (acquire_rule k dt_property (λ n. probe_error_rule held n refl)
          (acquire_rule k dt_property (λ _. probe_error_rule held 21 refl) (probe_done_rule held))))

pub platform_test_remove-Runs :
    (held : List Res)
    → Runs
        (Gone held)
        (dt_property ∷ dt_property ∷ dt_property ∷ dt_property ∷ held)
        platform_test_remove
unfolding platform_test_remove
platform_test_remove-Runs held = Gone-rule held (pos 0) refl
