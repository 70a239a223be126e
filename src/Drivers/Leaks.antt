-- ===== src/Drivers/Leaks.antt =====
-- The drivers that do not clean up: what a failed load leaves behind.
use linux_driver_kb.Prelude.{ℕ_discrete, ℕ, List, [], ◌∷◌, ◌≡◌, refl, none, some}
use linux_driver_kb.Prelude.Int.{ℤ, pos, negsuc}
use linux_driver_kb.Kernel.Errno.{enomem}
use linux_driver_kb.Kernel.Ledger.{
  Kernel, Code, Log, ok, Res, Res-discrete, holds, refuse, return, acquire, attempt, drop_res,
  grant, then_undo, undo_after, panel, pages, queue, blkdev, devm_mem, kobject, sysfs_file,
  notifier, proc_dir, proc_file, timer, miscdev, usb_function, of_node, dt_property,
  fb_registration, clkdev,
}
use linux_driver_kb.Ssd1306.Setup.{ssd1306fb_probe}
use linux_driver_kb.Disk.Setup.{virt_disk_probe}
use linux_driver_kb.Sysfs.{sysfs_drv_init, sysfs_drv_exit}
use linux_driver_kb.Proc.{proc_test_init}
use linux_driver_kb.Notifier.{notifier_chain_test_init}
use linux_driver_kb.Usb.GChar.Setup.{g_char_bind_config}
use linux_driver_kb.DeviceTree.{dts_test_init}
use linux_driver_kb.Clk.Gate.{virt_gate_clk_probe, virt_gate_clk_remove}

-- A driver and the one thing that the kernel refuses to it.
pub data Fault : Type 0 where
  ssd1306_panel ssd1306_registration disk_queue sysfs_no_file proc_no_dir proc_no_file : Fault
  notifier_second notifier_third g_char_misc dts_property : Fault

abbrev pub loading : Fault → Kernel → Code
loading ssd1306_panel = ssd1306fb_probe
loading ssd1306_registration = ssd1306fb_probe
loading disk_queue = virt_disk_probe
loading sysfs_no_file = sysfs_drv_init
loading proc_no_dir = proc_test_init
loading proc_no_file = proc_test_init
loading notifier_second = notifier_chain_test_init
loading notifier_third = notifier_chain_test_init
loading g_char_misc = g_char_bind_config
loading dts_property = dts_test_init

abbrev pub refused : Fault → Res
refused ssd1306_panel = panel
refused ssd1306_registration = fb_registration
refused disk_queue = queue
refused sysfs_no_file = sysfs_file
refused proc_no_dir = proc_dir
refused proc_no_file = proc_file
refused notifier_second = notifier 2
refused notifier_third = notifier 3
refused g_char_misc = miscdev
refused dts_property = dt_property

-- The result, where the refusal was -(n + 1).
abbrev pub answer : Fault → ℕ → ℤ
answer disk_queue n = enomem
answer proc_no_dir n = enomem
answer proc_no_file n = enomem
answer _ n = negsuc n

-- What is held afterwards.
abbrev pub left : Fault → List Res
left ssd1306_panel = pages ∷ []
left ssd1306_registration = panel ∷ pages ∷ []
left disk_queue = blkdev ∷ devm_mem ∷ devm_mem ∷ []
left sysfs_no_file = kobject ∷ []
left proc_no_dir = timer ∷ []
left proc_no_file = proc_dir ∷ timer ∷ []
left notifier_second = notifier 1 ∷ []
left notifier_third = notifier 2 ∷ notifier 1 ∷ []
left g_char_misc = usb_function ∷ []
left dts_property = of_node ∷ []

-- With nothing held before, each fault ends the load with an error, and something is still held that the
-- device core does not release: the pages of the picture, the major number, the object in sysfs, the
-- running timer, a block on the chain, the function in the configuration, the node.
pub load_leaves :
    (f : Fault) (n : ℕ) (l : Log)
    → holds l ≡ some []
    → let end = loading f (refuse (refused f) n) l in
      (end.0 ≡ answer f n) × (holds end.1 ≡ some (left f))
unfolding ssd1306fb_probe virt_disk_probe sysfs_drv_init proc_test_init notifier_chain_test_init
    g_char_bind_config dts_test_init acquire attempt drop_res grant return Res-discrete ℕ_discrete
load_leaves ssd1306_panel n l e = (refl, rw e)
load_leaves ssd1306_registration n l e = (refl, rw e)
load_leaves disk_queue n l e = (refl, rw e)
load_leaves sysfs_no_file n l e = (refl, rw e)
load_leaves proc_no_dir n l e = (refl, rw e)
load_leaves proc_no_file n l e = (refl, rw e)
load_leaves notifier_second n l e = (refl, rw e)
load_leaves notifier_third n l e = (refl, rw e)
load_leaves g_char_misc n l e = (refl, rw e)
load_leaves dts_property n l e = (refl, rw e)

-- Where the object in sysfs cannot be made, the load returns 0, and the unload then releases what is not
-- held.
sysfs_no_object :
    (n : ℕ) (l : Log)
    → holds l ≡ some []
    → let k = refuse kobject n in
      ((sysfs_drv_init k l).0 ≡ pos 0)
      × (holds (then_undo (sysfs_drv_init k) sysfs_drv_exit l).1 ≡ none)
unfolding sysfs_drv_init sysfs_drv_exit acquire attempt drop_res return then_undo undo_after
    Res-discrete
sysfs_no_object n l e = (refl, rw e)

-- A gate that was probed with success and removed: its name still stands in the table of the clocks.
gate_lookup_stays :
    (k : Kernel) (l : Log)
    → holds l ≡ some []
    → k ≡ (λ _ _. ok)
    → holds (then_undo (virt_gate_clk_probe k) virt_gate_clk_remove l).1
      ≡ some (clkdev ∷ devm_mem ∷ [])
unfolding virt_gate_clk_probe virt_gate_clk_remove acquire attempt drop_res return then_undo
    undo_after Res-discrete
gate_lookup_stays k l e all = rw all (rw e)
