-- ===== src/Disk/Setup.antt =====
-- Probe and remove of the virtual disk. The labels of the probe stand in the wrong order: where the queue
-- is refused, the number of the block device is not given back.
use linux_driver_kb.Prelude.{ℕ, Bool, true, false, if◌then◌else◌, [], ◌∷◌, List, some, ◌≡◌, refl}
use linux_driver_kb.Prelude.Int.{ℤ, pos, negsuc}
use linux_driver_kb.Kernel.Errno.{enomem}
use linux_driver_kb.Kernel.Ledger.{
  Kernel, Code, Log, return, acquire, grant, drop_res, refuse, holds, Res, Res-discrete, devm_mem,
  blkdev, disk, queue, gendisk, Runs, return_rule, drop_rule,
}

-- put_disk does nothing with a null pointer, which vd->disk is unless `allocated`.
unfoldable pub put_disk : Bool → Code → Code
put_disk allocated next = if allocated then drop_res disk next else next

err_init_queue : Bool → ℤ → Code
unfolding put_disk
err_init_queue allocated ret = put_disk allocated (return ret)

err_alloc_disk : Bool → ℤ → Code
err_alloc_disk allocated ret = drop_res blkdev (err_init_queue allocated ret)

unfoldable pub virt_disk_probe : Kernel → Code
unfolding err_init_queue err_alloc_disk put_disk
virt_disk_probe k =
    acquire k devm_mem (λ _. return enomem)
      (acquire k devm_mem (λ _. return enomem)
        (acquire k blkdev (λ n. return (negsuc n))
          (acquire k disk (λ _. err_alloc_disk false enomem)
            (acquire k queue (λ _. err_init_queue true enomem) (grant gendisk (return (pos 0)))))))

virt_disk_remove : Code
virt_disk_remove =
    drop_res gendisk (drop_res queue (drop_res disk (drop_res blkdev (return (pos 0)))))

-- With nothing held before: if the kernel refuses the request queue and nothing else, the probe
-- fails with -ENOMEM and the block device's number stays registered, beside the managed memory. If
-- it refuses the disk, only the managed memory stays.
pub virt_disk_probe_leaks :
    (n : ℕ) (l : Log)
    → holds l ≡ some []
    → let no_queue = virt_disk_probe (refuse queue n) l in
      let no_disk = virt_disk_probe (refuse disk n) l in
      (no_queue.0 ≡ enomem)
      × (holds no_queue.1 ≡ some (blkdev ∷ devm_mem ∷ devm_mem ∷ []))
      × (no_disk.0 ≡ enomem)
      × (holds no_disk.1 ≡ some (devm_mem ∷ devm_mem ∷ []))
unfolding virt_disk_probe acquire grant drop_res return Res-discrete
virt_disk_probe_leaks n l e = (refl, rw e, refl, rw e)

-- Remove releases what a successful probe took, but for the memory that the device core manages.
virt_disk_remove-Runs :
    (held : List Res)
    → Runs
        (λ ret end. (ret ≡ pos 0) × (end ≡ held))
        (gendisk ∷ queue ∷ disk ∷ blkdev ∷ held)
        virt_disk_remove
unfolding virt_disk_remove Res-discrete
virt_disk_remove-Runs held = drop_rule gendisk refl refl (
    drop_rule queue refl refl
      (drop_rule disk refl refl (drop_rule blkdev refl refl (return_rule (pos 0) (refl, refl)))))
