-- ===== src/Sysfs.antt =====
-- The attributes of 17.sysfs/driver/sysfs_drv.c.
use linux_driver_kb.Prelude.{List, ℕ, ◌≡◌, some, none, Option}
use linux_driver_kb.Prelude.Int.{ℤ, pos, negsuc}
use linux_driver_kb.Kernel.Ledger.{
  Kernel, Code, return, acquire, drop_res, kobject, sysfs_file, sysfs_group, sysfs_groups,
}

-- What sscanf makes of the text, if it finds a number, and what sprintf prints.
pub record Format : Type 0 where
  pub sscanf : List ℕ → Option ℤ
  pub sprintf : ℤ → List ℕ
  pub scan_print : (v : ℤ) → sscanf (sprintf v) ≡ some v

abbrev pub stored : Option ℤ → ℤ → ℤ
stored none old = old
stored (some v) old = v

module _ (format : Format) where
  -- The show and store functions of both attributes: each has a number of its own.
  unfoldable pub sysfs_file_show : ℤ → List ℕ
  sysfs_file_show value = format.sprintf value

  -- All bytes are taken, whether a number was found or not.
  unfoldable pub sysfs_file_store : ℤ → List ℕ → ℕ → ℤ × ℤ
  sysfs_file_store value buf count = (pos count, stored (format.sscanf buf) value)

  abbrev sysfs_file1_show : ℤ → List ℕ
  sysfs_file1_show = sysfs_file_show

  abbrev sysfs_file1_store : ℤ → List ℕ → ℕ → ℤ × ℤ
  sysfs_file1_store = sysfs_file_store

  -- What was shown can be stored: it sets the other value to the one shown.
  show-store :
      (value old : ℤ) (count : ℕ)
      → sysfs_file_show (sysfs_file_store old (sysfs_file_show value) count).1
        ≡ sysfs_file_show value
  unfolding sysfs_file_show sysfs_file_store
  show-store value old count = rw (format.scan_print value)

-- kobject_del takes the object out of sysfs and keeps the reference.
err_create_file0 : ℤ → Code
err_create_file0 ret = return ret

err_create_group : ℤ → Code
unfolding err_create_file0
err_create_group ret = drop_res sysfs_file (err_create_file0 ret)

err_create_groups : ℤ → Code
unfolding err_create_group
err_create_groups ret = drop_res sysfs_group (err_create_group ret)

-- The error of a missing object is PTR_ERR of the null pointer, 0.
unfoldable pub sysfs_drv_init : Kernel → Code
unfolding err_create_groups err_create_group err_create_file0
sysfs_drv_init k =
    acquire k kobject (λ _. return (pos 0))
      (acquire k sysfs_file (λ n. err_create_file0 (negsuc n))
        (acquire k sysfs_group (λ n. err_create_group (negsuc n))
          (acquire k sysfs_groups (λ n. err_create_groups (negsuc n)) (return (pos 0)))))

unfoldable pub sysfs_drv_exit : Code
sysfs_drv_exit =
    drop_res sysfs_groups
      (drop_res sysfs_group (drop_res sysfs_file (drop_res kobject (return (pos 0)))))
