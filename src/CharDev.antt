-- ===== src/CharDev.antt =====
-- The character device of 01.字符设备/driver/c-drv.c: a memory of 1024 bytes behind a file with a
-- position, and the registration of the device.
pub mod Bounds
pub mod Spec
pub mod Refine
pub mod Shared
pub mod Setup
pub mod Copies
mod Tests
use linux_driver_kb.Prelude.{ℕ, ◌-◌, ◌||◌, List, [], ltb, leb, ◌==◌, if◌then◌else◌, replicate}
use linux_driver_kb.Prelude.Int.{ℤ, pos, negsuc, is_neg, to_unsigned, add64, leb_ℤ}
use linux_driver_kb.Prelude.Bytes.{slice}
use linux_driver_kb.Kernel.Errno.{efault, einval}
use linux_driver_kb.Kernel.User.{UserCopy}
use linux_driver_kb.Kernel.Ledger.{
  Kernel, Code, return, acquire, drop_res, region, cdev, class, device,
}

abbrev pub mem_size : ℕ
mem_size = 1024

-- The device's memory, and the position of the file opened on it. The kernel hands `read` and
-- `write` the file's position by `loff_t`, and keeps what they leave there.
pub record CharDev : Type 0 where
  pub mem : List ℕ
  pub f_pos : ℤ

-- A new file has position 0.
pub char_dev_open : CharDev → CharDev
char_dev_open d = record { mem = replicate mem_size 0; f_pos = pos 0 }

abbrev pub clip : ℕ → ℕ → ℕ
clip p len = if ltb (mem_size - p) len then mem_size - p else len

module _ (u : UserCopy) where
  pub char_dev_write : CharDev → List ℕ → ℕ → ℤ × CharDev
  char_dev_write d buf len =
      let p = to_unsigned 64 d.f_pos in
      let n = clip p len in
      let copied = u.from_user d.mem p buf n in
      if leb mem_size p
      then (pos 0, d)
      else if copied.0 == 0
      then (pos n, record { mem = copied.1; f_pos = add64 d.f_pos (pos n) })
      else (efault, record d { mem = copied.1 })

  -- What reaches the user's buffer stands beside the return value.
  pub char_dev_read : CharDev → ℕ → ℤ × List ℕ × CharDev
  char_dev_read d len =
      let p = to_unsigned 64 d.f_pos in
      let n = clip p len in
      let copied = u.to_user (slice p n d.mem) in
      if leb mem_size p
      then (pos 0, [], d)
      else if copied.0 == 0
      then (pos n, copied.1, record d { f_pos = add64 d.f_pos (pos n) })
      else (efault, copied.1, d)

-- `orig` is SEEK_SET = 0 or SEEK_CUR = 1, or any other number.
pub char_dev_llseek : CharDev → ℤ → ℕ → ℤ × CharDev
char_dev_llseek d offset orig =
    if orig == 0
    then (if is_neg offset || leb_ℤ (pos mem_size) offset
        then (einval, d)
        else (offset, record d { f_pos = offset }))
    else if orig == 1
    then (let sum = add64 d.f_pos offset in
        if leb_ℤ (pos mem_size) sum || is_neg sum
        then (einval, d)
        else (sum, record d { f_pos = sum }))
    else (einval, d)

-- The labels of char_dev_init; each falls through to the next.
err_chrdev_unreg : ℤ → Code
err_chrdev_unreg ret = drop_res region (return ret)

err_cdev_del : ℤ → Code
err_cdev_del ret = drop_res cdev (err_chrdev_unreg ret)

err_class_destr : ℤ → Code
err_class_destr ret = drop_res class (err_cdev_del ret)

pub char_dev_init : Kernel → Code
unfolding err_chrdev_unreg err_cdev_del err_class_destr
char_dev_init k =
    acquire k region (λ _. return efault)
      (acquire k cdev (λ _. err_chrdev_unreg efault)
        (acquire k class (λ n. err_cdev_del (negsuc n))
          (acquire k device (λ n. err_class_destr (negsuc n)) (return (pos 0)))))

pub char_dev_exit : Code
char_dev_exit = drop_res cdev (drop_res region (drop_res device (drop_res class (return (pos 0)))))
