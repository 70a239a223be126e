-- ===== src/Mtd.antt =====
-- The virtual flash of 31.mtd/driver/virt_mtd.c: 32 KiB of memory with an erase size of 512 bytes.
-- The mtd core asks only for ranges inside the device; `none` is an access outside it.
pub mod Parts
pub mod Range
pub mod Setup
mod Tests
use linux_driver_kb.Prelude.{
  ℕ, ◌+◌, ◌*◌, Option, none, some, List, length, replicate, leb, not, ◌==◌, if◌then◌else◌,
}
use linux_driver_kb.Prelude.Int.{ℤ, pos}
use linux_driver_kb.Prelude.Bytes.{slice, splice}
use linux_driver_kb.Kernel.Errno.{einval}

abbrev virt_mtd_size : ℕ
virt_mtd_size = 32 * 1024

abbrev pub erasesize : ℕ
erasesize = 512

-- The buffer, whether the last erase request was marked MTD_ERASE_DONE, and how often
-- mtd_erase_callback was called.
pub record Mtd : Type 0 where
  pub buffer : List ℕ
  pub erase_done : Option ℕ
  pub callbacks : ℕ

-- The memory after virt_mtd_probe.
unfoldable pub virt_mtd_probe : Mtd
virt_mtd_probe = record { buffer = replicate virt_mtd_size 0xff; erase_done = none; callbacks = 0 }

-- mtd_mod_by_eb is the mtd core's.
unfoldable pub virt_mtd_erase : (ℕ → ℕ) → Mtd → ℕ → ℕ → Option (ℤ × Mtd)
virt_mtd_erase mod_by_eb m addr len =
    if not (mod_by_eb addr == 0)
    then some (einval, m)
    else if not (mod_by_eb len == 0)
    then some (einval, m)
    else if leb (addr + len) (length m.buffer)
    then some (
      pos 0,
      record m {
        buffer = splice addr (replicate len 0xff) m.buffer;
        erase_done = some addr;
        callbacks = m.callbacks + 1;
      },
    )
    else none

-- The return value, `*retlen` and what stands in the caller's buffer.
unfoldable pub virt_mtd_read : Mtd → ℕ → ℕ → Option (ℤ × ℕ × List ℕ)
virt_mtd_read m from len =
    if leb (from + len) (length m.buffer) then some (pos 0, len, slice from len m.buffer) else none

unfoldable pub virt_mtd_write : Mtd → ℕ → List ℕ → Option (ℤ × ℕ × Mtd)
virt_mtd_write m to buf =
    if leb (to + length buf) (length m.buffer)
    then some (pos 0, length buf, record m { buffer = splice to buf m.buffer })
    else none
