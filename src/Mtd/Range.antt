-- ===== src/Mtd/Range.antt =====
-- Erase, read and write of the virtual flash on ranges of it.
use linux_driver_kb.Prelude.{
  ℕ, ◌+◌, ◌%◌, ◌≤◌, ◌<◌, ◌≡◌, ◌≢◌, ◌⊎◌, refl, some, List, length, replicate, get_or, arith,
  length-replicate,
}
use linux_driver_kb.Prelude.Int.{pos}
use linux_driver_kb.Prelude.Bytes.{splice, slice-splice, length-splice, get_or-splice_out}
use linux_driver_kb.Kernel.Errno.{einval}
use linux_driver_kb.Mtd.{Mtd, erasesize, virt_mtd_erase, virt_mtd_read, virt_mtd_write}

-- What was written is read back, and a byte outside the written range is as before.
pub virt_mtd_read-write :
    (m : Mtd) (to : ℕ) (buf : List ℕ) (i : ℕ)
    → to + length buf ≤ length m.buffer
    → (i < to) ⊎ (to + length buf ≤ i)
    → (m' : Mtd) × (virt_mtd_write m to buf ≡ some (pos 0, length buf, m'))
      × (virt_mtd_read m' to (length buf) ≡ some (pos 0, length buf, buf))
      × (length m'.buffer ≡ length m.buffer)
      × (get_or m'.buffer i 0 ≡ get_or m.buffer i 0)
unfolding virt_mtd_write virt_mtd_read
virt_mtd_read-write m to buf i h out =
    let m' = record m { buffer = splice to buf m.buffer } in
    (
      m',
      ground arith,
      ground (arith, length-splice to buf m.buffer, slice-splice to buf m.buffer),
      length-splice to buf m.buffer,
      get_or-splice_out to buf m.buffer i 0 out,
    )

module _ (mod_by_eb : ℕ → ℕ) (mod_by_eb_eq : (x : ℕ) → mod_by_eb x ≡ x % erasesize) where
  -- An erase of whole blocks inside the device succeeds, is marked done and reported once; then the
  -- range reads as 0xff, and a byte outside it is as before.
  pub read-erase :
      (m : Mtd) (addr len i : ℕ)
      → addr % erasesize ≡ 0
      → len % erasesize ≡ 0
      → addr + len ≤ length m.buffer
      → (i < addr) ⊎ (addr + len ≤ i)
      → (m' : Mtd) × (virt_mtd_erase mod_by_eb m addr len ≡ some (pos 0, m'))
        × (virt_mtd_read m' addr len ≡ some (pos 0, len, replicate len 0xff))
        × (get_or m'.buffer i 0 ≡ get_or m.buffer i 0)
        × (m'.erase_done ≡ some addr)
        × (m'.callbacks ≡ m.callbacks + 1)
  unfolding virt_mtd_erase virt_mtd_read
  read-erase m addr len i ha hl inside out =
      let bs : List ℕ = replicate len 0xff in
      let size = length-replicate {A = ℕ} len 0xff in
      let m' = record m {
        buffer = splice addr bs m.buffer;
        erase_done = some addr;
        callbacks = m.callbacks + 1;
      } in
      (
        m',
        ground (arith, mod_by_eb_eq addr, mod_by_eb_eq len),
        ground (arith, size, length-splice addr bs m.buffer, slice-splice addr bs m.buffer),
        get_or-splice_out addr bs m.buffer i 0 (omega (arith, size)),
        refl,
        refl,
      )

  -- An erase that does not start or end on a block boundary is refused and changes nothing.
  pub erase_unaligned :
      (m : Mtd) (addr len : ℕ)
      → (addr % erasesize ≢ 0) ⊎ (len % erasesize ≢ 0)
      → virt_mtd_erase mod_by_eb m addr len ≡ some (einval, m)
  unfolding virt_mtd_erase
  erase_unaligned m addr len h = ground (arith, mod_by_eb_eq addr, mod_by_eb_eq len)
