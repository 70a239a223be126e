-- ===== src/Disk.antt =====
-- The virtual block device of 25.块设备/driver/virt-disk.c: 2048 sectors of memory.
pub mod Contents
pub mod Segments
pub mod Setup
mod Tests
use linux_driver_kb.Prelude.{
  ℕ, ◌+◌, ◌*◌, ◌/◌, ◌%◌, ◌^◌, ◌<◌, ◌≡◌, arith, ltb, Option, none, some, List, [], ◌∷◌, length, leb,
  if◌then◌else◌,
}
use linux_driver_kb.Prelude.Bytes.{slice, splice}

abbrev pub sector_size : ℕ
sector_size = 512

abbrev sector_num : ℕ
sector_num = 2048

pub data Dir : Type 0 where
  read write : Dir

-- What the block layer hands out in one round: the direction, the sector and the bytes of the
-- buffer, which a read overwrites. blk_rq_cur_bytes is the buffer's length.
pub record Chunk : Type 0 where
  pub dir : Dir
  pub sector : ℕ
  pub bytes : List ℕ

-- The two memcpys, between the disk's memory and a buffer, as the new memory and the new buffer.
abbrev pub copy : Dir → ℕ → List ℕ → List ℕ → List ℕ × List ℕ
copy read start buf disk = (disk, slice start (length buf) disk)
copy write start buf disk = (splice start buf disk, buf)

-- One transfer at a byte offset; `none` is an access outside the memory.
unfoldable pub transfer : Dir → ℕ → List ℕ → List ℕ → Option (List ℕ × List ℕ)
transfer dir start buf disk =
    if leb (start + length buf) (length disk) then some (copy dir start buf disk) else none

abbrev deliver : List ℕ → Option (List ℕ × List (List ℕ)) → Option (List ℕ × List (List ℕ))
deliver buf none = none
deliver buf (some (disk, bufs)) = some (disk, buf ∷ bufs)

-- After a transfer the loop goes on with the new memory, and the buffer is handed back.
abbrev pub continue :
    Option (List ℕ × List ℕ)
    → (List ℕ → Option (List ℕ × List (List ℕ)))
    → Option (List ℕ × List (List ℕ))
continue none next = none
continue (some (disk, buf)) next = deliver buf (next disk)

-- `(int)blk_rq_pos(req) * SECTOR_SIZE`: an int of 32 bits that wraps, as the kernel is compiled. `none` is a
-- negative one, an address before the memory.
unfoldable pub int_offset : ℕ → Option ℕ
int_offset sector =
    let product = sector % 2 ^ 32 * sector_size % 2 ^ 32 in
    if ltb product (2 ^ 31) then some product else none

-- The int is the sector's place, below 2 GiB.
pub int_offset_exact :
    (sector : ℕ) → sector * sector_size < 2 ^ 31 → int_offset sector ≡ some (sector * sector_size)
unfolding int_offset
int_offset_exact sector h = ground arith

unfoldable pub transfer_at : Option ℕ → Dir → List ℕ → List ℕ → Option (List ℕ × List ℕ)
transfer_at none dir buf disk = none
transfer_at (some start) dir buf disk = transfer dir start buf disk

-- The loop of virt_disk_request over the rounds: the memory and the buffers at the end.
unfoldable pub virt_disk_request : List ℕ → List Chunk → Option (List ℕ × List (List ℕ))
virt_disk_request disk [] = some (disk, [])
virt_disk_request disk (c ∷ cs) =
    continue (transfer_at (int_offset c.sector) c.dir c.bytes disk)
      λ disk'. virt_disk_request disk' cs

-- The loop of virt_disk_make_request over a bio's segments, from the byte `start` on.
unfoldable pub for_each_segment : Dir → ℕ → List (List ℕ) → List ℕ → Option (List ℕ × List (List ℕ))
for_each_segment dir start [] disk = some (disk, [])
for_each_segment dir start (buf ∷ segs) disk =
    continue (transfer dir start buf disk)
      λ disk'. for_each_segment dir (start + length buf) segs disk'

-- The offset is a sector_t of 64 bits here.
pub virt_disk_make_request : Dir → ℕ → List (List ℕ) → List ℕ → Option (List ℕ × List (List ℕ))
unfolding for_each_segment
virt_disk_make_request dir sector segs disk =
    for_each_segment dir (sector * sector_size % 2 ^ 64) segs disk
