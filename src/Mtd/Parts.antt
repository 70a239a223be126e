-- ===== src/Mtd/Parts.antt =====
-- The partition table of 31.mtd/driver/virt_mtd.c, and its handlers as the mtd core calls them for a
-- partition: at the partition's start plus the offset in it.
pub mod Refine
use linux_driver_kb.Prelude.{
  ℕ, ◌+◌, ◌-◌, ◌*◌, ◌%◌, ◌≤◌, ◌≡◌, refl, ap, ◌∙◌, Option, some, none, List, [], ◌∷◌, ◌++◌, length,
  replicate, if◌then◌else◌, ◌==◌, not, Bool, get_or, ◌>>=◌, ℕ_discrete, arith, length-replicate,
  length-append,
}
use linux_driver_kb.Prelude.Int.{ℤ, pos}
use linux_driver_kb.Prelude.Bytes.{
  slice, splice, length-splice, slice-append_left, slice-append_right, splice-append_left,
  splice-append_right,
}
use linux_driver_kb.Kernel.Errno.{einval}
use linux_driver_kb.Mtd.{Mtd, erasesize, virt_mtd_erase, virt_mtd_read, virt_mtd_write}

-- MTDPART_SIZ_FULL is `full`, MTDPART_OFS_APPEND is `after_previous`.
pub data Size : Type 0 where
  bytes : ℕ → Size
  full : Size

pub data Offset : Type 0 where
  starting : ℕ → Offset
  after_previous : Offset

pub record Partition : Type 0 where
  pub size : Size
  pub offset : Offset

abbrev pub virt_mtd_partitions : List Partition
virt_mtd_partitions =
    record { size = bytes (16 * 1024); offset = starting 0 }
    ∷ record { size = full; offset = after_previous }
    ∷ []

-- The mtd core: where a partition of a device of `device` bytes starts and how many bytes it has, if the
-- one before it ends at `end`.
pub record Core : Type 0 where
  pub place : (device end : ℕ) → Partition → ℕ × ℕ
  pub mod_by_eb : ℕ → ℕ
  pub mod_by_eb_eq : (x : ℕ) → mod_by_eb x ≡ x % erasesize
  pub place_starting :
      (device end n start : ℕ)
      → start + n ≤ device
      → place device end (record { size = bytes n; offset = starting start }) ≡ (start, n)
  pub place_rest :
      (device end : ℕ)
      → end ≤ device
      → place device end (record { size = full; offset = after_previous }) ≡ (end, device - end)

-- Start and size of each partition of a table.
unfoldable pub extents : Core → ℕ → ℕ → List Partition → List (ℕ × ℕ)
extents core device end [] = []
extents core device end (p ∷ ps) =
    let (start, n) = core.place device end p in (start, n) ∷ extents core device (start + n) ps

-- The device is split into two halves without a gap and without an overlap.
pub extents_halves :
    (core : Core) → extents core 32768 0 virt_mtd_partitions ≡ (0, 16384) ∷ (16384, 16384) ∷ []
unfolding extents
extents_halves core =
    rw
      (core.place_starting 32768 0 16384 0 (omega arith), core.place_rest 32768 16384 (omega arith))
      refl

pub data Op : Type 0 where
  erase : ℕ → ℕ → Op
  read : ℕ → ℕ → Op
  write : ℕ → List ℕ → Op

abbrev pub end_of : Op → ℕ
end_of (erase addr len) = addr + len
end_of (read from len) = from + len
end_of (write to buf) = to + length buf

-- The handler's return value, what it read, and the device after it.
unfoldable pub call : Core → ℕ → Mtd → Op → Option ((ℤ × List ℕ) × Mtd)
call core start m (erase addr len) = do
  (r, m') ← virt_mtd_erase core.mod_by_eb m (start + addr) len
  some ((r, []), m')
call core start m (read from len) = do
  (r, _, buf) ← virt_mtd_read m (start + from) len
  some ((r, buf), m)
call core start m (write to buf) = do
  (r, _, m') ← virt_mtd_write m (start + to) buf
  some ((r, []), m')

-- A flash of its own, of which nothing is known but its bytes.
abbrev pub reply : List ℕ → Op → ℤ × List ℕ
reply c (erase addr len) =
    if addr % erasesize == 0
    then if len % erasesize == 0 then (pos 0, []) else (einval, [])
    else (einval, [])
reply c (read from len) = (pos 0, slice from len c)
reply c (write to buf) = (pos 0, [])

abbrev pub contents : List ℕ → Op → List ℕ
contents c (erase addr len) =
    if addr % erasesize == 0
    then if len % erasesize == 0 then splice addr (replicate len 0xff) c else c
    else c
contents c (read from len) = c
contents c (write to buf) = splice to buf c

pub data Part : Type 0 where
  part1 part2 : Part

-- Where a partition of the device starts.
unfoldable pub start_of : Core → Part → ℕ
start_of core part1 = (get_or (extents core 32768 0 virt_mtd_partitions) 0 (0, 0)).0
start_of core part2 = (get_or (extents core 32768 0 virt_mtd_partitions) 1 (0, 0)).0

-- A sequence of calls on the two partitions, in any order: what they return, and the device at the end.
unfoldable pub run : Core → Mtd → List (Part × Op) → Option (List (ℤ × List ℕ) × Mtd)
run core m [] = some ([], m)
run core m ((p, op) ∷ rs) = do
  (r, m') ← call core (start_of core p) m op
  (out, last) ← run core m' rs
  some (r ∷ out, last)

-- Two flashes that share nothing.
unfoldable pub two_flashes : (a b : List ℕ) → List (Part × Op) → List (ℤ × List ℕ) × List ℕ × List ℕ
two_flashes a b [] = ([], a, b)
two_flashes a b ((part1, op) ∷ rs) =
    let (out, a', b') = two_flashes (contents a op) b rs in (reply a op ∷ out, a', b')
two_flashes a b ((part2, op) ∷ rs) =
    let (out, a', b') = two_flashes a (contents b op) rs in (reply b op ∷ out, a', b')

-- Every call asks for a range inside its partition.
abbrev pub Inside : List (Part × Op) → Type 0
Inside [] = Unit
Inside ((_, op) ∷ rs) = (end_of op ≤ 16384) × Inside rs
