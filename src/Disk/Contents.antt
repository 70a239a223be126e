-- ===== src/Disk/Contents.antt =====
-- What the disk holds after any sequence of requests, and what reads deliver.
use linux_driver_kb.Prelude.{
  ℕ, ◌+◌, ◌-◌, ◌*◌, ◌≤◌, ◌<◌, ◌^◌, ◌≡◌, refl, ◌&&◌, some, List, [], ◌∷◌, length, get_or, arith, ltb,
  leb, if◌then◌else◌, dec_lt, zero, suc, ap, sym, ◌∙◌, true,
}
use mathlib.Core.Path.{fun_ext}
use linux_driver_kb.Prelude.Bytes.{slice, length-splice, get_or-splice_in, get_or-splice_out}
use linux_driver_kb.Disk.{
  Dir, read, write, Chunk, sector_size, copy, transfer, transfer_at, int_offset_exact,
  virt_disk_request,
}

-- The chunk lies inside a disk of `n` bytes.
abbrev pub Inside : ℕ → Chunk → Type 0
Inside n c = c.sector * sector_size + length c.bytes ≤ n

abbrev pub AllInside : ℕ → List Chunk → Type 0
AllInside n [] = Unit
AllInside n (c ∷ cs) = Inside n c × AllInside n cs

-- The disk as its user sees it: a byte at each place.
abbrev pub Store : Type 0
Store = ℕ → ℕ

abbrev pub contents : List ℕ → Store
contents disk i = get_or disk i 0

-- The `n` bytes from `start` on.
unfoldable pub tabulate : Store → ℕ → ℕ → List ℕ
tabulate f start zero = []
tabulate f start (suc n) = f start ∷ tabulate f (suc start) n

abbrev pub put : Dir → ℕ → List ℕ → Store → Store
put read start buf f i = f i
put write start buf f i =
    if leb start i && ltb i (start + length buf) then get_or buf (i - start) 0 else f i

abbrev answer : Dir → ℕ → List ℕ → Store → List ℕ
answer read start buf f = tabulate f start (length buf)
answer write start buf f = buf

-- The chunks served one after the other: the store at the end, and the buffers.
unfoldable pub serve : Store → List Chunk → Store × List (List ℕ)
serve f [] = (f, [])
serve f (c ∷ cs) =
    let (g, bufs) = serve (put c.dir (c.sector * sector_size) c.bytes f) cs in
    (g, answer c.dir (c.sector * sector_size) c.bytes f ∷ bufs)

tabulate-shift :
    (f : Store) (start n : ℕ) → tabulate f (suc start) n ≡ tabulate (λ i. f (suc i)) start n
unfolding tabulate
tabulate-shift f start zero = refl
tabulate-shift f start (suc n) = ap (λ l. f (suc start) ∷ l) (tabulate-shift f (suc start) n)

slice-tabulate :
    (start n : ℕ) (disk : List ℕ)
    → start + n ≤ length disk
    → slice start n disk ≡ tabulate (contents disk) start n
unfolding tabulate
slice-tabulate zero zero disk h = refl
slice-tabulate zero (suc n) [] h = absurd (omega arith)
slice-tabulate zero (suc n) (m ∷ disk) h =
    ap (λ l. m ∷ l)
      (slice-tabulate zero n disk (omega arith) ∙ sym (tabulate-shift (contents (m ∷ disk)) zero n))
slice-tabulate (suc start) n [] h = absurd (omega arith)
slice-tabulate (suc start) n (m ∷ disk) h =
    slice-tabulate start n disk (omega arith) ∙ sym (tabulate-shift (contents (m ∷ disk)) start n)

-- Either `memcpy` does to the store what the chunk says.
length-copy :
    (dir : Dir) (start : ℕ) (buf disk : List ℕ) → length (copy dir start buf disk).0 ≡ length disk
length-copy read start buf disk = refl
length-copy write start buf disk = length-splice start buf disk

contents-copy :
    (dir : Dir) (start : ℕ) (buf disk : List ℕ)
    → start + length buf ≤ length disk
    → (contents (copy dir start buf disk).0 ≡ put dir start buf (contents disk))
      × ((copy dir start buf disk).1 ≡ answer dir start buf (contents disk))
contents-copy read start buf disk h = (refl, slice-tabulate start (length buf) disk h)
contents-copy write start buf disk h = (
  fun_ext λ i. elim (dec_lt i (length disk)) [
    | yes in_disk ↦ ground (
      arith,
      get_or-splice_in start buf disk i (i - start) 0,
      get_or-splice_out start buf disk i 0,
    )
    | no out ↦ ground (arith, get_or-splice_out start buf disk i 0)
  ],
  refl,
)

transfer_inside :
    (dir : Dir) (start : ℕ) (buf disk : List ℕ)
    → start + length buf ≤ length disk
    → transfer dir start buf disk ≡ some (copy dir start buf disk)
unfolding transfer
transfer_inside dir start buf disk h =
    let test : leb (start + length buf) (length disk) ≡ true = ground arith in rw test

-- For a disk of less than 2 GiB: requests inside it are served with no access outside its memory, which keeps its size. The
-- memory at the end and the buffers are those of a store that takes each write at its place and
-- answers each read with the bytes that are there.
pub request_serves :
    (cs : List Chunk) (disk : List ℕ)
    → AllInside (length disk) cs
    → length disk < 2 ^ 31
    → (end : List ℕ) × (bufs : List (List ℕ)) × (virt_disk_request disk cs ≡ some (end, bufs))
      × (length end ≡ length disk)
      × ((contents end, bufs) ≡ serve (contents disk) cs)
unfolding virt_disk_request serve transfer_at
request_serves [] disk inside small = (disk, [], refl, refl, refl)
request_serves (c ∷ cs) disk (here, rest) small =
    let start = c.sector * sector_size in
    let after = (copy c.dir start c.bytes disk).0 in
    let same = length-copy c.dir start c.bytes disk in
    let (end, bufs, served, size, spec) = request_serves cs after (rw same rest) (rw same small) in
    let place = int_offset_exact c.sector (omega (arith, here, small)) in
    let (stored, answered) = contents-copy c.dir start c.bytes disk here in
    let spec' : ◌≡◌ {A = Store × List (List ℕ)} (contents end, bufs)
        (serve (put c.dir start c.bytes (contents disk)) cs) =
      spec ∙ ap (λ f. serve f cs) stored in
    (
      end,
      (copy c.dir start c.bytes disk).1 ∷ bufs,
      rw (place, transfer_inside c.dir start c.bytes disk here, virt_disk_request, served),
      size ∙ same,
      λ i. ((spec' i).0, answered i ∷ (spec' i).1),
    )
