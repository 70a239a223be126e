-- ===== src/Disk/Segments.antt =====
-- The two ways in which the driver can be built serve the same requests alike.
use linux_driver_kb.Prelude.{
  ℕ, ◌+◌, ◌*◌, ◌/◌, ◌%◌, ◌≡◌, refl, ap, sym, ◌∙◌, ◌^◌, ◌<◌, some, List, [], ◌∷◌, length, arith,
}
use mathlib.Core.Path.{fun_ext, ap₂}
use linux_driver_kb.Disk.{
  Dir, Chunk, sector_size, transfer_at, int_offset, int_offset_exact, continue, virt_disk_request,
  for_each_segment, virt_disk_make_request,
}

-- Every segment is a whole number of sectors.
abbrev pub AllWhole : List (List ℕ) → Type 0
AllWhole [] = Unit
AllWhole (buf ∷ segs) = (length buf % sector_size ≡ 0) × AllWhole segs

abbrev pub total : List (List ℕ) → ℕ
total [] = 0
total (buf ∷ segs) = length buf + total segs

-- The rounds in which the block layer hands out a bio's segments.
abbrev pub rounds : Dir → ℕ → List (List ℕ) → List Chunk
rounds d s [] = []
rounds d s (buf ∷ segs) =
    record { dir = d; sector = s; bytes = buf } ∷ rounds d (s + length buf / sector_size) segs

segments-request :
    (dir : Dir) (segs : List (List ℕ)) (start sector : ℕ) (disk : List ℕ)
    → AllWhole segs
    → start ≡ sector * sector_size
    → start + total segs < 2 ^ 31
    → for_each_segment dir start segs disk ≡ virt_disk_request disk (rounds dir sector segs)
unfolding for_each_segment virt_disk_request transfer_at
segments-request dir [] start sector disk whole e fits = refl
segments-request dir (buf ∷ segs) start sector disk (whole, rest) e fits =
    ap₂ continue
      (ap (λ o. transfer_at o dir buf disk)
        (ap some e ∙ sym (int_offset_exact sector (omega (arith, e, fits)))))
      (fun_ext λ disk'.
        segments-request dir segs (start + length buf) (sector + length buf / sector_size) disk'
          rest (omega (arith, e, whole)) (omega (arith, fits)))

-- For a bio whose segments are whole sectors and end below 2 GiB, virt_disk_make_request has the
-- outcome of virt_disk_request over the segments one by one: the same memory and the same buffers, or an
-- access outside the memory in both.
pub make_request-request :
    (dir : Dir) (sector : ℕ) (segs : List (List ℕ)) (disk : List ℕ)
    → AllWhole segs
    → sector * sector_size + total segs < 2 ^ 31
    → virt_disk_make_request dir sector segs disk ≡ virt_disk_request disk (rounds dir sector segs)
unfolding virt_disk_make_request
make_request-request dir sector segs disk whole fits =
    let exact : sector * sector_size % 2 ^ 64 ≡ sector * sector_size = omega (arith, fits) in
    ap (λ start. for_each_segment dir start segs disk) exact
    ∙ segments-request dir segs (sector * sector_size) sector disk whole refl fits

-- Beyond that they differ: the request variant takes sector 2 ^ 23 for sector 0.
pub request-wraps :
    (c : Chunk) (disk : List ℕ)
    → c.sector ≡ 2 ^ 23
    → virt_disk_request disk (c ∷ []) ≡ virt_disk_request disk (record c { sector = 0 } ∷ [])
unfolding virt_disk_request int_offset
request-wraps c disk e = rw e refl
