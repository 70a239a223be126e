-- ===== src/Disk/Tests.antt =====
-- The theorems about the virtual disk at concrete requests, on a small memory.
use linux_driver_kb.Prelude.{ℕ, ◌≡◌, refl, none, some, List, [], ◌∷◌, replicate, length, arith}
use linux_driver_kb.Disk.{
  read, write, Chunk, transfer, transfer_at, int_offset, virt_disk_request, virt_disk_make_request,
}
use linux_driver_kb.Disk.Contents.{contents, serve, request_serves}
use linux_driver_kb.Disk.Segments.{rounds, make_request-request}

abbrev blank : List ℕ
blank = replicate 1024 0

abbrev script : List Chunk
script =
    record { dir = write; sector = 1; bytes = 7 ∷ 8 ∷ [] }
    ∷ record { dir = read; sector = 1; bytes = 0 ∷ 0 ∷ 0 ∷ [] }
    ∷ []

outside : virt_disk_request blank (record { dir = read; sector = 2; bytes = 0 ∷ [] } ∷ []) ≡ none
unfolding virt_disk_request transfer transfer_at int_offset
outside = refl

request_serves_example :
    (end : List ℕ) × (bufs : List (List ℕ)) × (virt_disk_request blank script ≡ some (end, bufs))
    × (length end ≡ 1024)
    × ((contents end, bufs) ≡ serve (contents blank) script)
request_serves_example = request_serves script blank (omega arith) (omega arith)

abbrev two_sectors : List (List ℕ)
two_sectors = replicate 512 1 ∷ replicate 512 2 ∷ []

make_request-request_example :
    virt_disk_make_request write 0 two_sectors blank
    ≡ virt_disk_request blank (rounds write 0 two_sectors)
make_request-request_example =
    make_request-request write 0 two_sectors blank (omega arith) (omega arith)
