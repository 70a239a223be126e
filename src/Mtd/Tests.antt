-- ===== src/Mtd/Tests.antt =====
-- The theorems about the virtual flash at concrete ranges.
use linux_driver_kb.Prelude.{
  ℕ, ◌%◌, ◌≡◌, refl, some, none, [], ◌∷◌, ◌++◌, ◌-◌, List, length-replicate, replicate, arith,
}
use linux_driver_kb.Prelude.Int.{pos}
use linux_driver_kb.Mtd.{Mtd, virt_mtd_read, virt_mtd_probe}
use linux_driver_kb.Mtd.Parts.{
  Size, bytes, full, Offset, starting, after_previous, Partition, Core, Part, part1, part2, Op,
  erase, read, write, run, two_flashes, Inside,
}
use linux_driver_kb.Mtd.Parts.Refine.{run-two_flashes}
use linux_driver_kb.Kernel.Errno.{einval}

abbrev by_512 : ℕ → ℕ
by_512 x = x % 512

probed : virt_mtd_read virt_mtd_probe 32766 2 ≡ some (pos 0, 2, 255 ∷ 255 ∷ [])
unfolding virt_mtd_read virt_mtd_probe
probed = refl

-- A core that places a partition as its entry says.
abbrev start_from : ℕ → Offset → ℕ
start_from end (starting s) = s
start_from end after_previous = end

abbrev size_from : ℕ → ℕ → Size → ℕ
size_from device start (bytes n) = n
size_from device start full = device - start

abbrev place : ℕ → ℕ → Partition → ℕ × ℕ
place device end p = let start = start_from end p.offset in (start, size_from device start p.size)

abbrev core : Core
core = record {
  place = place;
  mod_by_eb = by_512;
  mod_by_eb_eq = λ x. refl;
  place_starting = λ device end n start h. refl;
  place_rest = λ device end h. refl;
}

abbrev ones : List ℕ
ones = replicate 16384 1

abbrev twos : List ℕ
twos = replicate 16384 2

abbrev both : Mtd
both = record { buffer = ones ++ twos; erase_done = none; callbacks = 0 }

abbrev calls : List (Part × Op)
calls =
    (part2, write 7 (8 ∷ 9 ∷ []))
    ∷ (part1, erase 15872 512)
    ∷ (part2, erase 3 512)
    ∷ (part2, read 6 4)
    ∷ (part1, read 16383 1)
    ∷ []

replies :
    (two_flashes ones twos calls).0
    ≡ (pos 0, [])
      ∷ (pos 0, [])
      ∷ (einval, [])
      ∷ (pos 0, 2 ∷ 8 ∷ 9 ∷ 2 ∷ [])
      ∷ (pos 0, 255 ∷ [])
      ∷ []
unfolding two_flashes
replies = refl

calls-Inside : Inside calls
calls-Inside = (omega arith, (omega arith, (omega arith, (omega arith, (omega arith, tt)))))

run-two_flashes_example :
    let (out, a', b') = two_flashes ones twos calls in
    (m' : Mtd) × (run core both calls ≡ some (out, m')) × (m'.buffer ≡ a' ++ b')
run-two_flashes_example =
    run-two_flashes core calls both ones twos refl (length-replicate {A = ℕ} 16384 1)
      (length-replicate {A = ℕ} 16384 2) calls-Inside
