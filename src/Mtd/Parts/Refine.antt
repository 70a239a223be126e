-- ===== src/Mtd/Parts/Refine.antt =====
-- The two partitions of the virtual flash behave as two flashes that share nothing.
use linux_driver_kb.Prelude.{
  ℕ, ◌+◌, ◌%◌, ◌≤◌, ◌≡◌, refl, ap, sym, ◌∙◌, some, List, [], ◌∷◌, ◌++◌, length, replicate,
  ℕ_discrete, get_or, arith, length-replicate, length-append,
}
use linux_driver_kb.Prelude.Bytes.{
  slice, splice, length-splice, slice-append_left, slice-append_right, splice-append_left,
  splice-append_right,
}
use linux_driver_kb.Mtd.{Mtd, erasesize, virt_mtd_erase, virt_mtd_read, virt_mtd_write}
use linux_driver_kb.Mtd.Parts.{
  Core, Op, erase, read, write, end_of, call, reply, contents, Part, part1, part2, start_of, run,
  two_flashes, Inside, extents_halves,
}

length-contents : (c : List ℕ) (op : Op) → length (contents c op) ≡ length c
length-contents c (erase addr len) = ground (arith, length-splice addr (replicate len 0xff) c)
length-contents c (read from len) = refl
length-contents c (write to buf) = length-splice to buf c

-- The bytes `part` stand in `whole` from `start` on, and `put` puts others in their place.
record Window (whole part : List ℕ) (start : ℕ) (put : List ℕ → List ℕ) : Type 0 where
  whole_put : whole ≡ put part
  aligned : start % erasesize ≡ 0
  fits : start + length part ≤ length whole
  slice_at : (p n : ℕ) → p + n ≤ length part → slice (start + p) n whole ≡ slice p n part
  splice_at :
      (p : ℕ) (bs : List ℕ)
      → p + length bs ≤ length part
      → splice (start + p) bs whole ≡ put (splice p bs part)

zero_plus : (p : ℕ) → 0 + p ≡ p
zero_plus p = omega arith

left-Window : (a b : List ℕ) → Window (a ++ b) a 0 (λ x. x ++ b)
left-Window a b = record {
  whole_put = refl;
  aligned = refl;
  fits = omega (arith, length-append a b);
  slice_at = λ p n h. rw (zero_plus p) (slice-append_left p n a b h);
  splice_at = λ p bs h. rw (zero_plus p) (splice-append_left p bs a b h);
}

right-Window :
    (a b : List ℕ) → length a % erasesize ≡ 0 → Window (a ++ b) b (length a) (λ x. a ++ x)
right-Window a b whole_blocks = record {
  whole_put = refl;
  aligned = whole_blocks;
  fits = omega (arith, length-append a b);
  slice_at = λ p n h. slice-append_right p n a b;
  splice_at = λ p bs h. splice-append_right p bs a b;
}

module _ (core : Core) (part : List ℕ) (start : ℕ) (put : List ℕ → List ℕ) where
  aligned_sum : (addr : ℕ) → start % erasesize ≡ 0 → (start + addr) % erasesize ≡ addr % erasesize
  aligned_sum addr h = omega (arith, h)

  -- A handler called at the start of a window does there what a flash of its own would.
  call-Window :
      (m : Mtd) (op : Op)
      → Window m.buffer part start put
      → end_of op ≤ length part
      → (m' : Mtd) × (call core start m op ≡ some (reply part op, m'))
        × (m'.buffer ≡ put (contents part op))
  unfolding call virt_mtd_erase virt_mtd_read virt_mtd_write
  call-Window m (erase addr len) w inside =
      let bs : List ℕ = replicate len 0xff in
      let size = length-replicate {A = ℕ} len 0xff in
      let whole_addr = core.mod_by_eb_eq (start + addr) in
      let whole_len = core.mod_by_eb_eq len in
      let sum = aligned_sum addr w.aligned in
      elim (ℕ_discrete (addr % erasesize) 0) [
        | no e ↦ (m, ground (arith, whole_addr, sum), ground (arith, w.whole_put))
        | yes e ↦ elim (ℕ_discrete (len % erasesize) 0) [
          | no f ↦ (m, ground (arith, whole_addr, whole_len, sum), ground (arith, w.whole_put))
          | yes f ↦ (
            record m {
              buffer = splice (start + addr) bs m.buffer;
              erase_done = some (start + addr);
              callbacks = m.callbacks + 1;
            },
            ground (arith, whole_addr, whole_len, sum, w.fits),
            ground (arith, w.splice_at addr bs (omega (arith, size))),
          )
        ]
      ]
  call-Window m (read from len) w inside =
      (m, ground (arith, w.fits, w.slice_at from len inside), w.whole_put)
  call-Window m (write to buf) w inside = (
    record m { buffer = splice (start + to) buf m.buffer },
    ground (arith, w.fits),
    w.splice_at to buf inside,
  )

start_of_part1 : (core : Core) → start_of core part1 ≡ 0
unfolding start_of
start_of_part1 core = ap (λ es. (get_or {A = ℕ × ℕ} es 0 (0, 0)).0) (extents_halves core)

start_of_part2 : (core : Core) → start_of core part2 ≡ 16384
unfolding start_of
start_of_part2 core = ap (λ es. (get_or {A = ℕ × ℕ} es 1 (0, 0)).0) (extents_halves core)

-- For a device of two halves of 16 KiB: whatever is erased, read and written on the two partitions at
-- ranges inside them, in whatever order, every call returns and reads what it would on two flashes that
-- share nothing, misaligned erases included, and the device holds the bytes of the one followed by the
-- bytes of the other.
pub run-two_flashes :
    (core : Core) (rs : List (Part × Op)) (m : Mtd) (a b : List ℕ)
    → m.buffer ≡ a ++ b
    → length a ≡ 16384
    → length b ≡ 16384
    → Inside rs
    → let (out, a', b') = two_flashes a b rs in
      (m' : Mtd) × (run core m rs ≡ some (out, m')) × (m'.buffer ≡ a' ++ b')
unfolding run two_flashes
run-two_flashes core [] m a b same la lb inside = (m, refl, same)
run-two_flashes core ((part1, op) ∷ rs) m a b same la lb (here, later) =
    let (m1, step, same1) =
      call-Window core a 0 (λ x. x ++ b) m op (rw same (left-Window a b)) (rw la here) in
    let (m2, steps, same2) =
      run-two_flashes core rs m1 (contents a op) b same1 (length-contents a op ∙ la) lb later in
    (m2, rw (start_of_part1 core, step, steps) refl, same2)
run-two_flashes core ((part2, op) ∷ rs) m a b same la lb (here, later) =
    let right = right-Window a b (rw la refl) in
    let (m1, step, same1) =
      call-Window core b (length a) (λ x. a ++ x) m op (rw same right) (rw lb here) in
    let (m2, steps, same2) =
      run-two_flashes core rs m1 a (contents b op) same1 la (length-contents b op ∙ lb) later in
    let at : start_of core part2 ≡ length a = start_of_part2 core ∙ sym la in
    (m2, rw (at, step, steps) refl, same2)
