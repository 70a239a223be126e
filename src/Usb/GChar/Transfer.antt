-- ===== src/Usb/GChar/Transfer.antt =====
-- What goes through the two endpoints.
use linux_driver_kb.Prelude.{
  ℕ, ◌≤◌, ◌≡◌, refl, ap, some, List, take, length, min, arith, length-take, take_all, dec_lt, ◌∙◌,
  ltb, if◌then◌else◌,
}
use linux_driver_kb.Prelude.Int.{pos}
use linux_driver_kb.Prelude.Bytes.{splice, slice-splice}
use linux_driver_kb.Kernel.User.{UserCopy, Mapped}
use linux_driver_kb.Usb.GChar.{complete, buflen, clipped, g_char_read, g_char_write}

take-clipped : (buf : List ℕ) → take (clipped (length buf)) buf ≡ take buflen buf
take-clipped buf = elim (dec_lt (length buf) buflen) [
  | yes short ↦
      let n : clipped (length buf) ≡ length buf = ground arith in
      rw (n, take_all (length buf) buf (omega arith), take_all buflen buf (omega arith))
  | no long ↦ let n : clipped (length buf) ≡ buflen = ground arith in rw n
]

module _ (u : UserCopy) (mapped : Mapped u) where
  -- What the copy leaves in the request, and what of it is sent.
  copied :
      (mem buf : List ℕ)
      → length mem ≡ buflen
      → let n = clipped (length buf) in
        let (left, mem') = u.from_user mem 0 buf n in
        (left ≡ 0) × (take n mem' ≡ take buflen buf) × (length mem' ≡ buflen)
  copied mem buf h =
      let n = clipped (length buf) in
      let small : n ≤ length buf = ground arith in
      let size : length (take n buf) ≡ n = omega (arith, length-take n buf) in
      let done = mapped.readable mem 0 buf n small in
      let (_, is_splice) = u.from_user_all mem 0 buf n done in
      let kept : take (length (take n buf)) (splice 0 (take n buf) mem) ≡ take n buf =
        slice-splice 0 (take n buf) mem (ground arith) in
      (done, rw (is_splice, ← take-clipped buf) (rw size at kept), u.from_user_size mem 0 buf n ∙ h)

  -- A packet that is not longer than what was asked for arrives whole.
  read_whole :
      (packet : List ℕ) (count : ℕ)
      → length packet ≤ count
      → g_char_read u (pos 0) (complete packet) count ≡ (pos (length packet), packet)
  unfolding g_char_read
  read_whole packet count h =
      let n : (if ltb count (length packet) then count else length packet) ≡ length packet =
        ground arith in
      rw (n, take_all (length packet) packet (omega arith), mapped.writable packet)
        (ap (λ bs. (pos (length packet), bs)) (u.to_user_all packet (mapped.writable packet)))

  -- With mapped user buffers and a host that takes what it is sent, a write of any length sends the first
  -- 4096 bytes of the buffer, or all if it has less, in one packet, and returns their number. With a host
  -- that sends the packet back, a read of as many bytes as were to be written delivers the packet.
  pub write-echo :
      (mem buf : List ℕ)
      → length mem ≡ buflen
      → let packet = take buflen buf in
        let (ret, mem', sent) = g_char_write u (pos 0) (complete packet) mem buf (length buf) in
        (ret ≡ pos (min (length buf) buflen))
        × (sent ≡ some packet)
        × (length mem' ≡ buflen)
        × (g_char_read u (pos 0) (complete packet) (length buf) ≡ (ret, packet))
  unfolding g_char_write
  write-echo mem buf h =
      let (done, packet, size) = copied mem buf h in
      let n : length (take buflen buf) ≡ min (length buf) buflen =
        omega (arith, length-take buflen buf) in
      rw (done, read_whole (take buflen buf) (length buf) (omega arith), n)
        (refl, ap some packet, size, refl)
