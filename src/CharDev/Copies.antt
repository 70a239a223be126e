-- ===== src/CharDev/Copies.antt =====
-- What single calls on the character device do to the memory, for copies that may fail.
use linux_driver_kb.Prelude.{ℕ, ◌+◌, ◌≤◌, ◌<◌, ◌≡◌, ◌⊎◌, List, get_or, take, arith, length-take}
use linux_driver_kb.Prelude.Int.{pos, pos_part}
use linux_driver_kb.Prelude.Bytes.{slice, splice, slice-splice}
use linux_driver_kb.Kernel.Errno.{efault}
use linux_driver_kb.Kernel.User.{UserCopy}
use linux_driver_kb.CharDev.{CharDev, clip, char_dev_write, char_dev_read, char_dev_llseek}
use linux_driver_kb.CharDev.Bounds.{IsValid}

module _ (u : UserCopy) where
  -- A write of `len` bytes changes at most the `len` bytes from the position on. It ends with
  -- -EFAULT and the position kept, or with a count of at most `len` by which the position moved.
  pub char_dev_write_frame :
      {d : CharDev} (buf : List ℕ) (len i : ℕ)
      → IsValid d
      → (i < pos_part d.f_pos) ⊎ (pos_part d.f_pos + len ≤ i)
      → let (r, d') = char_dev_write u d buf len in
        (get_or d'.mem i 0 ≡ get_or d.mem i 0)
        × (((r ≡ efault) × (d'.f_pos ≡ d.f_pos))
            ⊎ ((pos_part r ≤ len) × (d'.f_pos ≡ pos (pos_part d.f_pos + pos_part r))))
  unfolding char_dev_write
  char_dev_write_frame {d} buf len i v out =
      ground
        (arith, u.from_user_frame d.mem (pos_part d.f_pos) buf (clip (pos_part d.f_pos) len) i 0)

  -- After a write that returned `n`, a seek back to where it began and a read of `n` bytes: if the
  -- read does not fail, it delivers the first `n` bytes of the buffer.
  pub read-write :
      {d : CharDev} (buf : List ℕ) (len n : ℕ)
      → IsValid d
      → (char_dev_write u d buf len).0 ≡ pos n
      → let back = (char_dev_llseek (char_dev_write u d buf len).1 d.f_pos 0).1 in
        let (r, bs, d'') = char_dev_read u back n in
        (r ≡ efault) ⊎ ((r ≡ pos n) × (bs ≡ take n buf))
  unfolding char_dev_write char_dev_read char_dev_llseek
  read-write {d} buf len n v e = ground (
    arith,
    u.from_user_all d.mem (pos_part d.f_pos) buf (clip (pos_part d.f_pos) len),
    u.to_user_all (slice (pos_part d.f_pos) n (splice (pos_part d.f_pos) (take n buf) d.mem)),
    slice-splice (pos_part d.f_pos) (take n buf) d.mem,
    length-take n buf,
  )
