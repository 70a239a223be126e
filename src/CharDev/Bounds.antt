-- ===== src/CharDev/Bounds.antt =====
-- The invariant of the character device: the memory keeps its size and the position stays inside
-- it, also when a copy to or from the user fails half-way.
use linux_driver_kb.Prelude.{ℕ, ◌≤◌, ◌≡◌, refl, List, length, length-replicate, arith}
use linux_driver_kb.Prelude.Int.{ℤ, pos, pos_part}
use linux_driver_kb.Kernel.User.{UserCopy}
use linux_driver_kb.CharDev.{
  CharDev, mem_size, clip, char_dev_open, char_dev_write, char_dev_read, char_dev_llseek,
}

pub record IsValid (d : CharDev) : Type 0 where
  pub size : length d.mem ≡ mem_size
  pub nonneg : d.f_pos ≡ pos (pos_part d.f_pos)
  pub inside : pos_part d.f_pos ≤ mem_size

pub char_dev_open-IsValid : (d : CharDev) → IsValid (char_dev_open d)
unfolding char_dev_open
char_dev_open-IsValid d = record {
  size = length-replicate {A = ℕ} mem_size 0;
  nonneg = refl;
  inside = omega arith;
}

pub char_dev_llseek-IsValid :
    {d : CharDev} (offset : ℤ) (orig : ℕ) → IsValid d → IsValid (char_dev_llseek d offset orig).1
unfolding char_dev_llseek
char_dev_llseek-IsValid offset orig v = ground arith

module _ (u : UserCopy) where
  pub char_dev_write-IsValid :
      {d : CharDev} (buf : List ℕ) (len : ℕ) → IsValid d → IsValid (char_dev_write u d buf len).1
  unfolding char_dev_write
  char_dev_write-IsValid {d} buf len v =
      ground (arith, u.from_user_size d.mem (pos_part d.f_pos) buf (clip (pos_part d.f_pos) len))

  pub char_dev_read-IsValid :
      {d : CharDev} (len : ℕ) → IsValid d → IsValid (char_dev_read u d len).2
  unfolding char_dev_read
  char_dev_read-IsValid {d} len v = ground arith
