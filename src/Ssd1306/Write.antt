-- ===== src/Ssd1306/Write.antt =====
-- Writing into the picture.
use linux_driver_kb.Prelude.{
  ℕ, ◌+◌, ◌-◌, ◌<◌, ◌≤◌, ◌≡◌, ◌⊎◌, ◌^◌, List, ◌∷◌, length, get_or, arith, min, take,
}
use linux_driver_kb.Prelude.Int.{pos}
use linux_driver_kb.Prelude.Bytes.{splice}
use linux_driver_kb.Kernel.Errno.{einval, efault}
use linux_driver_kb.Kernel.User.{UserCopy, Mapped}
use linux_driver_kb.Ssd1306.{
  Fb, Bus, room, data_message, ssd1306fb_write, ssd1306fb_display, ssd1306fb_write_data,
}

room-min :
    (size count p : ℕ)
    → size < 2 ^ 31
    → count < 2 ^ 63
    → p < size
    → room size count p ≡ min count (size - p)
room-min size count p small h1 h2 = ground arith

module _ (bus : Bus) (u : UserCopy) where
  -- With mapped user buffers, a picture below 2^31 bytes and a count from 1 to the buffer's length and
  -- below 2^63, a write from a position inside the picture takes as many bytes as there is
  -- room for, puts them at the position and moves it by their number, and sends the whole new picture
  -- to the panel in one message.
  pub ssd1306fb_write-shows :
      (s : Fb) (buf : List ℕ) (count p : ℕ)
      → Mapped u
      → length s.vmem < 2 ^ 31
      → count < 2 ^ 63
      → count ≤ length buf
      → 0 < count
      → p < length s.vmem
      → let n = min count (length s.vmem - p) in
        let new = splice p (take n buf) s.vmem in
        ssd1306fb_write bus u s buf count p
        ≡ (pos n, record { vmem = new; sent = data_message new ∷ s.sent }, p + n)
  unfolding ssd1306fb_write ssd1306fb_display ssd1306fb_write_data
  ssd1306fb_write-shows s buf count p mapped small h1 h2 h3 h4 =
      let n = room (length s.vmem) count p in
      let cut = room-min (length s.vmem) count p small h1 h4 in
      let done = mapped.readable s.vmem p buf n (omega arith) in
      ground (arith, done, cut, u.from_user_all s.vmem p buf n done)

  -- Whatever the copy does, a write changes nothing outside the range asked for, keeps the picture's
  -- size, and ends in one of two ways: with -EINVAL or -EFAULT, the position kept and nothing sent to
  -- the panel; or with the picture as it is then sent to the panel and a position inside it or at its
  -- end.
  pub ssd1306fb_write_frame :
      (s : Fb) (buf : List ℕ) (count p i : ℕ)
      → length s.vmem < 2 ^ 31
      → count < 2 ^ 63
      → (i < p) ⊎ (p + count ≤ i)
      → let (r, s', p') = ssd1306fb_write bus u s buf count p in
        (get_or s'.vmem i 0 ≡ get_or s.vmem i 0)
        × (length s'.vmem ≡ length s.vmem)
        × (((s'.sent ≡ s.sent) × (p' ≡ p) × ((r ≡ einval) ⊎ (r ≡ efault)))
            ⊎ ((s'.sent ≡ data_message s'.vmem ∷ s.sent) × (p' ≤ length s'.vmem)))
  unfolding ssd1306fb_write ssd1306fb_display ssd1306fb_write_data
  ssd1306fb_write_frame s buf count p i small h1 out = ground (
    arith,
    u.from_user_frame s.vmem p buf (room (length s.vmem) count p) i 0,
    u.from_user_size s.vmem p buf (room (length s.vmem) count p),
  )
