-- ===== src/Ssd1306.antt =====
-- The frame buffer of 28.Framebuffer/driver/ssd1306fb.c: a small monochrome panel behind an I2C bus,
-- with its picture in memory.
pub mod Pixels
pub mod Script
pub mod Shown
pub mod Write
pub mod Setup
mod Tests
use linux_driver_kb.Prelude.{
  ℕ, ◌+◌, ◌-◌, ◌*◌, ◌/◌, ◌%◌, ◌^◌, Bool, false, List, [], ◌∷◌, ltb, ◌==◌, length, if◌then◌else◌,
}
use linux_driver_kb.Prelude.Int.{ℤ, pos, negsuc, is_neg}
use linux_driver_kb.Kernel.Errno.{einval, efault}
use linux_driver_kb.Kernel.User.{UserCopy}

abbrev pub oled_width : ℕ
oled_width = 128

abbrev pub oled_height : ℕ
oled_height = 64

-- vmem_size of the probe.
abbrev vmem_size : ℕ
vmem_size = oled_width * oled_height / 8

-- The picture, of smem_len bytes, and the messages given to i2c_master_send, the newest first.
pub record Fb : Type 0 where
  pub vmem : List ℕ
  pub sent : List (List ℕ)

-- i2c_master_send: what it returns, by the earlier messages and this one.
abbrev pub Bus : Type 0
Bus = List (List ℕ) → List ℕ → ℤ

abbrev is_pos : ℤ → ℕ → Bool
is_pos (pos n) m = n == m
is_pos (negsuc _) m = false

abbrev pub cmd_message : ℕ → List ℕ
cmd_message cmd = 0x80 ∷ cmd ∷ []

abbrev pub data_message : List ℕ → List ℕ
data_message bytes = 0x40 ∷ bytes

-- `n - 1` of an unsigned char, handed over as an unsigned char.
abbrev pub less_one : ℕ → ℕ
less_one n = (n + 255) % 256

infixr 5 ◌$◌
abbrev ◌$◌ {ℓ ℓ'} : {A : Type ℓ} {B : Type ℓ'} → (A → B) → A → B
f $ x = f x

-- The count of ssd1306fb_write, cut to what is left of the picture; size_t has 64 bits.
abbrev pub room : ℕ → ℕ → ℕ → ℕ
room total_size count p = if ltb total_size ((count + p) % 2 ^ 64) then total_size - p else count

module _ (bus : Bus) where
  -- A message and the test of the result against its length.
  send : List ℕ → List (List ℕ) → ℤ × List (List ℕ)
  send message sent =
      let ret = bus sent message in
      (if is_pos ret (length message) then pos 0 else ret, message ∷ sent)

  unfoldable pub ssd1306fb_write_cmd : ℕ → List (List ℕ) → ℤ × List (List ℕ)
  unfolding send
  ssd1306fb_write_cmd cmd sent = send (cmd_message cmd) sent

  unfoldable pub ssd1306fb_write_data : List ℕ → List (List ℕ) → ℤ × List (List ℕ)
  unfolding send
  ssd1306fb_write_data bytes sent = send (data_message bytes) sent

  -- The result of the message is not looked at.
  unfoldable pub ssd1306fb_display : Fb → Fb
  unfolding ssd1306fb_write_data
  ssd1306fb_display s = record s { sent = (ssd1306fb_write_data s.vmem s.sent).1 }

  unfoldable pub ssd1306fb_blank : Bool → Fb → ℤ × Fb
  unfolding ssd1306fb_write_cmd
  ssd1306fb_blank unblank s =
      let (ret, sent) = ssd1306fb_write_cmd (if unblank then 0xaf else 0xae) s.sent in
      (ret, record s { sent = sent })

  -- One command with the early return after it, and then what follows.
  unfoldable pub then_cmd : ℕ → (Fb → ℤ × Fb) → Fb → ℤ × Fb
  unfolding ssd1306fb_write_cmd
  then_cmd cmd next s =
      let (ret, sent) = ssd1306fb_write_cmd cmd s.sent in
      let now = record s { sent = sent } in
      let rest = next now in if is_neg ret then (ret, now) else rest

  -- The picture, the command that turns the panel on, and the end.
  unfoldable pub show_picture : Fb → ℤ × Fb
  unfolding then_cmd ssd1306fb_display
  show_picture s = then_cmd 0xaf (λ t. (pos 0, t)) (ssd1306fb_display s)

  unfoldable pub ssd1306fb_init : ℕ → ℕ → Fb → ℤ × Fb
  unfolding then_cmd show_picture
  ssd1306fb_init width height =
      then_cmd 0x81
      $ then_cmd 127
      $ then_cmd 0xa1
      $ then_cmd 0xc8
      $ then_cmd 0xa8
      $ then_cmd (less_one height)
      $ then_cmd 0xd3
      $ then_cmd 0
      $ then_cmd 0xd5
      $ then_cmd 0x80
      $ then_cmd 0xd9
      $ then_cmd 0x1f
      $ then_cmd 0xda
      $ then_cmd 0x12
      $ then_cmd 0xdb
      $ then_cmd 0x40
      $ then_cmd 0x8d
      $ then_cmd 0x14
      $ then_cmd 0x20
      $ then_cmd 0x00
      $ then_cmd 0x21
      $ then_cmd 0x00
      $ then_cmd (less_one width)
      $ then_cmd 0x22
      $ then_cmd 0x00
      $ then_cmd (less_one (height / 8))
      $ show_picture

  -- ssd1306fb_write at `*ppos`: the result, the picture and the new position.
  unfoldable pub ssd1306fb_write : UserCopy → Fb → List ℕ → ℕ → ℕ → ℤ × Fb × ℕ
  unfolding ssd1306fb_display
  ssd1306fb_write u s buf count p =
      let total_size = length s.vmem in
      let n = room total_size count p in
      let (left, vmem) = u.from_user s.vmem p buf n in
      let copied = record s { vmem = vmem } in
      if ltb total_size p
      then (einval, s, p)
      else if n == 0
      then (einval, s, p)
      else if left == 0
      then (pos n, ssd1306fb_display copied, p + n)
      else (efault, copied, p)

  -- The kernel draws into the picture, and the panel is sent all of it.
  unfoldable pub ssd1306fb_imageblit : (List ℕ → List ℕ) → Fb → Fb
  unfolding ssd1306fb_display
  ssd1306fb_imageblit sys_imageblit s = ssd1306fb_display (record s { vmem = sys_imageblit s.vmem })

  -- Some time after a program wrote to the mapped picture.
  unfoldable pub ssd1306fb_deferred_io : Fb → Fb
  unfolding ssd1306fb_display
  ssd1306fb_deferred_io s = ssd1306fb_display s
