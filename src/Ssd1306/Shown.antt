-- ===== src/Ssd1306/Shown.antt =====
-- The panel shows the picture.
use linux_driver_kb.Prelude.{ℕ, ◌≤◌, ◌≡◌, refl, Option, some, none, List, [], ◌∷◌, length, arith}
use linux_driver_kb.Kernel.User.{UserCopy, Mapped}
use linux_driver_kb.Ssd1306.{
  Bus, Fb, room, data_message, ssd1306fb_display, ssd1306fb_write, ssd1306fb_write_data,
  ssd1306fb_imageblit, ssd1306fb_deferred_io,
}

abbrev pub newest : List (List ℕ) → Option (List ℕ)
newest [] = none
newest (message ∷ sent) = some message

-- The newest message is the whole picture.
abbrev pub IsShown : Fb → Type 0
IsShown s = newest s.sent ≡ some (data_message s.vmem)

-- A write from a buffer that holds what it takes, a picture that the kernel draws, or one that a
-- program wrote to the mapped memory and the deferred handler sends.
pub data Change : Type 0 where
  write : List ℕ → ℕ → ℕ → Change
  blit mapped : (List ℕ → List ℕ) → Change

abbrev pub Holds : ℕ → Change → Type 0
Holds size (write buf count p) = room size count p ≤ length buf
Holds size _ = Unit

module _ (bus : Bus) (u : UserCopy) where
  unfoldable pub change : Fb → Change → Fb
  change s (write buf count p) = (ssd1306fb_write bus u s buf count p).1
  change s (blit draw) = ssd1306fb_imageblit bus draw s
  change s (mapped draw) = ssd1306fb_deferred_io bus (record s { vmem = draw s.vmem })

  unfoldable pub changes : Fb → List Change → Fb
  changes s [] = s
  changes s (c ∷ cs) = changes (change s c) cs

  -- Every write finds what it takes in its buffer.
  abbrev pub AllHold : Fb → List Change → Type 0
  AllHold s [] = Unit
  AllHold s (c ∷ cs) = Holds (length s.vmem) c × AllHold (change s c) cs

  change-IsShown :
      (c : Change) (s : Fb) → Mapped u → Holds (length s.vmem) c → IsShown s → IsShown (change s c)
  unfolding change ssd1306fb_write ssd1306fb_imageblit ssd1306fb_deferred_io ssd1306fb_display
      ssd1306fb_write_data
  change-IsShown (write buf count p) s readable holds h =
      ground (arith, readable.readable s.vmem p buf (room (length s.vmem) count p) holds)
  change-IsShown (blit draw) s readable holds h = refl
  change-IsShown (mapped draw) s readable holds h = refl

  -- With mapped user buffers: once the panel has been sent the picture, then after any sequence of
  -- writes, refused ones included, of pictures drawn by the kernel and of pictures written to the mapped
  -- memory, the newest message to the panel is the whole picture as it is.
  pub changes-IsShown :
      (cs : List Change) (s : Fb) → Mapped u → AllHold s cs → IsShown s → IsShown (changes s cs)
  unfolding changes
  changes-IsShown [] s readable holds h = h
  changes-IsShown (c ∷ cs) s readable (now, later) h =
      changes-IsShown cs (change s c) readable later (change-IsShown c s readable now h)
