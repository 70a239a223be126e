-- ===== src/Ssd1306/Pixels.antt =====
-- The layout that the frame buffer of 28.Framebuffer/driver/ssd1306fb.c reports, ssd1306fb_fix and
-- ssd1306fb_var, and where the panel shows its pixels.
use linux_driver_kb.Prelude.{ℕ, ◌+◌, ◌*◌, ◌/◌, ◌%◌, ◌<◌, ◌≡◌, List, ◌∷◌, length, get_or, arith}
use linux_driver_kb.Ssd1306.{oled_width, oled_height, vmem_size, cmd_message, data_message}
use linux_driver_kb.Ssd1306.Script.{messages_of, window, logged}

-- What the two structs say of the size; the rest of ssd1306fb_fix is FB_TYPE_PACKED_PIXELS and no panning.
pub record Screen : Type 0 where
  pub line_length : ℕ
  pub bits_per_pixel : ℕ
  pub xres : ℕ
  pub yres : ℕ

abbrev pub ssd1306fb_screen : Screen
ssd1306fb_screen = record {
  line_length = oled_width / 8;
  bits_per_pixel = 1;
  xres = oled_width;
  yres = oled_height;
}

-- Where packed pixels stand, by the documentation of the type.
abbrev pub byte_of : Screen → ℕ → ℕ → ℕ
byte_of s x y = y * s.line_length + x * s.bits_per_pixel / 8

-- The picture has a place for every pixel, and pixels in one byte are in one line.
pub byte_of-inside :
    (x y : ℕ)
    → x < ssd1306fb_screen.xres
    → y < ssd1306fb_screen.yres
    → byte_of ssd1306fb_screen x y < vmem_size
byte_of-inside x y hx hy = omega arith

pub byte_of-apart :
    (x y x' y' : ℕ)
    → x < ssd1306fb_screen.xres
    → x' < ssd1306fb_screen.xres
    → byte_of ssd1306fb_screen x y ≡ byte_of ssd1306fb_screen x' y'
    → x % 8 ≡ x' % 8
    → (x ≡ x') × (y ≡ y')
byte_of-apart x y x' y' hx hx' e b = (omega arith, omega arith)

-- The messages, the newest first, since the panel was told to fill its whole screen in horizontal addressing:
-- whole pictures, and commands that turn it on or off.
pub data Filling : List (List ℕ) → Type 0 where
  window_set :
      (earlier : List (List ℕ))
      → Filling (logged (messages_of (window oled_width oled_height)) earlier)
  picture :
      {log : List (List ℕ)} (bytes : List ℕ)
      → length bytes ≡ vmem_size
      → Filling log
      → Filling (data_message bytes ∷ log)
  turned_on : {log : List (List ℕ)} → Filling log → Filling (cmd_message 0xaf ∷ log)
  turned_off : {log : List (List ℕ)} → Filling log → Filling (cmd_message 0xae ∷ log)

-- The panel, by its data sheet: the byte that it shows in a column of a page, 8 lines high, after all its
-- messages. In horizontal addressing a whole picture fills a page from column to column, and then the next;
-- after the last page it starts over.
pub record Panel : Type 0 where
  pub cell : List (List ℕ) → ℕ → ℕ → ℕ
  pub cell_eq :
      (log : List (List ℕ)) (bytes : List ℕ) (column page : ℕ)
      → Filling log
      → length bytes ≡ vmem_size
      → column < oled_width
      → page < oled_height / 8
      → cell (data_message bytes ∷ log) column page ≡ get_or bytes (page * oled_width + column) 0

abbrev pub column_of : ℕ → ℕ → ℕ
column_of x y = y % 8 * 16 + x / 8

-- On each line of the picture, at most two pixels, one beside the other, are in a column that is their own.
pub column_of-few : (x x' y : ℕ) → x < x' → column_of x y ≡ x → column_of x' y ≡ x' → x' ≡ x + 1
column_of-few x x' y lt h h' = omega arith
