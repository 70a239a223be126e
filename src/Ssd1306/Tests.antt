-- ===== src/Ssd1306/Tests.antt =====
-- The theorems about the panel at concrete inputs.
use linux_driver_kb.Prelude.{
  List, ℕ, ◌+◌, ◌*◌, get_or, drop, refl, ◌≡◌, [], ◌∷◌, length, replicate, arith,
}
use linux_driver_kb.Prelude.Int.{pos}
use linux_driver_kb.Prelude.Bytes.{splice}
use linux_driver_kb.Kernel.FlatCopy.{flat_copy, flat_copy-Mapped}
use linux_driver_kb.Ssd1306.{
  Fb, Bus, oled_width, oled_height, data_message, ssd1306fb_init, ssd1306fb_write,
  ssd1306fb_imageblit, ssd1306fb_display, ssd1306fb_write_data, ssd1306fb_write_cmd, then_cmd,
  show_picture,
}
use linux_driver_kb.Ssd1306.Shown.{
  IsShown, Change, write, blit, mapped, changes, change, changes-IsShown,
}
use linux_driver_kb.Ssd1306.Pixels.{Panel, byte_of, ssd1306fb_screen}

-- A bus that delivers all.
abbrev wire : Bus
wire _ message = pos (length message)

abbrev dark : Fb
dark = record { vmem = replicate 16 0; sent = [] }

abbrev clear : Fb
clear = record { vmem = replicate 16 0; sent = data_message (replicate 16 0) ∷ [] }

-- A write, a write behind the picture's end, a picture drawn and one written to the mapped memory.
abbrev drawing : List Change
drawing =
    write (9 ∷ 8 ∷ 7 ∷ []) 3 14
    ∷ write (9 ∷ []) 1 17
    ∷ blit (λ vmem. 255 ∷ drop 1 vmem)
    ∷ mapped (λ vmem. 1 ∷ drop 1 vmem)
    ∷ []

changes-IsShown_example : IsShown (changes wire flat_copy clear drawing)
unfolding change ssd1306fb_write ssd1306fb_imageblit ssd1306fb_display
changes-IsShown_example =
    changes-IsShown wire flat_copy drawing clear flat_copy-Mapped
      (omega arith, (omega arith, (record {}, (record {}, record {})))) refl

-- A panel that fills page after page, and a drawing of one byte.
abbrev newest_bytes : List (List ℕ) → List ℕ
newest_bytes [] = []
newest_bytes (m ∷ ms) = drop 1 m

abbrev panel : Panel
panel = record {
  cell = λ log column page. get_or (newest_bytes log) (page * 128 + column) 0;
  cell_eq = λ log bytes column page filling size inside high. refl;
}

abbrev off : Fb
off = record { vmem = replicate 1024 0; sent = [] }

abbrev dot : List ℕ → List ℕ
dot v = splice 339 (8 ∷ []) v

abbrev drawn : Fb
drawn = ssd1306fb_imageblit wire dot (ssd1306fb_init wire oled_width oled_height off).1

-- The pixel in column 24 of line 21 is shown in column 83.
dot_moved :
    (byte_of ssd1306fb_screen 24 21 ≡ 339)
    × (panel.cell drawn.sent 83 2 ≡ 8)
    × (panel.cell drawn.sent 24 2 ≡ 0)
unfolding ssd1306fb_imageblit ssd1306fb_display ssd1306fb_write_data ssd1306fb_init then_cmd
    show_picture ssd1306fb_write_cmd
dot_moved = (refl, refl, refl)
