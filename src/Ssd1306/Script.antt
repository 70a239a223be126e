-- ===== src/Ssd1306/Script.antt =====
-- What the panel is sent when it is set up, in the terms of its data sheet.
use linux_driver_kb.Prelude.{
  ℕ, ◌-◌, ◌/◌, ◌<◌, ◌≡◌, ◌⊎◌, true, List, [], ◌∷◌, ◌++◌, map, take, length,
}
use linux_driver_kb.Prelude.Int.{ℤ, pos, is_neg}
use linux_driver_kb.Ssd1306.{Fb, Bus, cmd_message, data_message, then_cmd}

-- How the address moves after each byte of a picture.
pub data Addressing : Type 0 where
  horizontal vertical page_by_page : Addressing

-- The commands of the panel, as the data sheet names them.
pub data Command : Type 0 where
  contrast multiplex_ratio display_offset clock_divide precharge com_pins vcomh_level : ℕ → Command
  segments_from_right coms_from_bottom charge_pump_on display_on display_off : Command
  addressing : Addressing → Command
  columns pages : ℕ → ℕ → Command

abbrev mode_byte : Addressing → ℕ
mode_byte horizontal = 0x00
mode_byte vertical = 0x01
mode_byte page_by_page = 0x02

-- The bytes of a command; the multiplex ratio of `n` lines is sent as `n - 1`.
abbrev pub bytes_of : Command → List ℕ
bytes_of (contrast n) = 0x81 ∷ n ∷ []
bytes_of segments_from_right = 0xa1 ∷ []
bytes_of coms_from_bottom = 0xc8 ∷ []
bytes_of (multiplex_ratio lines) = 0xa8 ∷ (lines - 1) ∷ []
bytes_of (display_offset n) = 0xd3 ∷ n ∷ []
bytes_of (clock_divide n) = 0xd5 ∷ n ∷ []
bytes_of (precharge n) = 0xd9 ∷ n ∷ []
bytes_of (com_pins n) = 0xda ∷ n ∷ []
bytes_of (vcomh_level n) = 0xdb ∷ n ∷ []
bytes_of charge_pump_on = 0x8d ∷ 0x14 ∷ []
bytes_of (addressing mode) = 0x20 ∷ mode_byte mode ∷ []
bytes_of (columns first last) = 0x21 ∷ first ∷ last ∷ []
bytes_of (pages first last) = 0x22 ∷ first ∷ last ∷ []
bytes_of display_on = 0xaf ∷ []
bytes_of display_off = 0xae ∷ []

-- Each byte of a command is a message of its own.
abbrev pub messages_of : List Command → List (List ℕ)
messages_of [] = []
messages_of (c ∷ cs) = map cmd_message (bytes_of c) ++ messages_of cs

-- The panel's settings, and the part of it that pictures fill.
abbrev settings : ℕ → List Command
settings height =
    contrast 127
    ∷ segments_from_right
    ∷ coms_from_bottom
    ∷ multiplex_ratio height
    ∷ display_offset 0
    ∷ clock_divide 0x80
    ∷ precharge 0x1f
    ∷ com_pins 0x12
    ∷ vcomh_level 0x40
    ∷ charge_pump_on
    ∷ []

abbrev pub window : ℕ → ℕ → List Command
window width height = addressing horizontal ∷ columns 0 (width - 1) ∷ pages 0 (height / 8 - 1) ∷ []

-- The messages of a complete setup.
abbrev pub script : ℕ → ℕ → List ℕ → List (List ℕ)
script width height vmem =
    messages_of (settings height)
    ++ messages_of (window width height)
    ++ data_message vmem ∷ messages_of (display_on ∷ [])

-- The log of messages after some more, the first of them first.
abbrev pub logged : List (List ℕ) → List (List ℕ) → List (List ℕ)
logged [] sent = sent
logged (m ∷ ms) sent = logged ms (m ∷ sent)

-- Either all messages were sent and the result is 0, or the first ones, and the result is an error.
abbrev pub Follows : List (List ℕ) → Fb → ℤ × Fb → Type 0
Follows ms s r =
    (n : ℕ) × (r.1.sent ≡ logged (take n ms) s.sent)
    × (r.1.vmem ≡ s.vmem)
    × (((r.0 ≡ pos 0) × (n ≡ length ms)) ⊎ ((is_neg r.0 ≡ true) × (0 < n)))

module _ (bus : Bus) where
  -- Several commands, one after the other.
  abbrev all_cmds : List ℕ → (Fb → ℤ × Fb) → Fb → ℤ × Fb
  all_cmds [] next = next
  all_cmds (cmd ∷ cmds) next = then_cmd bus cmd (all_cmds cmds next)
