-- ===== src/Usb/Mouse/Poll.antt =====
-- What fake_mouse.c does when a transfer of its URB ends.
use linux_driver_kb.Prelude.{
  ℕ, ◌+◌, ◌*◌, ◌≢◌, ◌/◌, ◌%◌, Bool, true, false, if◌then◌else◌, ◌==◌, ◌||◌, Option, some, none,
  List, [], ◌∷◌, ◌++◌,
}
use linux_driver_kb.Prelude.Int.{ℤ, pos, negsuc, is_neg}

pub data Click : Type 0 where
  left_click right_click wheel_click : Click

abbrev bit_click : ℕ → Click → List Click
bit_click bit c = if bit % 2 == 1 then c ∷ [] else []

-- The clicks of the first byte.
unfoldable pub clicks : ℕ → List Click
clicks byte =
    bit_click byte left_click
    ++ bit_click (byte / 2) right_click
    ++ bit_click (byte / 4) wheel_click

-- A transfer that ended: its status, the first byte of the buffer, and what usb_submit_urb would
-- answer now.
pub record Ended : Type 0 where
  pub status : ℤ
  pub byte : ℕ
  pub submit : ℤ

-- The three kinds of status that the callback tells apart.
pub data Kind : Type 0 where
  done shutting_down failed : Kind

-- ECONNRESET is 104, ENOENT 2 and ESHUTDOWN 108.
unfoldable pub kind : ℤ → Kind
kind (pos n) = if n == 0 then done else failed
kind (negsuc n) = if n == 103 || n == 1 || n == 107 then shutting_down else failed

-- Is the URB under way again? A failed submission is only reported.
abbrev resubmit : ℤ → Bool
resubmit ret = if is_neg ret then false else true

abbrev callback_as : Kind → Ended → List Click × Bool
callback_as done e = (clicks e.byte, resubmit e.submit)
callback_as shutting_down e = ([], false)
callback_as failed e = ([], resubmit e.submit)

-- The clicks that are reported, and whether the URB is under way again.
unfoldable pub fake_mouse_callback : Ended → List Click × Bool
fake_mouse_callback e = callback_as (kind e.status) e

-- One transfer after the other; `none` if one ends that is not under way.
pub record Polling : Type 0 where
  pub under_way : Bool
  pub clicked : List Click

unfoldable pub end_transfer : Polling → Ended → Option Polling
end_transfer s e =
    if s.under_way
    then some (record {
      under_way = (fake_mouse_callback e).1;
      clicked = s.clicked ++ (fake_mouse_callback e).0;
    })
    else none

unfoldable pub poll : Option Polling → List Ended → Option Polling
poll s [] = s
poll none (e ∷ es) = none
poll (some s) (e ∷ es) = poll (end_transfer s e) es

-- What can happen to a transfer, as the mouse and the USB core see it: the buttons that are down, with the
-- other bits of the byte, or an error of the bus; and the ways to stop it, ECONNRESET, ENOENT and ESHUTDOWN.
pub data Transfer : Type 0 where
  pressed : (left right wheel : Bool) (others : ℕ) → Transfer
  bus_error : ℕ → Transfer

pub data Stop : Type 0 where
  connection_reset unlinked shutdown : Stop

abbrev bit : Bool → ℕ
bit true = 1
bit false = 0

-- How each arrives at the callback; what usb_submit_urb answers is 0.
abbrev pub ended : Transfer → Ended
ended (pressed left right wheel others) = record {
  status = pos 0;
  byte = bit left + 2 * bit right + 4 * bit wheel + 8 * others;
  submit = pos 0;
}
ended (bus_error errno) = record { status = negsuc errno; byte = 0; submit = pos 0 }

-- A stopped transfer leaves some byte, and a submission would be accepted.
abbrev pub stopped_by : Stop → ℕ → Ended
stopped_by connection_reset byte = record { status = negsuc 103; byte = byte; submit = pos 0 }
stopped_by unlinked byte = record { status = negsuc 1; byte = byte; submit = pos 0 }
stopped_by shutdown byte = record { status = negsuc 107; byte = byte; submit = pos 0 }

-- No error is one of those that mean a stop.
abbrev pub AllErrors : List Transfer → Type 0
AllErrors [] = Unit
AllErrors (pressed left right wheel others ∷ ts) = AllErrors ts
AllErrors (bus_error errno ∷ ts) = ((errno ≢ 103) × (errno ≢ 1) × (errno ≢ 107)) × AllErrors ts

abbrev if_down : Bool → Click → List Click
if_down true c = c ∷ []
if_down false c = []

-- The clicks of the buttons that are down, the left one first.
abbrev pub seen_in : Transfer → List Click
seen_in (pressed left right wheel others) =
    if_down left left_click ++ if_down right right_click ++ if_down wheel wheel_click
seen_in (bus_error errno) = []

abbrev pub all_seen : List Transfer → List Click
all_seen [] = []
all_seen (t ∷ ts) = seen_in t ++ all_seen ts

abbrev moving : List Click → Polling
moving seen = record { under_way = true; clicked = seen }

abbrev pub stopped : List Click → Polling
stopped seen = record { under_way = false; clicked = seen }

-- The URB under way for the first time, after the probe.
abbrev pub submitted : Polling
submitted = moving []
