-- ===== src/Usb/GChar/Strings.antt =====
-- The strings of g_char.c, how g_char_bind enters them in the device descriptor, and what a host finds.
use linux_driver_kb.Prelude.{
  ℕ, ◌+◌, ◌≤◌, ◌<◌, ◌≡◌, ◌⊎◌, inl, inr, refl, ap, Option, none, some, List, [], ◌∷◌, ◌++◌, length,
  ◌==◌, zero, suc, if◌then◌else◌, true, arith,
}
use linux_driver_kb.Prelude.Int.{ℤ, pos, is_neg}
use Prim.Native.String.{String}

pub record UsbString : Type 0 where
  pub id : ℕ
  pub s : String

pub record DeviceDesc : Type 0 where
  pub bcd_usb : ℕ
  pub device_class : ℕ
  pub id_vendor : ℕ
  pub id_product : ℕ
  pub num_configurations : ℕ
  pub manufacturer : ℕ
  pub product : ℕ
  pub serial_number : ℕ

-- Members that are not set are 0; USB_CLASS_VENDOR_SPEC is 0xff.
abbrev pub device_desc : DeviceDesc
device_desc = record {
  bcd_usb = 0x0200;
  device_class = 0xff;
  id_vendor = 0xfff0;
  id_product = 0xfff0;
  num_configurations = 1;
  manufacturer = 0;
  product = 0;
  serial_number = 0;
}

abbrev pub strings_g_char : List UsbString
strings_g_char = record { id = 0; s = "gadget char data" } ∷ []

abbrev pub strings_dev : List UsbString
strings_dev =
    record { id = 0; s = "" }
    ∷ record { id = 0; s = "Gadget char" }
    ∷ record { id = 0; s = "0123456789.0123456789.0123456789" }
    ∷ []

abbrev id_at : List UsbString → ℕ → ℕ
id_at [] i = 0
id_at (x ∷ xs) zero = x.id
id_at (x ∷ xs) (suc i) = id_at xs i

-- The numbers that follow one after the other.
abbrev pub numbered : ℕ → List UsbString → List UsbString
numbered last [] = []
numbered last (x ∷ xs) = record x { id = last + 1 } ∷ numbered (last + 1) xs

-- The composite core: usb_string_ids_tab numbers a table from the last number it gave on, up to 254.
pub record Composite : Type 0 where
  pub usb_string_ids_tab : ℕ → List UsbString → ℤ × List UsbString
  pub ids_tab :
      (last : ℕ) (table : List UsbString)
      → let (ret, table') = usb_string_ids_tab last table in
        (is_neg ret ≡ true)
        ⊎ ((ret ≡ pos 0) × (table' ≡ numbered last table) × (last + length table ≤ 254))

-- What usb_gadget_get_string finds; the number 0 is asked for the languages.
abbrev pub string_of : List UsbString → ℕ → Option String
string_of [] id = none
string_of (x ∷ xs) id = let rest = string_of xs id in if x.id == id then some x.s else rest

-- The return value, the device descriptor and the table of the device; `added` is what usb_add_config
-- returns.
unfoldable pub g_char_bind : Composite → ℕ → ℤ → ℤ × DeviceDesc × List UsbString
g_char_bind core last added =
    let (ret, table) = core.usb_string_ids_tab last strings_dev in
    if is_neg ret then (ret, device_desc, table) else (
      added,
      record device_desc {
        manufacturer = id_at table 0;
        product = id_at table 1;
        serial_number = id_at table 2;
      },
      table,
    )

found_first :
    (last : ℕ) → string_of (numbered last strings_dev ++ strings_g_char) (last + 1) ≡ some ""
found_first last = ground arith

found_second :
    (last : ℕ)
    → string_of (numbered last strings_dev ++ strings_g_char) (last + 1 + 1) ≡ some "Gadget char"
found_second last = ground arith

found_third :
    (last : ℕ)
    → string_of (numbered last strings_dev ++ strings_g_char) (last + 1 + 1 + 1)
      ≡ some "0123456789.0123456789.0123456789"
found_third last = ground arith

-- A table whose one string has the number 0 is never found in.
never_found :
    (table : List UsbString) (id : ℕ)
    → 0 < id
    → string_of (table ++ strings_g_char) id ≡ string_of table id
never_found [] id h = ground (arith, h)
never_found (x ∷ xs) id h = ap (λ r. if x.id == id then some x.s else r) (never_found xs id h)

-- If the strings are numbered, the host finds each of the three strings under the number that the device
-- descriptor gives it, and never, under any number, the one of the function.
pub g_char_bind-finds :
    (core : Composite) (last id : ℕ) (added : ℤ)
    → let (ret, desc, table) = g_char_bind core last added in
      ((is_neg ret ≡ true) × (desc ≡ device_desc))
      ⊎ ((ret ≡ added)
          × (string_of (table ++ strings_g_char) desc.manufacturer ≡ some "")
          × (string_of (table ++ strings_g_char) desc.product ≡ some "Gadget char")
          × (string_of (table ++ strings_g_char) desc.serial_number
              ≡ some "0123456789.0123456789.0123456789")
          × (0 < id → string_of (table ++ strings_g_char) id ≡ string_of table id))
unfolding g_char_bind
g_char_bind-finds core last id added = elim (core.ids_tab last strings_dev) [
  | inl e ↦ inl (rw e (e, refl))
  | inr (ok, named, room) ↦ inr (
      rw (ok, named)
        (
          refl,
          found_first last,
          found_second last,
          found_third last,
          never_found (numbered last strings_dev) id,
        ))
]
