-- ===== src/Usb/GChar/Descriptors.antt =====
-- The descriptors of g_char.c: the tables of the function at full and at high speed, and what
-- g_char_f_bind fills in.
use linux_driver_kb.Prelude.{
  ℕ, ◌+◌, ◌≡◌, refl, Bool, true, false, not, leb, if◌then◌else◌, List, [], ◌∷◌, Option, none, some,
}
use linux_driver_kb.Prelude.Int.{ℤ, pos, negsuc}
use linux_driver_kb.Kernel.Errno.{enodev}

-- A usb_endpoint_descriptor: bEndpointAddress, bmAttributes and wMaxPacketSize. What is not set is 0.
pub record Endpoint : Type 0 where
  pub address : ℕ
  pub attributes : ℕ
  pub max_packet : ℕ

pub record Descriptors : Type 0 where
  pub interface_number : ℕ
  pub fs_in : Endpoint
  pub fs_out : Endpoint
  pub hs_in : Endpoint
  pub hs_out : Endpoint

-- USB_DIR_IN and USB_ENDPOINT_XFER_BULK.
abbrev pub usb_dir_in : ℕ
usb_dir_in = 128

abbrev pub xfer_bulk : ℕ
xfer_bulk = 2

abbrev pub fs_in_desc : Endpoint
fs_in_desc = record { address = usb_dir_in; attributes = xfer_bulk; max_packet = 0 }

abbrev pub fs_out_desc : Endpoint
fs_out_desc = record { address = 0; attributes = xfer_bulk; max_packet = 0 }

abbrev pub hs_in_desc : Endpoint
hs_in_desc = record { address = 0; attributes = xfer_bulk; max_packet = 512 }

abbrev pub hs_out_desc : Endpoint
hs_out_desc = record { address = 0; attributes = xfer_bulk; max_packet = 512 }

abbrev pub descriptors : Descriptors
descriptors = record {
  interface_number = 0;
  fs_in = fs_in_desc;
  fs_out = fs_out_desc;
  hs_in = hs_in_desc;
  hs_out = hs_out_desc;
}

-- An entry of a table: the interface with its number and bNumEndpoints, or an endpoint.
pub data Header : Type 0 where
  interface : ℕ → ℕ → Header
  endpoint : Endpoint → Header

abbrev pub g_char_intf : Descriptors → Header
g_char_intf d = interface d.interface_number 2

abbrev pub fs_g_char_descs : Descriptors → List Header
fs_g_char_descs d = g_char_intf d ∷ endpoint d.fs_out ∷ endpoint d.fs_in ∷ []

abbrev pub hs_g_char_descs : Descriptors → List Header
hs_g_char_descs d = g_char_intf d ∷ endpoint d.hs_in ∷ endpoint d.hs_out ∷ []

abbrev pub is_in : Endpoint → Bool
is_in e = leb usb_dir_in e.address

-- The function that finds an endpoint of the controller: the address that it fills in has the direction
-- that was asked for.
pub record Controller : Type 0 where
  pub usb_ep_autoconfig : Endpoint → Option ℕ
  pub keeps_direction :
      (e : Endpoint) (a : ℕ) → usb_ep_autoconfig e ≡ some a → leb usb_dir_in a ≡ is_in e

module _ (controller : Controller) where
  abbrev bind_hs : Bool → Descriptors → Descriptors
  bind_hs dualspeed d =
      if dualspeed
      then record d {
        hs_in = record (d.hs_in) { address = d.fs_in.address };
        hs_out = record (d.hs_out) { address = d.fs_out.address };
      }
      else d

  abbrev bind_out : Bool → Descriptors → Option ℕ → ℤ × Descriptors
  bind_out dualspeed d none = (enodev, d)
  bind_out dualspeed d (some a) =
      (pos 0, bind_hs dualspeed (record d { fs_out = record (d.fs_out) { address = a } }))

  abbrev bind_in : Bool → Descriptors → Option ℕ → ℤ × Descriptors
  bind_in dualspeed d none = (enodev, d)
  bind_in dualspeed d (some a) =
      bind_out dualspeed (record d { fs_in = record (d.fs_in) { address = a } })
        (controller.usb_ep_autoconfig d.fs_out)

  -- g_char_f_bind, as far as it is about the descriptors; `id` is the answer of usb_interface_id.
  unfoldable pub bind_descriptors : ℤ → Bool → Descriptors → ℤ × Descriptors
  bind_descriptors (pos id) dualspeed d =
      bind_in dualspeed (record d { interface_number = id }) (controller.usb_ep_autoconfig d.fs_in)
  bind_descriptors (negsuc n) dualspeed d = (negsuc n, d)

-- How many endpoints a table announces, and how many it has of each direction.
abbrev announced : List Header → ℕ
announced [] = 0
announced (interface _ n ∷ t) = n + announced t
announced (endpoint _ ∷ t) = announced t

abbrev having : (Endpoint → Bool) → List Header → ℕ
having test [] = 0
having test (interface _ _ ∷ t) = having test t
having test (endpoint e ∷ t) = (if test e then 1 else 0) + having test t

-- A table announces what it has: an endpoint to the host and one from it.
abbrev pub IsPair : List Header → Type 0
IsPair t = (announced t ≡ 2) × (having is_in t ≡ 1) × (having (λ e. not (is_in e)) t ≡ 1)

-- What binding makes of the descriptors, where it succeeds with these two addresses.
abbrev complete : ℕ → ℕ → ℕ → Descriptors
complete id a b = record {
  interface_number = id;
  fs_in = record fs_in_desc { address = a };
  fs_out = record fs_out_desc { address = b };
  hs_in = record hs_in_desc { address = a };
  hs_out = record hs_out_desc { address = b };
}

abbrev FilledIn : ℕ → Descriptors → Type 0
FilledIn id d =
    IsPair (fs_g_char_descs d)
    × IsPair (hs_g_char_descs d)
    × (d.hs_in.address ≡ d.fs_in.address)
    × (d.hs_out.address ≡ d.fs_out.address)
    × (d.interface_number ≡ id)

complete-FilledIn :
    (id a b : ℕ)
    → leb usb_dir_in a ≡ true
    → leb usb_dir_in b ≡ false
    → FilledIn id (complete id a b)
complete-FilledIn id a b ha hb = (
  (refl, rw (ha, hb) refl, rw (ha, hb) refl),
  (refl, rw (ha, hb) refl, rw (ha, hb) refl),
  refl,
  refl,
  refl,
)

module _ (controller : Controller) where
  bind_out-FilledIn :
      (id a : ℕ) (found : Option ℕ)
      → leb usb_dir_in a ≡ true
      → controller.usb_ep_autoconfig fs_out_desc ≡ found
      → let (ret, d) =
          bind_out controller true
            (record descriptors {
              interface_number = id;
              fs_in = record fs_in_desc { address = a };
            })
            found in
        ret ≡ pos 0 → FilledIn id d
  bind_out-FilledIn id a none ha e done = absurd (cc done)
  bind_out-FilledIn id a (some b) ha e done =
      complete-FilledIn id a b ha (controller.keeps_direction fs_out_desc b e)

  bind_in-FilledIn :
      (id : ℕ) (found : Option ℕ)
      → controller.usb_ep_autoconfig fs_in_desc ≡ found
      → let (ret, d) =
          bind_in controller true (record descriptors { interface_number = id }) found in
        ret ≡ pos 0 → FilledIn id d
  bind_in-FilledIn id none e done = absurd (cc done)
  bind_in-FilledIn id (some a) e done =
      bind_out-FilledIn id a (controller.usb_ep_autoconfig fs_out_desc)
        (controller.keeps_direction fs_in_desc a e) refl done

  -- When binding succeeds at a gadget of both speeds, the table of either speed announces two endpoints
  -- and has one of each direction, and the two tables name the same endpoints, under the interface's number.
  pub bind_descriptors-IsPair :
      (id : ℕ)
      → (bind_descriptors controller (pos id) true descriptors).0 ≡ pos 0
      → let d = (bind_descriptors controller (pos id) true descriptors).1 in
        IsPair (fs_g_char_descs d)
        × IsPair (hs_g_char_descs d)
        × (d.hs_in.address ≡ d.fs_in.address)
        × (d.hs_out.address ≡ d.fs_out.address)
        × (d.interface_number ≡ id)
  unfolding bind_descriptors
  bind_descriptors-IsPair id = bind_in-FilledIn id (controller.usb_ep_autoconfig fs_in_desc) refl
