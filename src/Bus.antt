-- ===== src/Bus.antt =====
-- How the kernel finds the driver of a device: what a platform_driver or i2c_driver of the repository says of
-- itself, and the driver core, which is a parameter.
pub mod Fits
pub mod Table
pub mod Loads
mod Tests
use linux_driver_kb.Prelude.{
  if◌then◌else◌, ℕ, ◌≡◌, ◌⊎◌, Bool, true, false, not, ◌&&◌, ◌||◌, List, [], ◌∷◌,
}
use linux_driver_kb.Prelude.Int.{ℤ, pos, is_neg}
use linux_driver_kb.Prelude.Search.{any, filter, has, meets}
use linux_driver_kb.Kernel.Errno.{ebusy}
use Prim.Native.String.{String}
use text.Mathlib.Text.{◌==◌}

pub data BusType : Type 0 where
  platform_bus i2c_bus : BusType

abbrev pub same_bus : BusType → BusType → Bool
same_bus platform_bus platform_bus = true
same_bus platform_bus i2c_bus = false
same_bus i2c_bus platform_bus = false
same_bus i2c_bus i2c_bus = true

-- A platform_driver has no id_table here.
pub record DeviceDriver : Type 0 where
  pub bus : BusType
  pub name : String
  pub of_match_table : List String
  pub id_table : List String

-- A device: its bus, the compatible strings of its device-tree node, if it has one, and its name: that of the
-- platform_device or i2c_client.
pub record Device : Type 0 where
  pub bus : BusType
  pub compatible : List String
  pub name : String

-- A platform_device without a node.
abbrev pub platform_device : String → Device
platform_device name = record { bus = platform_bus; compatible = []; name = name }

-- By its name a platform device is compared with the driver's, an I2C device with the id_table.
abbrev pub by_name : String → DeviceDriver → Bool
by_name name d = if same_bus platform_bus d.bus then name == d.name else has name d.id_table

-- The documented rule by which the two buses match: one of the compatible strings, or the name.
unfoldable pub fits : Device → DeviceDriver → Bool
fits x d = same_bus x.bus d.bus && (meets x.compatible d.of_match_table || by_name x.name d)

-- Two drivers that cannot be registered at once.
abbrev pub same_slot : DeviceDriver → DeviceDriver → Bool
same_slot d e = same_bus d.bus e.bus && d.name == e.name

abbrev pub taken : DeviceDriver → List DeviceDriver → Bool
taken d ds = any (same_slot d) ds

-- Two drivers that some device could fit.
abbrev pub overlap : DeviceDriver → DeviceDriver → Bool
overlap d e =
    same_bus d.bus e.bus
    && (meets d.of_match_table e.of_match_table || d.name == e.name || meets d.id_table e.id_table)

-- The driver core. A name that a driver of the bus has is refused; any other registration adds the driver or
-- fails; unregistering takes the driver off.
pub record Core : Type 1 where
  pub Registry : Type 0
  pub drivers : Registry → List DeviceDriver
  pub matches : Device → DeviceDriver → Bool
  pub driver_register : Registry → DeviceDriver → ℤ × Registry
  pub driver_unregister : Registry → DeviceDriver → Registry
  pub matches_eq : (x : Device) (d : DeviceDriver) → matches x d ≡ fits x d
  pub register_taken :
      (s : Registry) (d : DeviceDriver)
      → taken d (drivers s) ≡ true
      → driver_register s d ≡ (ebusy, s)
  pub register_free :
      (s : Registry) (d : DeviceDriver)
      → taken d (drivers s) ≡ false
      → let (ret, s') = driver_register s d in
        ((ret ≡ pos 0) × (drivers s' ≡ d ∷ drivers s))
        ⊎ ((is_neg ret ≡ true) × (drivers s' ≡ drivers s))
  pub unregister_eq :
      (s : Registry) (d : DeviceDriver)
      → drivers (driver_unregister s d) ≡ filter (λ e. not (same_slot d e)) (drivers s)
