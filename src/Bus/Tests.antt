-- ===== src/Bus/Tests.antt =====
-- A driver core that keeps a list, and the two drivers of one compatible string.
use linux_driver_kb.Prelude.{
  inr, inl, ◌≡◌, ◌≤◌, refl, not, List, [], ◌∷◌, length, if◌then◌else◌, ◌⊎◌, true, false,
}
use linux_driver_kb.Prelude.Int.{ℤ, pos, is_neg}
use linux_driver_kb.Prelude.Search.{filter}
use linux_driver_kb.Kernel.Errno.{ebusy}
use linux_driver_kb.Bus.{Device, platform_bus, i2c_bus, DeviceDriver, fits, same_slot, taken, Core}
use linux_driver_kb.Bus.Fits.{IsPlain}
use linux_driver_kb.Bus.Table.{drivers, misc_fasync_io_driver, print_device}
use linux_driver_kb.Bus.Loads.{
  Event, load, unload, run, step, load_module, unload_module, run-one_match,
}

abbrev register : List DeviceDriver → DeviceDriver → ℤ × List DeviceDriver
register s d = if taken d s then (ebusy, s) else (pos 0, d ∷ s)

register_added :
    (s : List DeviceDriver) (d : DeviceDriver)
    → taken d s ≡ false
    → let (ret, s') = register s d in
      ((ret ≡ pos 0) × (s' ≡ d ∷ s)) ⊎ ((is_neg ret ≡ true) × (s' ≡ s))
register_added s d e = inl (rw e refl, rw e refl)

abbrev core : Core
core = record {
  Registry = List DeviceDriver;
  drivers = λ s. s;
  matches = fits;
  driver_register = register;
  driver_unregister = λ s d. filter (λ e. not (same_slot d e)) s;
  matches_eq = λ x d. refl;
  register_taken = λ s d e. rw e refl;
  register_free = register_added;
  unregister_eq = λ s d. refl;
}

abbrev both : List Event
both = load 8 ∷ load 9 ∷ unload 9 ∷ unload 8 ∷ load 9 ∷ []

-- The second driver is refused until the first is gone.
second_refused :
    let w = run core (record { kernel = []; loaded = [] }) both in
    (w.kernel ≡ misc_fasync_io_driver ∷ []) × (w.loaded ≡ 9 ∷ [])
unfolding run step load_module unload_module drivers
second_refused = (refl, refl)

-- A node with one compatible string; its device has no name that a driver has.
abbrev fasync_node : Device
fasync_node = record { bus = platform_bus; compatible = "fasync-io" ∷ []; name = "" }

fasync_node-IsPlain : IsPlain fasync_node
unfolding drivers
fasync_node-IsPlain = inr ("fasync-io", refl, refl)

-- An I2C node, whose client has the model for its name; a client without a node; a platform device.
others-IsPlain :
    IsPlain (record { bus = i2c_bus; compatible = "xm,ssd1306_fb" ∷ []; name = "ssd1306_fb" })
    × IsPlain (record { bus = i2c_bus; compatible = []; name = "tmp75" })
    × IsPlain print_device
unfolding drivers
others-IsPlain = (inr ("xm,ssd1306_fb", refl, refl), inl refl, inl refl)

-- A node with the strings of two drivers is matched by both.
abbrev double_node : Device
double_node = record { bus = platform_bus; compatible = "block-io" ∷ "fasync-io" ∷ []; name = "" }

two_match :
    let w = run core (record { kernel = []; loaded = [] }) (load 6 ∷ load 8 ∷ []) in
    length (filter (core.matches double_node) (core.drivers w.kernel)) ≡ 2
unfolding run step load_module drivers fits
two_match = refl

run-one_match_example :
    let w = run core (record { kernel = []; loaded = [] }) both in
    length (filter (core.matches fasync_node) (core.drivers w.kernel)) ≤ 1
run-one_match_example = run-one_match core both [] fasync_node fasync_node-IsPlain refl
