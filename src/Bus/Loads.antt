-- ===== src/Bus/Loads.antt =====
-- Loading and unloading the modules of the drivers, in any order: module_platform_driver and
-- module_i2c_driver register the driver when the module is loaded and unregister it when it is unloaded.
use linux_driver_kb.Prelude.{
  if◌then◌else◌, refl, ℕ, ◌≤◌, ◌≡◌, sym, ◌∙◌, inl, inr, Bool, true, false, not, ◌==◌, some, none,
  List, [], ◌∷◌, length, get_elem?, Memᴰ, Bool-cases, Option-cases, arith,
}
use linux_driver_kb.Prelude.Int.{is_neg}
use linux_driver_kb.Prelude.Search.{any, filter, any-filter, any_head, any_tail, get_elem-Mem}
use linux_driver_kb.Bus.Fits.{IsPlain, fits-same_slot}
use linux_driver_kb.Bus.{DeviceDriver, Device, fits, same_slot, taken, Core}
use linux_driver_kb.Bus.Table.{drivers}

-- The driver that stands at a place of the table.
pub data Event : Type 0 where
  load unload : ℕ → Event

-- A module is loaded if its registration succeeded.
pub record World (core : Core) : Type 0 where
  pub kernel : core.Registry
  pub loaded : List ℕ

module _ (core : Core) where
  unfoldable pub load_module : World core → ℕ → DeviceDriver → World core
  load_module w i d =
      let (ret, kernel) = core.driver_register w.kernel d in
      record { kernel = kernel; loaded = if is_neg ret then w.loaded else i ∷ w.loaded }

  -- A module that is not loaded cannot be unloaded.
  unfoldable pub unload_module : World core → ℕ → DeviceDriver → World core
  unload_module w i d =
      if any (λ j. i == j) w.loaded
      then record {
        kernel = core.driver_unregister w.kernel d;
        loaded = filter (λ j. not (i == j)) w.loaded;
      }
      else w

  unfoldable pub step : World core → Event → World core
  step w (load i) = elim (get_elem? drivers i) [ none ↦ w | some d ↦ load_module w i d ]
  step w (unload i) = elim (get_elem? drivers i) [ none ↦ w | some d ↦ unload_module w i d ]

  unfoldable pub run : World core → List Event → World core
  run w [] = w
  run w (e ∷ es) = run (step w e) es

-- The registered drivers are of the table, and no two have a name on a bus in common.
abbrev IsApart : List DeviceDriver → Type 0
IsApart [] = Unit
IsApart (d ∷ ds) = Memᴰ d drivers × (taken d ds ≡ false) × IsApart ds

filter-IsApart :
    (p : DeviceDriver → Bool) (ds : List DeviceDriver) → IsApart ds → IsApart (filter p ds)
filter-IsApart p [] a = a
filter-IsApart p (d ∷ ds) (m, free, a) = elim (Bool-cases (p d)) [
  | inl e ↦ rw e (m, any-filter p (same_slot d) ds free, filter-IsApart p ds a)
  | inr e ↦ rw e (filter-IsApart p ds a)
]

module _ (x : Device) (plain : IsPlain x) (p : DeviceDriver → Bool)
    (p_eq : (d : DeviceDriver) → p d ≡ fits x d) where
  -- If a device fits a driver, no driver that is apart from it does.
  others_filtered :
      (d : DeviceDriver) (ds : List DeviceDriver) → p d ≡ true → IsApart (d ∷ ds) → filter p ds ≡ []
  others_filtered d [] h a = refl
  others_filtered d (e ∷ ds) h (m, free, (me, free', a)) =
      let rest = others_filtered d ds h (m, any_tail (same_slot d) e ds free, a) in
      let apart = any_head (same_slot d) e ds free in
      elim (Bool-cases (p e)) [
        | inl k ↦
            let same = fits-same_slot x d e plain m me (sym (p_eq d) ∙ h) (sym (p_eq e) ∙ k) in
            absurd (ground (arith, same, apart))
        | inr k ↦ rw k rest
      ]

  one_fits : (ds : List DeviceDriver) → IsApart ds → length (filter p ds) ≤ 1
  one_fits [] a = omega arith
  one_fits (d ∷ ds) (m, free, a) = elim (Bool-cases (p d)) [
    | inl e ↦ rw (e, others_filtered d ds e (m, free, a)) (omega arith)
    | inr e ↦ rw e (one_fits ds a)
  ]

module _ (core : Core) where
  load-IsApart :
      (w : World core) (i : ℕ) (d : DeviceDriver)
      → Memᴰ d drivers
      → IsApart (core.drivers w.kernel)
      → IsApart (core.drivers (load_module core w i d).kernel)
  unfolding load_module
  load-IsApart w i d m a = elim (Bool-cases (taken d (core.drivers w.kernel))) [
    | inl e ↦ rw (core.register_taken w.kernel d e) a
    | inr e ↦ elim (core.register_free w.kernel d e) [
      | inl (ok, added) ↦ rw added (m, e, a)
      | inr (err, same) ↦ rw same a
    ]
  ]

  unload-IsApart :
      (w : World core) (i : ℕ) (d : DeviceDriver)
      → IsApart (core.drivers w.kernel)
      → IsApart (core.drivers (unload_module core w i d).kernel)
  unfolding unload_module
  unload-IsApart w i d a = elim (Bool-cases (any (λ j. i == j) w.loaded)) [
    | inl e ↦ rw (e, core.unregister_eq w.kernel d) (filter-IsApart _ _ a)
    | inr e ↦ rw e a
  ]

  step-IsApart :
      (w : World core) (e : Event)
      → IsApart (core.drivers w.kernel)
      → IsApart (core.drivers (step core w e).kernel)
  unfolding step drivers
  step-IsApart w (load i) a = elim (Option-cases (get_elem? drivers i)) [
    | inl e ↦ rw e a
    | inr (d, e) ↦ rw e (load-IsApart w i d (get_elem-Mem drivers i d e) a)
  ]
  step-IsApart w (unload i) a = elim (Option-cases (get_elem? drivers i)) [
    | inl e ↦ rw e a
    | inr (d, e) ↦ rw e (unload-IsApart w i d a)
  ]

  run-IsApart :
      (es : List Event) (w : World core)
      → IsApart (core.drivers w.kernel)
      → IsApart (core.drivers (run core w es).kernel)
  unfolding run
  run-IsApart [] w a = a
  run-IsApart (e ∷ es) w a = run-IsApart es (step core w e) (step-IsApart w e a)

  -- From no driver on, whatever modules are loaded and unloaded, in any order and with loads that fail: a
  -- device that goes by one string, its name or its one compatible string, never has two registered drivers
  -- that match it, although some drivers of the repository have tables in common.
  pub run-one_match :
      (es : List Event) (s : core.Registry) (x : Device)
      → IsPlain x
      → core.drivers s ≡ []
      → let w = run core (record { kernel = s; loaded = [] }) es in
        length (filter (core.matches x) (core.drivers w.kernel)) ≤ 1
  run-one_match es s x plain none_yet =
      one_fits x plain (core.matches x) (core.matches_eq x)
        (core.drivers (run core (record { kernel = s; loaded = [] }) es).kernel)
        (run-IsApart es (record { kernel = s; loaded = [] }) (rw none_yet tt))
