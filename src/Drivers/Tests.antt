-- ===== src/Drivers/Tests.antt =====
-- Loading, unloading and failing at concrete drivers.
use linux_driver_kb.Prelude.{List, [], ◌∷◌, ◌≡◌, refl, some}
use linux_driver_kb.Prelude.Int.{negsuc}
use linux_driver_kb.Kernel.Ledger.{Kernel, refuse, holds, watchdog, miscdev, usb_function}
use linux_driver_kb.Drivers.{soft_wdt, fake_mouse, c_drv}
use linux_driver_kb.Drivers.Plugging.{Event, plug, unplug, Accounts, run, run-Accounts}
use linux_driver_kb.Drivers.Leaks.{g_char_misc, loading, load_leaves}

-- The third watchdog is refused.
abbrev two_dogs : Kernel
two_dogs = refuse (watchdog 2) 11

-- The watchdogs cannot be loaded; the mouse goes before the character device that was loaded after it.
abbrev some_events : List Event
some_events = plug fake_mouse ∷ plug (soft_wdt 3) ∷ plug c_drv ∷ unplug 1 ∷ []

run-Accounts_example : Accounts [] (run two_dogs (record { loaded = []; log = [] }) some_events)
run-Accounts_example = run-Accounts two_dogs [] [] some_events refl

load_leaves_example :
    let end = loading g_char_misc (refuse miscdev 15) [] in
    (end.0 ≡ negsuc 15) × (holds end.1 ≡ some (usb_function ∷ []))
load_leaves_example = load_leaves g_char_misc 15 [] refl
