-- ===== src/Watchdog/Tests.antt =====
-- The theorems about the watchdogs at concrete states.
use linux_driver_kb.Prelude.{◌+◌, ◌≡◌, refl, List, [], ◌∷◌, none, some, false, arith}
use linux_driver_kb.Watchdog.{
  Softdog, Dogs, Event, ping, stop, fires, warns, run, step, on_dog, softdog_ping, softdog_stop,
  softdog_fire, softdog_pretimeout,
}
use linux_driver_kb.Watchdog.Refs.{run_refs, armed}
use linux_driver_kb.Watchdog.Timing.{softdog_ping-due}

abbrev idle : Softdog
idle = record { timeout = 10; pretimeout = 3; fire = none; pre = none }

abbrev loaded : Dogs
loaded = record { dogs = idle ∷ idle ∷ []; refs = 1; restarted = false; notified = 0 }

abbrev history : List Event
history = ping 0 50 ∷ ping 1 60 ∷ ping 0 90 ∷ warns 1 ∷ stop 1 ∷ fires 1 ∷ []

run_refs_example : (run 100 loaded history).refs ≡ 1 + armed (run 100 loaded history).dogs
run_refs_example = run_refs 100 1 loaded history refl

refs_after : (run 100 loaded history).refs ≡ 2
unfolding run step on_dog softdog_ping softdog_stop softdog_fire softdog_pretimeout
refs_after = refl

softdog_ping-due_example :
    ((softdog_ping 100 7 idle).0.fire ≡ some 1007) × ((softdog_ping 100 7 idle).0.pre ≡ some 707)
softdog_ping-due_example = softdog_ping-due 100 7 idle (omega arith) (omega arith) (omega arith)
