-- ===== src/Input/Tests.antt =====
-- The button at a concrete press.
use linux_driver_kb.Prelude.{◌≡◌, refl, ◌++◌, none, List, [], ◌∷◌, map, arith}
use linux_driver_kb.Input.Debounce.{Button, Event, edge, tick, run, press-reported}

abbrev idle : Button
idle = record { code = 28; jiffies = 1000; expires = none; reports = [] }

-- Two more edges before the line rests, at 4 jiffies for 50 ms.
abbrev bouncing : List Event
bouncing = tick 1 ∷ edge ∷ tick 0 ∷ tick 1 ∷ edge ∷ tick 0 ∷ []

press-reported_example :
    let s' =
      run 4 idle ((edge ∷ bouncing) ++ (edge ∷ (map tick (0 ∷ 0 ∷ 0 ∷ []) ++ tick 1 ∷ []))) in
    (s'.reports ≡ record { code = 28; value = 1 } ∷ []) × (s'.expires ≡ none)
press-reported_example =
    press-reported 4 bouncing (0 ∷ 0 ∷ 0 ∷ []) 1 idle refl
      (omega arith, (omega arith, (omega arith, (omega arith, record {}))))
