-- ===== src/Uio/Irq.antt =====
-- Switching the interrupt on and off.
use linux_driver_kb.Prelude.{
  Bool, true, false, Option, some, List, [], ◌∷◌, ◌≡◌, ◌>>=◌, refl, if◌then◌else◌,
}
use linux_driver_kb.Uio.{Line, fresh, virt_uio_irqcontrol}

unfoldable pub run : Option Line → List Bool → Option Line
run s [] = s
run s (on ∷ requests) = run (s >>= λ line. virt_uio_irqcontrol line on) requests

-- The last request, or what was before.
abbrev pub last_or : Bool → List Bool → Bool
last_or was [] = was
last_or was (on ∷ requests) = last_or on requests

-- The line that is on or off, with the kernel's count in step.
abbrev pub switched : Bool → Line
switched on = record { flag = on; depth = if on then 0 else 1 }

irqcontrol_switches : (was on : Bool) → virt_uio_irqcontrol (switched was) on ≡ some (switched on)
unfolding virt_uio_irqcontrol
irqcontrol_switches true true = refl
irqcontrol_switches true false = refl
irqcontrol_switches false true = refl
irqcontrol_switches false false = refl

run_switched :
    (was : Bool) (requests : List Bool)
    → run (some (switched was)) requests ≡ some (switched (last_or was requests))
unfolding run
run_switched was [] = refl
run_switched was (on ∷ requests) = rw (irqcontrol_switches was on) (run_switched on requests)

-- After the probe and any requests to switch the interrupt, repeated ones included, the kernel has never
-- been asked to enable an enabled interrupt, and the interrupt is disabled once or not at all, as the
-- last request said.
pub run_last :
    (requests : List Bool) → run (some fresh) requests ≡ some (switched (last_or true requests))
run_last requests = run_switched true requests
