-- ===== src/Pinctrl/Consumer.antt =====
-- The consumer of 33.pinctrl/driver/pinctrl_consumer.c.
use linux_driver_kb.Prelude.{◌∷◌, List, refl, Option, none, some, Bool, true, false}
use linux_driver_kb.Prelude.Int.{pos, negsuc}
use linux_driver_kb.Kernel.Errno.{einval}
use linux_driver_kb.Kernel.Ledger.{
  Kernel, Code, return, acquire, Res, Res-discrete, devm_gpio, Runs, ProbeEnds, Gone, acquire_rule,
  probe_error_rule, probe_done_rule, Gone-rule,
}

-- What of_match_device finds: no entry, or one whose data is set or not.
pub pinctrl_consumer_probe : Option Bool → Kernel → Code
pinctrl_consumer_probe none k = return einval
pinctrl_consumer_probe (some true) k = acquire k devm_gpio (λ n. return (negsuc n)) (return (pos 0))
pinctrl_consumer_probe (some false) k = return (pos 0)

pub pinctrl_consumer_remove : Code
pinctrl_consumer_remove = return (pos 0)

-- With a GPIO or without.
abbrev pub consumes : Bool → List Res → List Res
consumes true held = devm_gpio ∷ held
consumes false held = held

pub pinctrl_consumer_probe-Runs :
    (gpio : Bool) (k : Kernel) (held : List Res)
    → Runs (ProbeEnds held (consumes gpio held)) held (pinctrl_consumer_probe (some gpio) k)
unfolding pinctrl_consumer_probe Res-discrete
pinctrl_consumer_probe-Runs true k held =
    acquire_rule k devm_gpio (λ n. probe_error_rule held n refl) (probe_done_rule held)
pinctrl_consumer_probe-Runs false k held = probe_done_rule held

pub pinctrl_consumer_remove-Runs :
    (gpio : Bool) (held : List Res) → Runs (Gone held) (consumes gpio held) pinctrl_consumer_remove
unfolding pinctrl_consumer_remove Res-discrete
pinctrl_consumer_remove-Runs true held = Gone-rule held (pos 0) refl
pinctrl_consumer_remove-Runs false held = Gone-rule held (pos 0) refl
