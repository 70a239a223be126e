-- ===== src/Timers.antt =====
-- Loading and unloading of 02.定时器/driver/timer.c and hrtimer.c. Neither start can fail.
pub mod Drift
use linux_driver_kb.Prelude.{◌∷◌, List, refl}
use linux_driver_kb.Prelude.Int.{pos}
use linux_driver_kb.Kernel.Ledger.{
  Kernel, Code, return, grant, drop_res, Res, Res-discrete, timer, Runs, ProbeEnds, Gone,
  grant_rule, drop_rule, probe_done_rule, Gone-rule,
}

pub timer_drv_init : Kernel → Code
timer_drv_init k = grant timer (return (pos 0))

pub timer_drv_exit : Code
timer_drv_exit = drop_res timer (return (pos 0))

pub timer_drv_init-Runs :
    (k : Kernel) (held : List Res) → Runs (ProbeEnds held (timer ∷ held)) held (timer_drv_init k)
unfolding timer_drv_init Res-discrete
timer_drv_init-Runs k held = grant_rule timer (probe_done_rule held)

pub timer_drv_exit-Runs : (held : List Res) → Runs (Gone held) (timer ∷ held) timer_drv_exit
unfolding timer_drv_exit Res-discrete
timer_drv_exit-Runs held = drop_rule timer refl refl (Gone-rule held (pos 0) refl)

pub hrtimer_drv_init : Kernel → Code
hrtimer_drv_init k = grant timer (return (pos 0))

pub hrtimer_drv_exit : Code
hrtimer_drv_exit = drop_res timer (return (pos 0))

pub hrtimer_drv_init-Runs :
    (k : Kernel) (held : List Res) → Runs (ProbeEnds held (timer ∷ held)) held (hrtimer_drv_init k)
unfolding hrtimer_drv_init Res-discrete
hrtimer_drv_init-Runs k held = grant_rule timer (probe_done_rule held)

pub hrtimer_drv_exit-Runs : (held : List Res) → Runs (Gone held) (timer ∷ held) hrtimer_drv_exit
unfolding hrtimer_drv_exit Res-discrete
hrtimer_drv_exit-Runs held = drop_rule timer refl refl (Gone-rule held (pos 0) refl)
