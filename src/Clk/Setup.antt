-- ===== src/Clk/Setup.antt =====
-- Loading of the fixed-rate clock, 32.CCF子系统/driver/virt-fixed-rate-clk.c, and of the clock's user,
-- virt-clk-consumer.c.
use linux_driver_kb.Prelude.{◌∷◌, List, refl}
use linux_driver_kb.Prelude.Int.{pos, negsuc}
use linux_driver_kb.Kernel.Ledger.{
  Kernel, Code, return, acquire, drop_res, Res, Res-discrete, clk, clk_ref, Runs, ProbeEnds, Gone,
  acquire_rule, drop_rule, probe_error_rule, probe_done_rule, Gone-rule,
}

pub virt_fixed_rate_clk_init : Kernel → Code
virt_fixed_rate_clk_init k = acquire k clk (λ n. return (negsuc n)) (return (pos 0))

pub virt_fixed_rate_clk_exit : Code
virt_fixed_rate_clk_exit = drop_res clk (return (pos 0))

pub virt_fixed_rate_clk_init-Runs :
    (k : Kernel) (held : List Res)
    → Runs (ProbeEnds held (clk ∷ held)) held (virt_fixed_rate_clk_init k)
unfolding virt_fixed_rate_clk_init Res-discrete
virt_fixed_rate_clk_init-Runs k held =
    acquire_rule k clk (λ n. probe_error_rule held n refl) (probe_done_rule held)

pub virt_fixed_rate_clk_exit-Runs :
    (held : List Res) → Runs (Gone held) (clk ∷ held) virt_fixed_rate_clk_exit
unfolding virt_fixed_rate_clk_exit Res-discrete
virt_fixed_rate_clk_exit-Runs held = drop_rule clk refl refl (Gone-rule held (pos 0) refl)

pub virt_clk_consumer_probe : Kernel → Code
virt_clk_consumer_probe k = acquire k clk_ref (λ n. return (negsuc n)) (return (pos 0))

pub virt_clk_consumer_remove : Code
virt_clk_consumer_remove = drop_res clk_ref (return (pos 0))

pub virt_clk_consumer_probe-Runs :
    (k : Kernel) (held : List Res)
    → Runs (ProbeEnds held (clk_ref ∷ held)) held (virt_clk_consumer_probe k)
unfolding virt_clk_consumer_probe Res-discrete
virt_clk_consumer_probe-Runs k held =
    acquire_rule k clk_ref (λ n. probe_error_rule held n refl) (probe_done_rule held)

pub virt_clk_consumer_remove-Runs :
    (held : List Res) → Runs (Gone held) (clk_ref ∷ held) virt_clk_consumer_remove
unfolding virt_clk_consumer_remove Res-discrete
virt_clk_consumer_remove-Runs held = drop_rule clk_ref refl refl (Gone-rule held (pos 0) refl)
