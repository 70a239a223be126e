-- ===== src/Platform.antt =====
-- The modules that register a platform device and its driver themselves and look at neither result:
-- 30.mfd设备/driver/virt_mfd_core.c, 31.mtd/driver/virt_mtd.c, 32.CCF子系统/driver/virt-gate-clk.c and
-- virt-clk-consumer.c without USE_DTS, and 34.debug/driver/print.c.
mod Tests
use linux_driver_kb.Prelude.{
  ◌≡◌, ◌∙◌, refl, Bool, true, false, ◌&&◌, if◌then◌else◌, List, ◌∷◌, Option, none, some,
}
use linux_driver_kb.Prelude.Int.{pos}
use linux_driver_kb.Kernel.Ledger.{
  Kernel, Code, Log, Outcome, ok, fail, request, holds, remove, return, settle, attempt, drop_res,
  then_undo, undo_after, platform_device, platform_driver, Res, Res-discrete,
}
use linux_driver_kb.Clk.Gate.{virt_gate_clk_init, virt_gate_clk_exit}

unfoldable pub virt_mfd_core_init : Kernel → Code
virt_mfd_core_init k = attempt k platform_device (attempt k platform_driver (return (pos 0)))

unfoldable pub virt_mfd_core_exit : Code
virt_mfd_core_exit = drop_res platform_driver (drop_res platform_device (return (pos 0)))

unfoldable pub virt_mtd_init : Kernel → Code
virt_mtd_init k = attempt k platform_device (attempt k platform_driver (return (pos 0)))

unfoldable pub virt_mtd_exit : Code
virt_mtd_exit = drop_res platform_driver (drop_res platform_device (return (pos 0)))

unfoldable pub virt_clk_consumer_init : Kernel → Code
virt_clk_consumer_init k = attempt k platform_device (attempt k platform_driver (return (pos 0)))

unfoldable pub virt_clk_consumer_exit : Code
virt_clk_consumer_exit = drop_res platform_driver (drop_res platform_device (return (pos 0)))

unfoldable pub print_init : Kernel → Code
print_init k = attempt k platform_device (attempt k platform_driver (return (pos 0)))

unfoldable pub print_exit : Code
print_exit = drop_res platform_driver (drop_res platform_device (return (pos 0)))

pub data Module : Type 0 where
  virt_mfd_core virt_mtd virt_gate_clk virt_clk_consumer print : Module

abbrev pub init : Module → Kernel → Code
init virt_mfd_core = virt_mfd_core_init
init virt_mtd = virt_mtd_init
init virt_gate_clk = virt_gate_clk_init
init virt_clk_consumer = virt_clk_consumer_init
init print = print_init

abbrev pub exit : Module → Code
exit virt_mfd_core = virt_mfd_core_exit
exit virt_mtd = virt_mtd_exit
exit virt_gate_clk = virt_gate_clk_exit
exit virt_clk_consumer = virt_clk_consumer_exit
exit print = print_exit

abbrev granted : Outcome → Bool
granted ok = true
granted (fail n) = false

-- Whether the kernel grants the two registrations after a log.
abbrev pub both_granted : Kernel → Log → Bool
both_granted k l =
    let device = k l platform_device in
    granted device && granted (k (request platform_device device ∷ l) platform_driver)

settled :
    (r : Res) (o : Outcome) (next : Code) (l : Log)
    → settle r o (λ _. next) next l ≡ next (request r o ∷ l)
unfolding settle
settled r ok next l = refl
settled r (fail n) next l = refl

attempted :
    (k : Kernel) (r : Res) (next : Code) (l : Log)
    → attempt k r next l ≡ next (request r (k l r) ∷ l)
unfolding attempt
attempted k r next l = settled r (k l r) next l

-- What all of them do when they are loaded.
register_both : Kernel → Code
register_both k = attempt k platform_device (attempt k platform_driver (return (pos 0)))

unregister_both : Code
unregister_both = drop_res platform_driver (drop_res platform_device (return (pos 0)))

init-register_both : (m : Module) (k : Kernel) → init m k ≡ register_both k
unfolding register_both virt_mfd_core_init virt_mtd_init virt_gate_clk_init virt_clk_consumer_init
    print_init
init-register_both virt_mfd_core k = refl
init-register_both virt_mtd k = refl
init-register_both virt_gate_clk k = refl
init-register_both virt_clk_consumer k = refl
init-register_both print k = refl

exit-unregister_both : (m : Module) → exit m ≡ unregister_both
unfolding unregister_both virt_mfd_core_exit virt_mtd_exit virt_gate_clk_exit virt_clk_consumer_exit
    print_exit
exit-unregister_both virt_mfd_core = refl
exit-unregister_both virt_mtd = refl
exit-unregister_both virt_gate_clk = refl
exit-unregister_both virt_clk_consumer = refl
exit-unregister_both print = refl

register_both-ends :
    (k : Kernel) (l : Log)
    → let device = k l platform_device in
      let driver = k (request platform_device device ∷ l) platform_driver in
      register_both k l
      ≡ (pos 0, request platform_driver driver ∷ request platform_device device ∷ l)
unfolding register_both return
register_both-ends k l =
    attempted k platform_device (attempt k platform_driver (return (pos 0))) l
    ∙ attempted k platform_driver (return (pos 0))
        (request platform_device (k l platform_device) ∷ l)

module _ (held : List Res) (l : Log) (before : holds l ≡ some held)
    (no_device : remove platform_device held ≡ none)
    (no_driver : remove platform_driver held ≡ none) where
  unregister_both-ends :
      (one two : Outcome)
      → holds (unregister_both (request platform_driver two ∷ request platform_device one ∷ l)).1
        ≡ (if granted one && granted two then some held else none)
  unfolding unregister_both drop_res return Res-discrete
  unregister_both-ends ok ok = rw before refl
  unregister_both-ends ok (fail n) = rw (before, no_driver) refl
  unregister_both-ends (fail n) ok = rw (before, no_device) refl
  unregister_both-ends (fail n) (fail m) = rw (before, no_driver) refl

  -- Where no platform device and no platform driver is held yet: loading one of the modules returns 0
  -- whatever the kernel answers, and unloading it then leaves what was held if both registrations were
  -- granted, and otherwise releases what is not held.
  pub unchecked-ends :
      (m : Module) (k : Kernel)
      → ((init m k l).0 ≡ pos 0)
        × (holds (then_undo (init m k) (exit m) l).1
            ≡ (if both_granted k l then some held else none))
  unfolding then_undo undo_after
  unchecked-ends m k =
      let device = k l platform_device in
      rw (init-register_both m k, exit-unregister_both m, register_both-ends k l)
        (refl, unregister_both-ends device (k (request platform_device device ∷ l) platform_driver))
