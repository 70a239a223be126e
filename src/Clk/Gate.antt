-- ===== src/Clk/Gate.antt =====
-- The gate of 32.CCF子系统/driver/virt-gate-clk.c, built without USE_DTS.
use linux_driver_kb.Prelude.{ℕ}
use linux_driver_kb.Prelude.Int.{ℤ, pos, negsuc}
use linux_driver_kb.Kernel.Errno.{enomem}
use linux_driver_kb.Kernel.Ledger.{
  Kernel, Code, return, acquire, attempt, drop_res, devm_mem, clk, clkdev, platform_device,
  platform_driver,
}

-- gate_en is all that the gate keeps.
unfoldable pub virt_gate_clk_enable : ℕ → ℤ × ℕ
virt_gate_clk_enable gate_en = (pos 0, 1)

unfoldable pub virt_gate_clk_disable : ℕ → ℕ
virt_gate_clk_disable gate_en = 0

unfoldable pub virt_gate_clk_is_enabled : ℕ → ℤ
virt_gate_clk_is_enabled gate_en = pos gate_en

-- The result of clk_register_clkdev is not looked at.
unfoldable pub virt_gate_clk_probe : Kernel → Code
virt_gate_clk_probe k =
    acquire k devm_mem (λ _. return enomem)
      (acquire k clk (λ n. return (negsuc n)) (attempt k clkdev (return (pos 0))))

unfoldable pub virt_gate_clk_remove : Code
virt_gate_clk_remove = drop_res clk (return (pos 0))

-- Neither are those of the two registrations.
unfoldable pub virt_gate_clk_init : Kernel → Code
virt_gate_clk_init k = attempt k platform_device (attempt k platform_driver (return (pos 0)))

unfoldable pub virt_gate_clk_exit : Code
virt_gate_clk_exit = drop_res platform_driver (drop_res platform_device (return (pos 0)))
