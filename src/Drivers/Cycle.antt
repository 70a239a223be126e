-- ===== src/Drivers/Cycle.antt =====
-- Loading and unloading of every driver.
use linux_driver_kb.Prelude.{List, [], ◌∷◌, true, false, ◌≡◌, inl, inr, refl, ap, ◌∙◌}
use linux_driver_kb.Prelude.Int.{ℤ, pos}
use linux_driver_kb.Kernel.Ledger.{
  Kernel, Code, Res, Runs, AllOrNothing, ProbeEnds, Gone, unmanaged, Runs-weaken, devm_irq,
  devm_gpio, devm_mem, ok, softdogs,
}
use linux_driver_kb.CharDev.Setup.{char_dev_init-Runs, char_dev_exit-Runs}
use linux_driver_kb.KeyIo.Setup.{
  block_io_probe-Runs, block_io_remove-Runs, misc_probe-Runs, misc_remove-Runs,
}
use linux_driver_kb.Serial.Setup.{virt_uart_init-Runs, virt_uart_probe-Runs, virt_uart_remove-Runs}
use linux_driver_kb.Iio.Setup.{fake_iiodev_probe-Runs, fake_iiodev_remove-Runs}
use linux_driver_kb.Net.{vnet_init-Runs, vnet_exit-Runs}
use linux_driver_kb.Usb.Mouse.{fake_mouse_probe-Runs, fake_mouse_disconnect-Runs}
use linux_driver_kb.Mdio.{virt_mii_bus_probe-Runs, virt_mii_bus_remove-Runs}
use linux_driver_kb.Gpio.{
  virt_gpiochip_probe-Runs, virt_gpiochip_remove-Runs, gpio_consumer_probe-Runs,
  gpio_consumer_remove-Runs,
}
use linux_driver_kb.Pinctrl.{virt_pinctrl_probe-Runs, virt_pinctrl_remove-Runs}
use linux_driver_kb.Pinctrl.Gpiochip
use linux_driver_kb.Pinctrl.Consumer.{pinctrl_consumer_probe-Runs, pinctrl_consumer_remove-Runs}
use linux_driver_kb.Input.{input_device_probe-Runs, input_device_remove-Runs}
use linux_driver_kb.Backlight.{backlight_test_probe-Runs, backlight_test_remove-Runs}
use linux_driver_kb.Pwm.{
  pwmchip_test_probe-Runs, pwmchip_test_remove-Runs, pwmdevice_test_probe-Runs,
  pwmdevice_test_remove-Runs,
}
use linux_driver_kb.Clk.Setup.{
  virt_fixed_rate_clk_init-Runs, virt_fixed_rate_clk_exit-Runs, virt_clk_consumer_probe-Runs,
  virt_clk_consumer_remove-Runs,
}
use linux_driver_kb.Interrupt.{gpio_interrupt_probe-Runs, gpio_interrupt_remove-Runs}
use linux_driver_kb.Timers.{
  timer_drv_init-Runs, timer_drv_exit-Runs, hrtimer_drv_init-Runs, hrtimer_drv_exit-Runs,
}
use linux_driver_kb.KernelParts.{
  kthread_test_init-Runs, kthread_test_exit-Runs, netdev_chain_test_init-Runs,
  netdev_chain_test_exit-Runs,
}
use linux_driver_kb.Tmp75.Setup.{
  i2c_tmp75_probe-Runs, i2c_tmp75_remove-Runs, regmap_tmp75_probe-Runs, regmap_tmp75_remove-Runs,
  hwmon_tmp75_probe-Runs, hwmon_tmp75_remove-Runs,
}
use linux_driver_kb.Rtc.Setup.{ds1340_probe-Runs, ds1340_remove-Runs}
use linux_driver_kb.Mtd.Setup.{virt_mtd_register-Runs, virt_mtd_remove-Runs}
use linux_driver_kb.DeviceTree.{platform_test_probe-Runs, platform_test_remove-Runs}
use linux_driver_kb.Uio.{virt_uio_probe-Runs, virt_uio_remove-Runs}
use linux_driver_kb.Mfd.{virt_mfd_core_probe-Runs, virt_mfd_core_remove-Runs}
use linux_driver_kb.Watchdog.Setup.{dogs_from-append, softdog_init-Runs, softdog_exit-Runs}
use linux_driver_kb.Drivers.{
  Driver, load, unload, full, soft_wdt, hrtimer_drv, pinctrl_gpiochip, platform_test, virt_uio,
  pinctrl_consumer, c_drv, seq_file, block_io, nonblock_io, fasync_io, fasync_io_misc, serial_virt,
  serial_virt_port, fake_iiodev, vnet, fake_mouse, virt_mii_bus, virt_gpiochip, gpio_consumer,
  virt_pinctrl, input_drv, backlight_drv, pwm_chip, pwm_device, virt_fixed_rate_clk,
  virt_clk_consumer, gpio_interrupt, timer_drv, kthread_test, netdev_chain, i2c_tmp75, regmap_tmp75,
  hwmon_tmp75, rtc_ds1340, virt_mtd, virt_mfd_core,
}

clean_rule :
    {held full : List Res} {c : Code}
    → Runs (AllOrNothing held full) held c
    → Runs (ProbeEnds held full) held c
clean_rule good = Runs-weaken weaken good
  where
    weaken :
        {held full : List Res} (ret : ℤ) (end : List Res)
        → AllOrNothing held full ret end
        → ProbeEnds held full ret end
    weaken ret end (inl done) = inl done
    weaken ret end (inr (e, same)) = inr (e, ap unmanaged same)

exact_rule :
    {held now : List Res} {c : Code} → Runs (λ ret end. end ≡ held) now c → Runs (Gone held) now c
exact_rule good = Runs-weaken (λ ret end same. ap unmanaged same) good

exact_0_rule :
    (held : List Res) {back now : List Res} {c : Code}
    → unmanaged back ≡ unmanaged held
    → Runs (λ ret end. (ret ≡ pos 0) × (end ≡ back)) now c
    → Runs (Gone held) now c
exact_0_rule held clean good = Runs-weaken (λ ret end (_, same). ap unmanaged same ∙ clean) good

-- Whatever the kernel answers, loading a driver or probing its device releases nothing that is not held,
-- and returns 0 with all that the driver needs held, or an error with nothing more held than before but
-- what the device core releases by itself.
pub load-Runs :
    (d : Driver) (k : Kernel) (held : List Res)
    → Runs (ProbeEnds held (full d held)) held (load d k)
load-Runs c_drv k held = clean_rule (char_dev_init-Runs k held)
load-Runs seq_file k held = clean_rule (char_dev_init-Runs k held)
load-Runs block_io k held = block_io_probe-Runs k held
load-Runs nonblock_io k held = block_io_probe-Runs k held
load-Runs fasync_io k held = block_io_probe-Runs k held
load-Runs fasync_io_misc k held = misc_probe-Runs k held
load-Runs serial_virt k held = clean_rule (virt_uart_init-Runs k held).0
load-Runs serial_virt_port k held = virt_uart_probe-Runs k held
load-Runs fake_iiodev k held = fake_iiodev_probe-Runs k held
load-Runs vnet k held = vnet_init-Runs k held
load-Runs fake_mouse k held = fake_mouse_probe-Runs k held
load-Runs virt_mii_bus k held = virt_mii_bus_probe-Runs k held
load-Runs virt_gpiochip k held = virt_gpiochip_probe-Runs k held
load-Runs gpio_consumer k held = gpio_consumer_probe-Runs k held
load-Runs virt_pinctrl k held = virt_pinctrl_probe-Runs k held
load-Runs input_drv k held = input_device_probe-Runs k held
load-Runs backlight_drv k held = backlight_test_probe-Runs k held
load-Runs pwm_chip k held = pwmchip_test_probe-Runs k held
load-Runs pwm_device k held = pwmdevice_test_probe-Runs k held
load-Runs virt_fixed_rate_clk k held = virt_fixed_rate_clk_init-Runs k held
load-Runs virt_clk_consumer k held = virt_clk_consumer_probe-Runs k held
load-Runs gpio_interrupt k held = gpio_interrupt_probe-Runs k held
load-Runs timer_drv k held = timer_drv_init-Runs k held
load-Runs kthread_test k held = kthread_test_init-Runs k held
load-Runs netdev_chain k held = netdev_chain_test_init-Runs k held
load-Runs i2c_tmp75 k held = i2c_tmp75_probe-Runs k held
load-Runs regmap_tmp75 k held = regmap_tmp75_probe-Runs k held
load-Runs hwmon_tmp75 k held = hwmon_tmp75_probe-Runs k held
load-Runs rtc_ds1340 k held = ds1340_probe-Runs k held
load-Runs virt_mtd k held = virt_mtd_register-Runs k held
load-Runs virt_mfd_core k held = virt_mfd_core_probe-Runs k held
load-Runs hrtimer_drv k held = hrtimer_drv_init-Runs k held
load-Runs virt_uio k held = virt_uio_probe-Runs k held
load-Runs platform_test k held = platform_test_probe-Runs k held
load-Runs pinctrl_gpiochip k held = Gpiochip.virt_gpiochip_probe-Runs k held
load-Runs (pinctrl_consumer true) k held = pinctrl_consumer_probe-Runs true k held
load-Runs (pinctrl_consumer false) k held = pinctrl_consumer_probe-Runs false k held
load-Runs (soft_wdt softdog_num) k held =
    rw (dogs_from-append 0 softdog_num (softdogs ∷ []) held)
      (clean_rule (softdog_init-Runs k softdog_num held))

-- A kernel that grants everything.
none_fails : Kernel
none_fails _ _ = ok

pub unload-Runs : (d : Driver) (held : List Res) → Runs (Gone held) (full d held) (unload d)
unload-Runs c_drv held = exact_rule (char_dev_exit-Runs held)
unload-Runs seq_file held = exact_rule (char_dev_exit-Runs held)
unload-Runs block_io held =
    exact_0_rule held refl (block_io_remove-Runs (devm_irq ∷ devm_gpio ∷ devm_mem ∷ held))
unload-Runs nonblock_io held =
    exact_0_rule held refl (block_io_remove-Runs (devm_irq ∷ devm_gpio ∷ devm_mem ∷ held))
unload-Runs fasync_io held =
    exact_0_rule held refl (block_io_remove-Runs (devm_irq ∷ devm_gpio ∷ devm_mem ∷ held))
unload-Runs fasync_io_misc held = misc_remove-Runs held
unload-Runs serial_virt held = exact_rule (virt_uart_init-Runs none_fails held).1
unload-Runs serial_virt_port held = virt_uart_remove-Runs held
unload-Runs fake_iiodev held = fake_iiodev_remove-Runs held
unload-Runs vnet held = vnet_exit-Runs held
unload-Runs fake_mouse held = fake_mouse_disconnect-Runs held
unload-Runs virt_mii_bus held = virt_mii_bus_remove-Runs held
unload-Runs virt_gpiochip held = virt_gpiochip_remove-Runs held
unload-Runs gpio_consumer held = gpio_consumer_remove-Runs held
unload-Runs virt_pinctrl held = virt_pinctrl_remove-Runs held
unload-Runs input_drv held = input_device_remove-Runs held
unload-Runs backlight_drv held = backlight_test_remove-Runs held
unload-Runs pwm_chip held = pwmchip_test_remove-Runs held
unload-Runs pwm_device held = pwmdevice_test_remove-Runs held
unload-Runs virt_fixed_rate_clk held = virt_fixed_rate_clk_exit-Runs held
unload-Runs virt_clk_consumer held = virt_clk_consumer_remove-Runs held
unload-Runs gpio_interrupt held = gpio_interrupt_remove-Runs held
unload-Runs timer_drv held = timer_drv_exit-Runs held
unload-Runs kthread_test held = kthread_test_exit-Runs held
unload-Runs netdev_chain held = netdev_chain_test_exit-Runs held
unload-Runs i2c_tmp75 held = i2c_tmp75_remove-Runs held
unload-Runs regmap_tmp75 held = regmap_tmp75_remove-Runs held
unload-Runs hwmon_tmp75 held = hwmon_tmp75_remove-Runs held
unload-Runs rtc_ds1340 held = ds1340_remove-Runs held
unload-Runs virt_mtd held = virt_mtd_remove-Runs held
unload-Runs virt_mfd_core held = virt_mfd_core_remove-Runs held
unload-Runs hrtimer_drv held = hrtimer_drv_exit-Runs held
unload-Runs virt_uio held = virt_uio_remove-Runs held
unload-Runs platform_test held = platform_test_remove-Runs held
unload-Runs pinctrl_gpiochip held = Gpiochip.virt_gpiochip_remove-Runs held
unload-Runs (pinctrl_consumer true) held = pinctrl_consumer_remove-Runs true held
unload-Runs (pinctrl_consumer false) held = pinctrl_consumer_remove-Runs false held
unload-Runs (soft_wdt softdog_num) held =
    rw (dogs_from-append 0 softdog_num (softdogs ∷ []) held)
      (exact_0_rule held refl (softdog_exit-Runs softdog_num held))
