-- ===== src/Drivers.antt =====
-- All drivers whose loading cleans up after itself: the functions that load and unload each, or probe and
-- remove its devices, and what it holds in between. Drivers.Leaks has the others.
pub mod Cycle
pub mod Leaks
pub mod Plugging
mod Tests
use linux_driver_kb.Prelude.{Bool, some, ℕ, List, [], ◌∷◌, ◌++◌}
use linux_driver_kb.Kernel.Ledger.{
  Kernel, Code, Res, backlight, cdev, class, clk, clk_ref, coherent_buffer, device, devm_gpio,
  devm_hwmon, devm_iio, devm_iio_buffer, devm_input, devm_irq, devm_mem, devm_mfd, devm_regmap,
  devm_rtc, dt_property, gpiochip, input_device, kthread, mdiobus, memory, miscdev, mtd_device,
  netdev, netdev_notifier, netdev_registration, phy, pinctrl, platform_driver, pwm, pwmchip, region,
  softdogs, timer, uart_driver, uart_port, uio_device, urb, urb_submission,
}
use linux_driver_kb.CharDev.{char_dev_init, char_dev_exit}
use linux_driver_kb.SeqFile.{seqfile_test_init, seqfile_test_exit}
use linux_driver_kb.KeyIo.Setup.{block_io_probe, block_io_remove, misc_probe, misc_remove}
use linux_driver_kb.KeyIo.Variants.{
  nonblock_io_probe, nonblock_io_remove, fasync_io_probe, fasync_io_remove,
}
use linux_driver_kb.Serial.Setup.{virt_uart_init, virt_uart_exit, virt_uart_probe, virt_uart_remove}
use linux_driver_kb.Iio.Setup.{fake_iiodev_probe, fake_iiodev_remove}
use linux_driver_kb.Net.{vnet_init, vnet_exit}
use linux_driver_kb.Usb.Mouse.{fake_mouse_probe, fake_mouse_disconnect}
use linux_driver_kb.Mdio.{virt_mii_bus_probe, virt_mii_bus_remove}
use linux_driver_kb.Gpio.{
  virt_gpiochip_probe, virt_gpiochip_remove, gpio_consumer_probe, gpio_consumer_remove,
}
use linux_driver_kb.Pinctrl.{virt_pinctrl_probe, virt_pinctrl_remove}
use linux_driver_kb.Pinctrl.Gpiochip
use linux_driver_kb.Pinctrl.Consumer.{pinctrl_consumer_probe, pinctrl_consumer_remove, consumes}
use linux_driver_kb.Input.{input_device_probe, input_device_remove}
use linux_driver_kb.Backlight.{backlight_test_probe, backlight_test_remove}
use linux_driver_kb.Pwm.{
  pwmchip_test_probe, pwmchip_test_remove, pwmdevice_test_probe, pwmdevice_test_remove,
}
use linux_driver_kb.Clk.Setup.{
  virt_fixed_rate_clk_init, virt_fixed_rate_clk_exit, virt_clk_consumer_probe,
  virt_clk_consumer_remove,
}
use linux_driver_kb.Interrupt.{gpio_interrupt_probe, gpio_interrupt_remove}
use linux_driver_kb.Timers.{timer_drv_init, timer_drv_exit, hrtimer_drv_init, hrtimer_drv_exit}
use linux_driver_kb.KernelParts.{
  kthread_test_init, kthread_test_exit, netdev_chain_test_init, netdev_chain_test_exit,
}
use linux_driver_kb.Tmp75.Setup.{
  i2c_tmp75_probe, i2c_tmp75_remove, regmap_tmp75_probe, regmap_tmp75_remove, hwmon_tmp75_probe,
  hwmon_tmp75_remove,
}
use linux_driver_kb.Rtc.Setup.{ds1340_probe, ds1340_remove}
use linux_driver_kb.Mtd.Setup.{virt_mtd_register, virt_mtd_remove}
use linux_driver_kb.DeviceTree.{platform_test_probe, platform_test_remove}
use linux_driver_kb.Uio.{virt_uio_probe, virt_uio_remove}
use linux_driver_kb.Mfd.{virt_mfd_core_probe, virt_mfd_core_remove}
use linux_driver_kb.Watchdog.Setup.{softdog_init, softdog_exit, dogs_from}

pub data Driver : Type 0 where
  c_drv seq_file block_io nonblock_io fasync_io fasync_io_misc serial_virt serial_virt_port : Driver
  fake_iiodev vnet fake_mouse virt_mii_bus virt_gpiochip gpio_consumer virt_pinctrl input_drv :
      Driver
  backlight_drv pwm_chip pwm_device virt_fixed_rate_clk virt_clk_consumer gpio_interrupt : Driver
  timer_drv kthread_test netdev_chain i2c_tmp75 regmap_tmp75 hwmon_tmp75 rtc_ds1340 virt_mtd :
      Driver
  virt_mfd_core hrtimer_drv pinctrl_gpiochip platform_test virt_uio : Driver
  pinctrl_consumer : Bool → Driver  -- with a GPIO or without
  soft_wdt : ℕ → Driver  -- with softdog_num watchdogs

abbrev pub load : Driver → Kernel → Code
load c_drv = char_dev_init
load seq_file = seqfile_test_init
load block_io = block_io_probe
load nonblock_io = nonblock_io_probe
load fasync_io = fasync_io_probe
load fasync_io_misc = misc_probe
load serial_virt = virt_uart_init
load serial_virt_port = virt_uart_probe
load fake_iiodev = fake_iiodev_probe
load vnet = vnet_init
load fake_mouse = fake_mouse_probe
load virt_mii_bus = virt_mii_bus_probe
load virt_gpiochip = virt_gpiochip_probe
load gpio_consumer = gpio_consumer_probe
load virt_pinctrl = virt_pinctrl_probe
load input_drv = input_device_probe
load backlight_drv = backlight_test_probe
load pwm_chip = pwmchip_test_probe
load pwm_device = pwmdevice_test_probe
load virt_fixed_rate_clk = virt_fixed_rate_clk_init
load virt_clk_consumer = virt_clk_consumer_probe
load gpio_interrupt = gpio_interrupt_probe
load timer_drv = timer_drv_init
load kthread_test = kthread_test_init
load netdev_chain = netdev_chain_test_init
load i2c_tmp75 = i2c_tmp75_probe
load regmap_tmp75 = regmap_tmp75_probe
load hwmon_tmp75 = hwmon_tmp75_probe
load rtc_ds1340 = ds1340_probe
load virt_mtd = virt_mtd_register
load virt_mfd_core = virt_mfd_core_probe
load hrtimer_drv = hrtimer_drv_init
load pinctrl_gpiochip = Gpiochip.virt_gpiochip_probe
load virt_uio = virt_uio_probe
load platform_test = platform_test_probe
load (pinctrl_consumer gpio) = pinctrl_consumer_probe (some gpio)
load (soft_wdt softdog_num) = softdog_init softdog_num

abbrev pub unload : Driver → Code
unload c_drv = char_dev_exit
unload seq_file = seqfile_test_exit
unload block_io = block_io_remove
unload nonblock_io = nonblock_io_remove
unload fasync_io = fasync_io_remove
unload fasync_io_misc = misc_remove
unload serial_virt = virt_uart_exit
unload serial_virt_port = virt_uart_remove
unload fake_iiodev = fake_iiodev_remove
unload vnet = vnet_exit
unload fake_mouse = fake_mouse_disconnect
unload virt_mii_bus = virt_mii_bus_remove
unload virt_gpiochip = virt_gpiochip_remove
unload gpio_consumer = gpio_consumer_remove
unload virt_pinctrl = virt_pinctrl_remove
unload input_drv = input_device_remove
unload backlight_drv = backlight_test_remove
unload pwm_chip = pwmchip_test_remove
unload pwm_device = pwmdevice_test_remove
unload virt_fixed_rate_clk = virt_fixed_rate_clk_exit
unload virt_clk_consumer = virt_clk_consumer_remove
unload gpio_interrupt = gpio_interrupt_remove
unload timer_drv = timer_drv_exit
unload kthread_test = kthread_test_exit
unload netdev_chain = netdev_chain_test_exit
unload i2c_tmp75 = i2c_tmp75_remove
unload regmap_tmp75 = regmap_tmp75_remove
unload hwmon_tmp75 = hwmon_tmp75_remove
unload rtc_ds1340 = ds1340_remove
unload virt_mtd = virt_mtd_remove
unload virt_mfd_core = virt_mfd_core_remove
unload hrtimer_drv = hrtimer_drv_exit
unload pinctrl_gpiochip = Gpiochip.virt_gpiochip_remove
unload virt_uio = virt_uio_remove
unload platform_test = platform_test_remove
unload (pinctrl_consumer gpio) = pinctrl_consumer_remove
unload (soft_wdt softdog_num) = softdog_exit softdog_num

-- What a loaded driver holds, the newest first.
abbrev pub holdings : Driver → List Res
holdings c_drv = device ∷ class ∷ cdev ∷ region ∷ []
holdings seq_file = device ∷ class ∷ cdev ∷ region ∷ []
holdings block_io = device ∷ class ∷ cdev ∷ region ∷ devm_irq ∷ devm_gpio ∷ devm_mem ∷ []
holdings nonblock_io = device ∷ class ∷ cdev ∷ region ∷ devm_irq ∷ devm_gpio ∷ devm_mem ∷ []
holdings fasync_io = device ∷ class ∷ cdev ∷ region ∷ devm_irq ∷ devm_gpio ∷ devm_mem ∷ []
holdings fasync_io_misc = miscdev ∷ devm_irq ∷ devm_gpio ∷ devm_mem ∷ []
holdings serial_virt = platform_driver ∷ uart_driver ∷ []
holdings serial_virt_port = uart_port ∷ dt_property ∷ devm_mem ∷ []
holdings fake_iiodev = timer ∷ devm_iio ∷ devm_iio_buffer ∷ devm_mem ∷ []
holdings vnet = netdev_registration ∷ netdev ∷ []
holdings fake_mouse = urb_submission ∷ urb ∷ coherent_buffer ∷ memory ∷ []
holdings virt_mii_bus = phy ∷ netdev ∷ mdiobus ∷ devm_mem ∷ devm_mem ∷ []
holdings virt_gpiochip = gpiochip ∷ devm_mem ∷ []
holdings gpio_consumer = devm_gpio ∷ devm_mem ∷ []
holdings virt_pinctrl = pinctrl ∷ devm_mem ∷ []
holdings input_drv = input_device ∷ devm_input ∷ devm_irq ∷ devm_gpio ∷ devm_mem ∷ []
holdings backlight_drv = backlight ∷ devm_mem ∷ []
holdings pwm_chip = pwmchip ∷ devm_mem ∷ []
holdings pwm_device = pwm ∷ []
holdings virt_fixed_rate_clk = clk ∷ []
holdings virt_clk_consumer = clk_ref ∷ []
holdings gpio_interrupt = devm_irq ∷ devm_gpio ∷ devm_mem ∷ []
holdings timer_drv = timer ∷ []
holdings kthread_test = kthread ∷ []
holdings netdev_chain = netdev_notifier ∷ []
holdings i2c_tmp75 = miscdev ∷ devm_mem ∷ []
holdings regmap_tmp75 = miscdev ∷ devm_regmap ∷ devm_mem ∷ []
holdings hwmon_tmp75 = devm_hwmon ∷ devm_regmap ∷ devm_mem ∷ []
holdings rtc_ds1340 = devm_rtc ∷ devm_regmap ∷ devm_mem ∷ []
holdings virt_mtd = mtd_device ∷ devm_mem ∷ []
holdings virt_mfd_core = devm_mfd ∷ []
holdings hrtimer_drv = timer ∷ []
holdings virt_uio = uio_device ∷ []
holdings platform_test = dt_property ∷ dt_property ∷ dt_property ∷ dt_property ∷ []
holdings pinctrl_gpiochip = gpiochip ∷ devm_mem ∷ []
holdings (pinctrl_consumer gpio) = consumes gpio []
holdings (soft_wdt softdog_num) = dogs_from 0 softdog_num (softdogs ∷ [])

-- On top of what was held.
abbrev pub full : Driver → List Res → List Res
full d held = holdings d ++ held
