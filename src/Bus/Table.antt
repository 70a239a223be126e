-- ===== src/Bus/Table.antt =====
-- The drivers of the repository, each as its platform_driver or i2c_driver says, and the devices that its
-- modules register themselves.
use linux_driver_kb.Prelude.{◌≡◌, refl, true, not, ◌||◌, List, [], ◌∷◌}
use linux_driver_kb.Prelude.Search.{all, filter}
use linux_driver_kb.Bus.{
  platform_bus, i2c_bus, DeviceDriver, Device, platform_device, fits, same_slot, overlap,
}
use Prim.Native.String.{String}

abbrev platform_driver : String → List String → DeviceDriver
platform_driver name table = record {
  bus = platform_bus;
  name = name;
  of_match_table = table;
  id_table = [];
}

abbrev i2c_driver : String → List String → String → DeviceDriver
i2c_driver name table id = record {
  bus = i2c_bus;
  name = name;
  of_match_table = table;
  id_table = id ∷ [];
}

abbrev pub platform_test_driver : DeviceDriver
platform_test_driver = platform_driver "platform-test" ("dts-test" ∷ [])

abbrev pub pwmchip_test_driver : DeviceDriver
pwmchip_test_driver = platform_driver "pwmchip-test" ("pwmchip-test" ∷ [])

abbrev pub pwmdevice_test_driver : DeviceDriver
pwmdevice_test_driver = platform_driver "pwmdevice-test" ("pwmdevice-test" ∷ [])

abbrev pub gpio_consumer_driver : DeviceDriver
gpio_consumer_driver = platform_driver "gpio-consumer" ("gpio-consumer" ∷ [])

abbrev pub virt_gpiochip_driver : DeviceDriver
virt_gpiochip_driver = platform_driver "virt-gpiochip" ("xm,virt-gpiochip" ∷ [])

abbrev pub gpio_interrupt_driver : DeviceDriver
gpio_interrupt_driver = platform_driver "gpio-interrupt" ("gpio-interrupt" ∷ [])

abbrev pub block_io_driver : DeviceDriver
block_io_driver = platform_driver "block-io" ("block-io" ∷ [])

abbrev pub nonblock_io_driver : DeviceDriver
nonblock_io_driver = platform_driver "nonblock-io" ("nonblock-io" ∷ [])

abbrev pub fasync_io_driver : DeviceDriver
fasync_io_driver = platform_driver "fasync-io" ("fasync-io" ∷ [])

abbrev pub misc_fasync_io_driver : DeviceDriver
misc_fasync_io_driver = platform_driver "fasync-io" ("fasync-io" ∷ [])

abbrev pub input_device_driver : DeviceDriver
input_device_driver = platform_driver "input-device" ("input-device" ∷ [])

abbrev pub virt_uart_platform_driver : DeviceDriver
virt_uart_platform_driver = platform_driver "serial-virt" ("xm,virt-uart" ∷ [])

abbrev pub virt_disk_platform_driver : DeviceDriver
virt_disk_platform_driver = platform_driver "virt-disk" ("xm,virt-disk" ∷ [])

abbrev pub virt_mii_bus_driver : DeviceDriver
virt_mii_bus_driver = platform_driver "virt-mii-bus" ("xm,virt-mii-bus" ∷ [])

abbrev pub virt_uio_driver : DeviceDriver
virt_uio_driver = platform_driver "virt-uio" ("virt-uio" ∷ [])

abbrev pub virt_mfd_core_driver : DeviceDriver
virt_mfd_core_driver = platform_driver "virt-mfd-core-dev" []

abbrev pub virt_mfd_subdev1_driver : DeviceDriver
virt_mfd_subdev1_driver = platform_driver "virt-mfd-dev1" ("xm,virt-mfd-dev1" ∷ [])

abbrev pub virt_mfd_subdev2_driver : DeviceDriver
virt_mfd_subdev2_driver = platform_driver "virt-mfd-dev2" ("xm,virt-mfd-dev2" ∷ [])

abbrev pub virt_mtd_driver : DeviceDriver
virt_mtd_driver = platform_driver "virt-mtd-dev" []

abbrev pub virt_clk_consumer_driver : DeviceDriver
virt_clk_consumer_driver = platform_driver "virt-clk-consumer" ("xm,virt-clk-consumer" ∷ [])

abbrev pub virt_gate_clk_driver : DeviceDriver
virt_gate_clk_driver = platform_driver "virt-gate-clk" ("xm,virt-gate-clk" ∷ [])

abbrev pub virt_pinctrl_driver : DeviceDriver
virt_pinctrl_driver = platform_driver "virt-pinctrl" ("xm,virt-pinctrl" ∷ [])

abbrev pub pinctrl_consumer_driver : DeviceDriver
pinctrl_consumer_driver =
    platform_driver "pinctrl-consumer" ("xm,pinctrl-consumer" ∷ "xm,pinctrl-consumer-gpio" ∷ [])

abbrev pub pinctrl_gpiochip_driver : DeviceDriver
pinctrl_gpiochip_driver = platform_driver "virt-gpiochip" ("xm,virt-gpiochip" ∷ [])

abbrev pub print_driver : DeviceDriver
print_driver = platform_driver "print-dev" []

abbrev pub backlight_test_driver : DeviceDriver
backlight_test_driver = i2c_driver "backlight-test" ("backlight-test" ∷ []) "backlight-test"

abbrev pub i2c_tmp75_driver : DeviceDriver
i2c_tmp75_driver = i2c_driver "tmp75" [] "tmp75"

abbrev pub regmap_tmp75_driver : DeviceDriver
regmap_tmp75_driver = i2c_driver "tmp75" [] "tmp75"

abbrev pub hwmon_tmp75_driver : DeviceDriver
hwmon_tmp75_driver = i2c_driver "tmp75" [] "tmp75"

abbrev pub ds1340_driver : DeviceDriver
ds1340_driver = i2c_driver "rtc-ds1340" [] "ds1340"

abbrev pub fake_iiodev_driver : DeviceDriver
fake_iiodev_driver = i2c_driver "fake-iiodev" ("xm,fake_iiodev" ∷ []) "fake_iiodev"

abbrev pub ssd1306fb_driver : DeviceDriver
ssd1306fb_driver = i2c_driver "ssd1306fb" ("xm,ssd1306_fb" ∷ []) "ssd1306_fb"

unfoldable pub drivers : List DeviceDriver
drivers =
    platform_test_driver ∷ pwmchip_test_driver ∷ pwmdevice_test_driver ∷ gpio_consumer_driver
    ∷ virt_gpiochip_driver ∷ gpio_interrupt_driver ∷ block_io_driver ∷ nonblock_io_driver
    ∷ fasync_io_driver ∷ misc_fasync_io_driver ∷ input_device_driver ∷ virt_uart_platform_driver
    ∷ virt_disk_platform_driver ∷ virt_mii_bus_driver ∷ virt_uio_driver ∷ virt_mfd_core_driver
    ∷ virt_mfd_subdev1_driver ∷ virt_mfd_subdev2_driver ∷ virt_mtd_driver ∷ virt_clk_consumer_driver
    ∷ virt_gate_clk_driver ∷ virt_pinctrl_driver ∷ pinctrl_consumer_driver ∷ pinctrl_gpiochip_driver
    ∷ print_driver ∷ backlight_test_driver ∷ i2c_tmp75_driver ∷ regmap_tmp75_driver
    ∷ hwmon_tmp75_driver ∷ ds1340_driver ∷ fake_iiodev_driver ∷ ssd1306fb_driver ∷ []

-- The devices of the modules that register their device themselves, and the two children that
-- virt_mfd_core adds.
abbrev pub virt_mfd_core_device : Device
virt_mfd_core_device = platform_device "virt-mfd-core-dev"

abbrev pub virt_mfd_dev1 : Device
virt_mfd_dev1 = platform_device "virt-mfd-dev1"

abbrev pub virt_mfd_dev2 : Device
virt_mfd_dev2 = platform_device "virt-mfd-dev2"

abbrev pub virt_mtd_device : Device
virt_mtd_device = platform_device "virt-mtd-dev"

abbrev pub virt_clk_consumer_device : Device
virt_clk_consumer_device = platform_device "virt-clk-consumer"

abbrev pub virt_gate_clk_device : Device
virt_gate_clk_device = platform_device "virt-gate-clk"

abbrev pub print_device : Device
print_device = platform_device "print-dev"

-- Two drivers that some device could fit have one name on one bus.
pub drivers_coherent :
    all (λ d. all (λ e. not (overlap d e) || same_slot d e) drivers) drivers ≡ true
unfolding drivers
drivers_coherent = refl

-- Of all drivers, each of these devices fits its own and no other.
pub own_device :
    (filter (fits virt_mfd_core_device) drivers ≡ virt_mfd_core_driver ∷ [])
    × (filter (fits virt_mfd_dev1) drivers ≡ virt_mfd_subdev1_driver ∷ [])
    × (filter (fits virt_mfd_dev2) drivers ≡ virt_mfd_subdev2_driver ∷ [])
    × (filter (fits virt_mtd_device) drivers ≡ virt_mtd_driver ∷ [])
    × (filter (fits virt_clk_consumer_device) drivers ≡ virt_clk_consumer_driver ∷ [])
    × (filter (fits virt_gate_clk_device) drivers ≡ virt_gate_clk_driver ∷ [])
    × (filter (fits print_device) drivers ≡ print_driver ∷ [])
unfolding drivers fits
own_device = (refl, refl, refl, refl, refl, refl, refl)
