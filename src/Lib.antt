-- ===== src/Lib.antt =====
-- Verification of the drivers of this collection of Linux driver examples.
--
-- Each directory of the repository is one topic with a driver/ of one or more kernel modules and a
-- test/ of user programs. The drivers do not call each other. What they share is the kernel: it calls
-- their handlers, and they ask it for devices, interrupts, timers and memory. So there is one module
-- here for each driver, over a common model of what the kernel grants and takes back.
--
-- Files and sources:
--   Prelude (Tests, Lists, Optional, Int, Bytes, Every, Search): Boolean tests, lists and bytes
--     measured by native numbers, signed integers, checks of all numbers below a bound and of the
--     elements of a list.
--   Kernel.Errno, Kernel.Ledger (Resources, Calls, Bags, Rules): the error numbers, and the calls
--     by which a driver acquires and releases things, as a log. The kernel is a function of the
--     log, so every answer in every order is covered. `Runs` says that code starting with some
--     holdings releases only what it holds, in whatever order, and how it ends; there is one rule
--     for each construct, and a proof follows the code.
--   Kernel.Regmap: struct regmap_config. Kernel.User, Kernel.FlatCopy: copy_to_user and
--     copy_from_user as a parameter, with what their callers rely on, and one instance.
--   CharDev: 01.字符设备/driver/c-drv.c. char_dev_write, char_dev_read and char_dev_llseek, one
--     function each; the state is the memory and the file's position. CharDev.Spec is a store with
--     a cursor; CharDev.Shared has any number of files over the one memory.
--   SeqFile: 01.字符设备/driver/seq_file.c. start, next and show; SeqFile.Walk has the loop of the
--     kernel's seq_read.
--   KeyIo: 09.阻塞与非阻塞IO/driver/block_io.c and nonblock_io.c, 10.异步IO/driver/fasync_io.c and
--     11.misc/driver/fasync_io_misc.c. char_dev_read is cut into the steps between which other
--     readers, the interrupt and the timer run, and the timer's handler into the setting of the flag and
--     the wake-up; KeyIo.step is one event of any of them.
--   Threads: 12.并发控制/driver/concurrency_control.c. thread_func cut into steps, the load and the
--     store of `result++` apart; a schedule is a list of thread names. Threads.Race is about the
--     counter without a lock, and Threads.Suite has the loop of concurrency_control_init over the
--     tests.
--   Watchdog: 14.watchdog/driver/soft_wdt.c. The handlers of the watchdog core and the timers.
--   Rtc: 19.rtc/driver/rtc-ds1340.c. The bytes of the registers from a time and back; Rtc.Map is
--     how the driver sets up the register map.
--   Iio: 22.iio/driver/fake_iiodev.c. The handlers of the attributes, the timer and the trigger;
--     Iio.Channels has the table of the channels, Iio.Scan the steps of the timer and the trigger
--     around the mutex.
--   Serial: 24.串口/driver/serial-virt.c. start_tx with its loop; the serial core is a parameter.
--   Disk: 25.块设备/driver/virt-disk.c. The two variants of the data path.
--   Mtd: 31.mtd/driver/virt_mtd.c. read, write and erase; Mtd.Parts is its two partitions over the
--     mtd core, which is a parameter.
--   Ssd1306: 28.Framebuffer/driver/ssd1306fb.c. The bus is a parameter that answers each message;
--     the state is the picture and the messages sent. Ssd1306.Script has the commands of the
--     panel's data sheet; Ssd1306.Pixels is the reported layout against the panel's, which is a parameter.
--   Tmp75: 16.regmap/driver/tmp75.c and 18.hwmon/driver/tmp75.c. The register map is a parameter.
--     Tmp75.I2c is 15.I2C/driver/tmp75.c over the plain bus; Tmp75.Map is how
--     the drivers set up the register map, and compares the temperatures.
--   Usb.GChar: 23.USB/driver/g_char.c. The state is the two endpoints and the two requests; a
--     transfer's flag and queue are one value that says how the wait ends; in Usb.GChar.Readers
--     g_char_read is cut into the steps between which another reader and the controller run.
--     Usb.GChar.Descriptors has the tables of descriptors, Usb.GChar.Strings the strings that a
--     host finds, Usb.GChar.Requests the allocation of a request. Usb.Mouse:
--     23.USB/driver/fake_mouse.c, with the callback of a transfer in Usb.Mouse.Poll.
--   Uio: 29.uio/driver/virt_uio.c, with the interrupt's count, which the kernel keeps.
--   Pinctrl: 33.pinctrl/driver/virt-pinctrl.c, with its tables. Clk: the three files of
--     32.CCF子系统/driver, with the gate and its consumers together in Clk.Tree. Gpio: 07.gpio/driver.
--     Interrupt: 08.中断/driver/gpio_interrupt.c. Timers: 02.定时器/driver, with the times of the
--     expiries in Timers.Drift. Backlight: 06.backlight/driver. Pwm: 05.pwm/driver. Input:
--     13.input/driver, with the timer of the button in Input.Debounce. Pinctrl.Gpiochip is
--     33.pinctrl/driver/virt_gpiochip.c. Net: 35.网络/driver/vnet.c. Mdio: 27.mdio+phy/driver. Mfd:
--     30.mfd设备/driver, with the strings that the children find in Mfd.Children. Sysfs:
--     17.sysfs/driver. Proc: 34.debug/driver/proc.c. Notifier, KernelParts: 26.内核组件/driver, with
--     the thread's loop in KernelParts.Thread and the use of the kernel's lists and chains in
--     KernelParts.ListTest and KernelParts.Chain; KernelParts.ContainerOf is
--     container_of/container_of.c. Oops: 34.debug/driver/oops.c, with a checker of memory.
--     Platform: the modules that register a device and its driver and look at no result, among them
--     34.debug/driver/print.c, whose messages are in Print. DeviceTree: 03.设备树/driver and
--     04.platform设备/driver.
--   Bus: what the drivers say of themselves to the platform and I2C buses, in every directory:
--     their names and match tables, over the driver core, which is a parameter; Bus.Loads is
--     loading and unloading their modules.
--   Drivers: the table of the drivers with what loads and unloads each and what it holds in
--     between; Drivers.Cycle is about each of those that clean up after themselves,
--     Drivers.Plugging about all of them over one kernel, Drivers.Leaks about the others.
-- The functions that load and unload a driver, with the labels of their error branches, are in its
-- X.Setup, or in X itself where there is little else. X.Tests runs the theorems at concrete inputs.
--
-- Bounds. Machine integers keep their wrap-around, written `% 2 ^ w`; jiffies and the numbers of
-- signals and wake-ups do not wrap. Loops are structural: Serial.send_loop recurs on the fifo's size,
-- SeqFile.Walk.pass on fuel, of which three rounds are enough, KernelParts.Thread.kthread_fn on fuel, of
-- which one more than the thread's rounds is enough, Threads.Suite on the number of tests left. Schedules
-- and sequences of events are lists of any length.
--
-- Not modelled: messages in the kernel's log, but for the modules that are about them (Print,
-- Mfd.Children, KernelParts.ContainerOf), and the functions that only print or return a constant, as
-- those of the GPIO chips, the pin controller, the PWM chip and the PHY are; the reference counts of
-- open files; the mutex of fake_iiodev.c but in Iio.Scan, elsewhere its handlers run one after the
-- other; memory other than the devices' own; the tables of operations, which say no more than which
-- handler is called; and the test programs.
pub mod Prelude
pub mod Kernel
pub mod Bus
pub mod CharDev
pub mod KeyIo
pub mod Serial
pub mod Disk
pub mod Mtd
pub mod Threads
pub mod Rtc
pub mod Iio
pub mod Watchdog
pub mod SeqFile
pub mod Ssd1306
pub mod Tmp75
pub mod Net
pub mod Pinctrl
pub mod Input
pub mod Backlight
pub mod Pwm
pub mod Interrupt
pub mod Timers
pub mod KernelParts
pub mod Mfd
pub mod Gpio
pub mod Mdio
pub mod Usb
pub mod Clk
pub mod Uio
pub mod Sysfs
pub mod Platform
pub mod Print
pub mod Proc
pub mod Notifier
pub mod Oops
pub mod DeviceTree
pub mod Drivers
