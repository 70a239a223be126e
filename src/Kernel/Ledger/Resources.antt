-- ===== src/Kernel/Ledger/Resources.antt =====
-- What the kernel can keep for a driver.
use linux_driver_kb.Prelude.{ℕ, ℕ_discrete}

-- What can be held. The request and the release of each in the sources:
-- region: alloc_chrdev_region, unregister_chrdev_region; cdev: cdev_add, cdev_del;
-- class: class_create, class_destroy; device: device_create, device_destroy;
-- softdogs: kcalloc, kfree; watchdog: watchdog_register_device, watchdog_unregister_device;
-- blkdev: register_blkdev, unregister_blkdev; disk: alloc_disk, put_disk;
-- queue: blk_init_queue, blk_cleanup_queue; gendisk: add_disk, del_gendisk; miscdev: misc_register, misc_deregister;
-- devm_mem, devm_gpio, devm_irq: devm_kzalloc, devm_gpiod_get_index_optional, devm_request_irq;
-- dt_property: of_property_read_u32, with nothing to release; uart_driver: uart_register_driver,
-- uart_unregister_driver; platform_driver: platform_driver_register, platform_driver_unregister;
-- uart_port: uart_add_one_port, uart_remove_one_port; devm_iio_buffer:
-- devm_iio_triggered_buffer_setup; devm_iio: devm_iio_device_register; timer: setup_timer and
-- mod_timer, del_timer_sync; framebuffer: framebuffer_alloc, framebuffer_release; pages:
-- __get_free_pages, __free_pages; defio: fb_deferred_io_init, fb_deferred_io_cleanup;
-- fb_registration: register_framebuffer, unregister_framebuffer; panel: ssd1306fb_init, with nothing
-- to release; memory: kzalloc, kfree; netdev: alloc_netdev or alloc_etherdev, free_netdev;
-- netdev_registration: register_netdev, unregister_netdev; coherent_buffer: usb_alloc_coherent,
-- usb_free_coherent; urb: usb_alloc_urb, usb_free_urb; urb_submission: usb_submit_urb, usb_kill_urb; mdiobus: mdiobus_register, mdiobus_unregister;
-- phy: phy_connect, phy_disconnect; uio_device: uio_register_device, uio_unregister_device; gpiochip:
-- gpiochip_add, gpiochip_remove; pinctrl: pinctrl_register, pinctrl_unregister; clk: clk_register or
-- clk_register_fixed_rate and their opposites; clk_ref: clk_get, clk_put; clkdev: clk_register_clkdev,
-- clkdev_drop; input_device: input_register_device, input_unregister_device; backlight:
-- backlight_device_register, backlight_device_unregister; pwmchip: pwmchip_add, pwmchip_remove; pwm:
-- pwm_get, pwm_put; kobject: kobject_create_and_add, kobject_put; sysfs_file, sysfs_group and
-- sysfs_groups: sysfs_create_..., sysfs_remove_...; proc_dir, proc_file: proc_mkdir,
-- proc_create_data, remove_proc_subtree; netdev_notifier and notifier: the register and unregister
-- functions of the chains; kthread: kthread_run, kthread_stop; usb_function: usb_add_function;
-- mtd_device: mtd_device_register, mtd_device_unregister; platform_device: platform_device_register,
-- platform_device_unregister; usb_request: usb_ep_alloc_request, usb_ep_free_request; of_node: of_find_node_by_name, of_node_put; the other devm_ ones:
-- the functions of these names, released by the device core.
pub data Res : Type 0 where
  region cdev class device softdogs blkdev disk queue gendisk : Res
  devm_mem devm_gpio devm_irq miscdev dt_property devm_iio_buffer devm_iio timer uart_driver
        platform_driver uart_port :
      Res
  framebuffer pages defio panel fb_registration : Res
  urb_submission memory netdev netdev_registration coherent_buffer urb mdiobus phy uio_device
        gpiochip pinctrl :
      Res
  clk clk_ref clkdev devm_regmap devm_hwmon devm_rtc devm_input devm_mfd input_device backlight :
      Res
  pwmchip pwm kobject sysfs_file sysfs_group sysfs_groups proc_dir proc_file netdev_notifier : Res
  kthread usb_function mtd_device platform_device of_node string_ids usb_request : Res
  notifier : ℕ → Res
  watchdog : ℕ → Res

unfoldable pub Res-discrete : Discrete Res
Res-discrete = hlevel ℕ_discrete
