-- ===== src/KeyIo/Variants.antt =====
-- nonblock_io.c, fasync_io.c and fasync_io_misc.c repeat functions of block_io.c word for word, apart
-- from the name of the data's type; here they stand under their drivers' names.
use linux_driver_kb.Prelude.{ℕ}
use linux_driver_kb.Kernel.Ledger.{Kernel, Code}
use linux_driver_kb.KeyIo.{
  Reader, Keys, Handler, read_step, debounce_timer_handler, gpio_interrupt_handler, char_dev_poll,
}
use linux_driver_kb.KeyIo.Setup.{block_io_probe, block_io_remove}

-- char_dev_read of nonblock_io.c.
abbrev nonblock_read_step : ℕ → ℕ → Reader → ℕ × Reader
nonblock_read_step = read_step

abbrev nonblock_timer_handler : Handler
nonblock_timer_handler = debounce_timer_handler

abbrev nonblock_interrupt_handler : ℕ → Keys → Keys
nonblock_interrupt_handler = gpio_interrupt_handler

abbrev pub nonblock_io_probe : Kernel → Code
nonblock_io_probe = block_io_probe

abbrev pub nonblock_io_remove : Code
nonblock_io_remove = block_io_remove

-- char_dev_read of fasync_io.c.
abbrev fasync_read_step : ℕ → ℕ → Reader → ℕ × Reader
fasync_read_step = read_step

abbrev fasync_poll : Keys → ℕ
fasync_poll = char_dev_poll

abbrev fasync_interrupt_handler : ℕ → Keys → Keys
fasync_interrupt_handler = gpio_interrupt_handler

abbrev pub fasync_io_probe : Kernel → Code
fasync_io_probe = block_io_probe

abbrev pub fasync_io_remove : Code
fasync_io_remove = block_io_remove

-- char_dev_read of fasync_io_misc.c.
abbrev misc_read_step : ℕ → ℕ → Reader → ℕ × Reader
misc_read_step = read_step

abbrev misc_poll : Keys → ℕ
misc_poll = char_dev_poll

abbrev misc_interrupt_handler : ℕ → Keys → Keys
misc_interrupt_handler = gpio_interrupt_handler
