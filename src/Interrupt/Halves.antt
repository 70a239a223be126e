-- ===== src/Interrupt/Halves.antt =====
-- Which bottom half the interrupt of gpio_interrupt.c starts.
use linux_driver_kb.Prelude.{ℕ, ◌≡◌, if◌then◌else◌, ◌==◌, Option, some, none, arith}

-- bottom_half_type, as the numbers that the module's parameter `type` gives.
abbrev pub bottom_half_tasklet : ℕ
bottom_half_tasklet = 1

abbrev pub bottom_half_workqueue : ℕ
bottom_half_workqueue = 2

abbrev pub bottom_half_thread : ℕ
bottom_half_thread = 3

-- What runs later, because of this interrupt.
pub data Half : Type 0 where
  tasklet_handler workqueue_handler threaded_irq_handler : Half

-- IRQ_HANDLED and IRQ_WAKE_THREAD.
pub data Irqreturn : Type 0 where
  irq_handled irq_wake_thread : Irqreturn

-- `own` is the type that the device keeps, `type` the parameter; the code asks both. What is
-- scheduled, and the return value.
unfoldable pub gpio_interrupt_handler : ℕ → ℕ → Option Half × Irqreturn
gpio_interrupt_handler own type = (
  (if own == bottom_half_tasklet
      then some tasklet_handler
      else (if type == bottom_half_workqueue then some workqueue_handler else none)),
  (if own == bottom_half_thread then irq_wake_thread else irq_handled),
)

-- The probe copies the parameter, and sets up the tasklet, the work or the thread by it.
abbrev set_up : ℕ → Option Half
set_up type =
    if type == bottom_half_tasklet
    then some tasklet_handler
    else (if type == bottom_half_workqueue
        then some workqueue_handler
        else (if type == bottom_half_thread then some threaded_irq_handler else none))

-- The half that runs after all: the core wakes the thread that the probe gave it.
abbrev pub runs_later : Option Half × Irqreturn → Option Half
runs_later (_, irq_wake_thread) = some threaded_irq_handler
runs_later (scheduled, irq_handled) = scheduled

-- With the type that the probe copied from the parameter, the interrupt starts the bottom half that the
-- probe has set up for that type, and none for the types without one.
pub handler-set_up : (type : ℕ) → runs_later (gpio_interrupt_handler type type) ≡ set_up type
unfolding gpio_interrupt_handler
handler-set_up type = ground arith
