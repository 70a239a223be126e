-- ===== src/KeyIo.antt =====
-- The key drivers: 09.阻塞与非阻塞IO/driver/block_io.c and nonblock_io.c, 10.异步IO/driver/fasync_io.c
-- and 11.misc/driver/fasync_io_misc.c. A press of the key starts a debounce timer; its handler sets
-- `key_value`, and readers take the value and clear it. All four have the same `read`, which runs
-- here in the steps between which other readers and the handlers can run.
pub mod Wake
pub mod Value
pub mod Fasync
pub mod Listeners
pub mod Setup
pub mod Variants
mod Tests
use linux_driver_kb.Prelude.{
  ℕ, ◌+◌, ◌&&◌, not, Bool, true, false, Option, none, some, List, [], ◌∷◌, ◌==◌, leb, if◌then◌else◌,
}
use linux_driver_kb.Prelude.Int.{ℤ, pos}
use linux_driver_kb.Kernel.Errno.{eagain, erestartsys}

-- Where a reader is in char_dev_read: `entered` at the first test of the value (with O_NONBLOCK or
-- not), `waiting` at the test of wait_event_interruptible, which puts it to sleep on the queue or
-- lets it pass, `taking` before the second atomic_read, `took` before atomic_set, and `back` with
-- the return value and what reached the user's buffer.
pub data Reader : Type 0 where
  idle waiting sleeping taking : Reader
  entered : Bool → Reader
  took : ℕ → Reader
  back : ℤ → Option ℕ → Reader

-- The device's data: the flag, the readers by number, whether a listener is registered by fasync,
-- the SIGIO signals sent to it, the current time, when the timer is due (`none`: not armed), and whether
-- the timer's handler has set the flag and has not yet notified anybody.
pub record Keys : Type 0 where
  pub key_value : ℕ
  pub readers : ℕ → Reader
  pub fasync : Bool
  pub sigio : ℕ
  pub jiffies : ℕ
  pub due : Option ℕ
  pub notifying : Bool

unfoldable pub fresh : Keys
fresh = record {
  key_value = 0;
  readers = λ _. idle;
  fasync = false;
  sigio = 0;
  jiffies = 0;
  due = none;
  notifying = false;
}

abbrev update : (ℕ → Reader) → ℕ → Reader → ℕ → Reader
update f i r j = if i == j then r else f j

-- One step of char_dev_read: the new flag and where the reader is then. `left` is what
-- copy_to_user returns, the number of bytes that it could not copy.
unfoldable pub read_step : ℕ → ℕ → Reader → ℕ × Reader
read_step key left (entered nonblock) =
    if key == 0 then (key, if nonblock then back eagain none else waiting) else (key, taking)
read_step key left waiting = if key == 0 then (key, sleeping) else (key, taking)
read_step key left taking = (key, took key)
read_step key left (took value) = (0, back (pos left) (if left == 0 then some value else none))
read_step key left r = (key, r)

abbrev pub woken : Reader → Reader
woken sleeping = waiting
woken r = r

-- wake_up_interruptible: every sleeper tests its condition again.
abbrev pub wake_up : Keys → Keys
wake_up s = record s { readers = λ i. woken (s.readers i) }

-- A handler of the timer, in the two steps between which readers run: it finds the key's line at a level
-- and sets the flag, and then it notifies.
pub record Handler : Type 0 where
  pub set_value : Keys → ℕ → Keys
  pub notify : Keys → Keys

-- debounce_timer_handler of block_io.c and nonblock_io.c: atomic_set, and then wake_up_interruptible.
unfoldable pub set_key_value : Keys → ℕ → Keys
set_key_value s level = if level == 0 then record s { key_value = 1; notifying = true } else s

unfoldable pub notify_readers : Keys → Keys
notify_readers s = if s.notifying then wake_up (record s { notifying = false }) else s

abbrev pub debounce_timer_handler : Handler
debounce_timer_handler = record { set_value = set_key_value; notify = notify_readers }

-- gpio_interrupt_handler: the timer is due 50 ms from now, in jiffies.
unfoldable pub gpio_interrupt_handler : ℕ → Keys → Keys
gpio_interrupt_handler fifty_ms s = record s { due = some (s.jiffies + fifty_ms) }

unfoldable pub char_dev_poll : Keys → ℕ
char_dev_poll s = if s.key_value == 0 then 0 else 1

-- What can happen next: reader `i` starts to read, makes a step, or gets a signal; the key's line
-- rises; time passes; the timer finds the line at a level; its handler notifies; the listeners of fasync
-- change.
pub data Event : Type 0 where
  enter : ℕ → Bool → Event
  proceed : ℕ → ℕ → Event
  signal : ℕ → Event
  edge : Event
  tick : Event
  expire : ℕ → Event
  notified : Event
  listen : Bool → Event

abbrev can_enter : Reader → Bool
can_enter idle = true
can_enter (back _ _) = true
can_enter _ = false

abbrev interrupted : Reader → Reader
interrupted sleeping = back erestartsys none
interrupted r = r

abbrev pub is_due : Keys → Bool
is_due s = elim s.due [ none ↦ false | some t ↦ leb t s.jiffies ]

-- One event; a handler that runs is not started again, and a timer that is due may run late. The two
-- parameters are 50 ms in jiffies and the driver's timer handler.
module _ (fifty_ms : ℕ) (handler : Handler) where
  unfoldable pub step : Keys → Event → Keys
  unfolding gpio_interrupt_handler read_step
  step s (enter i nonblock) =
      if can_enter (s.readers i)
      then record s { readers = update s.readers i (entered nonblock) }
      else s
  step s (proceed i left) =
      let (key, r) = read_step s.key_value left (s.readers i) in
      record s { key_value = key; readers = update s.readers i r }
  step s (signal i) = record s { readers = update s.readers i (interrupted (s.readers i)) }
  step s edge = gpio_interrupt_handler fifty_ms s
  step s tick = record s { jiffies = s.jiffies + 1 }
  step s (expire level) =
      if is_due s && not s.notifying then handler.set_value (record s { due = none }) level else s
  step s notified = handler.notify s
  step s (listen on) = record s { fasync = on }

  unfoldable pub run : Keys → List Event → Keys
  run s [] = s
  run s (e ∷ es) = run (step s e) es
