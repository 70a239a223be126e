-- ===== src/Serial.antt =====
-- The virtual serial port of 24.串口/driver/serial-virt.c: what the port is given to send comes back
-- as received characters.
pub mod Mask
pub mod Send
pub mod Drain
pub mod Setup
mod Tests
use Prim.Native.Nat.{bit_and}
use linux_driver_kb.Prelude.{
  ℕ, zero, suc, ◌+◌, ◌-◌, ◌%◌, ◌^◌, ◌<◌, ◌≡◌, ◌↔◌, ◌||◌, Bool, true, not, List, get_or, ltb, leb,
  ◌==◌, if◌then◌else◌,
}

-- UART_XMIT_SIZE is the size of a page.
abbrev pub xmit_size : ℕ
xmit_size = 4096

-- What the driver uses of the serial core and the tty layer: the receive side with
-- uart_insert_char and tty_flip_buffer_push, and the tests of the transmit buffer's indices,
-- uart_circ_empty and uart_circ_chars_pending.
pub record SerialCore : Type 1 where
  pub Rx : Type 0
  pub insert_char : Rx → ℕ → Rx
  pub flip_push : Rx → Rx
  pub circ_empty : ℕ → ℕ → Bool
  pub chars_pending : ℕ → ℕ → ℕ
  pub circ_empty_iff : (head tail : ℕ) → (circ_empty head tail ≡ true) ↔ (head ≡ tail)
  pub chars_pending_eq :
      (head tail : ℕ)
      → head < xmit_size
      → tail < xmit_size
      → chars_pending head tail ≡ (head + xmit_size - tail) % xmit_size

abbrev wakeup_chars : ℕ
wakeup_chars = 256

-- int count = port->fifosize, as the number of rounds that it allows: a size above 2^31 is a negative
-- count, and 2^31 is the least one, from which --count wraps to the greatest.
abbrev pub int_count : ℕ → ℕ
int_count fifosize = if leb fifosize (2 ^ 31) then fifosize else 0

module _ (core : SerialCore) where
  -- The port: the transmit buffer `xmit` with its indices, the pending XON/XOFF character, whether
  -- transmission is stopped, the count of sent characters, what was received, and how often
  -- writers were woken.
  pub record Port : Type 0 where
    pub buf : List ℕ
    pub head : ℕ
    pub tail : ℕ
    pub x_char : ℕ
    pub tx_stopped : Bool
    pub fifosize : ℕ
    pub icount_tx : ℕ
    pub rx : core.Rx
    pub wakeups : ℕ

  unfoldable pub virt_uart_tx_empty : Port → Bool
  virt_uart_tx_empty p = core.circ_empty p.head p.tail

  -- The body of the loop: one character goes from `xmit` to the receive side.
  unfoldable pub send_char : Port → Port
  send_char p = record p {
    rx = core.insert_char p.rx (get_or p.buf p.tail 0);
    tail = bit_and (p.tail + 1) (xmit_size - 1);
    icount_tx = (p.icount_tx + 1) % 2 ^ 32;
  }

  -- do { … if (uart_circ_empty(xmit)) break; } while (--count > 0); the first round is made with any count.
  unfoldable pub send_loop : ℕ → Port → Port
  send_loop zero p = send_char p
  send_loop (suc zero) p = send_char p
  send_loop (suc (suc count)) p =
      let sent = send_char p in
      let rest = send_loop (suc count) sent in
      if core.circ_empty sent.head sent.tail then sent else rest

  unfoldable pub virt_uart_start_tx : Port → Port
  virt_uart_start_tx p =
      if not (p.x_char == 0)
      then record p { icount_tx = (p.icount_tx + 1) % 2 ^ 32; x_char = 0 }
      else if core.circ_empty p.head p.tail || p.tx_stopped
      then p
      else (let sent = send_loop (int_count p.fifosize) p in
          let woken =
            if ltb (core.chars_pending sent.head sent.tail) wakeup_chars
            then record sent { wakeups = sent.wakeups + 1 }
            else sent in
          record woken { rx = core.flip_push woken.rx })
