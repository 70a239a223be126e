-- ===== src/Serial/Tests.antt =====
-- The theorems about the serial port at a concrete port, over a receive side that is a list.
use linux_driver_kb.Prelude.{
  ℕ, ◌+◌, ◌-◌, ◌%◌, ◌^◌, ◌≡◌, refl, true, false, List, [], ◌∷◌, ◌++◌, arith, ltb, ◌==◌, ==_iff,
  if◌then◌else◌, replicate,
}
use mathlib.Core.List.{foldl}
use linux_driver_kb.Serial.{
  SerialCore, Port, xmit_size, virt_uart_start_tx, virt_uart_tx_empty, send_loop, send_char,
}
use linux_driver_kb.Serial.Send.{IsValid, waiting, window, start_tx-sends}
use linux_driver_kb.Serial.Drain.{calls, calls-drain}

abbrev lists : SerialCore
lists = record {
  Rx = List ℕ;
  insert_char = λ rx c. rx ++ (c ∷ []);
  flip_push = λ rx. rx;
  circ_empty = λ head tail. head == tail;
  chars_pending = λ head tail. (head + xmit_size - tail) % xmit_size;
  circ_empty_iff = ==_iff;
  chars_pending_eq = λ head tail h t. refl;
}

-- Three characters wait, round the end of the buffer.
abbrev port : Port lists
port = record {
  buf = 66 ∷ 67 ∷ replicate 4094 65;
  head = 2;
  tail = 4095;
  x_char = 0;
  tx_stopped = false;
  fifosize = 32;
  icount_tx = 0;
  rx = [];
  wakeups = 0;
}

port-IsValid : IsValid lists port
port-IsValid = record { size = refl; head_in = omega arith; tail_in = omega arith }

port_sends : (virt_uart_start_tx lists port).rx ≡ 65 ∷ 66 ∷ 67 ∷ []
unfolding virt_uart_start_tx send_loop send_char
port_sends = refl

start_tx-sends_example :
    let q = virt_uart_start_tx lists port in
    (q.rx ≡ foldl (λ rx c. rx ++ (c ∷ [])) [] (window port.buf 4095 3))
    × (waiting q.head q.tail + 3 ≡ 3)
    × (q.icount_tx ≡ (0 + 3) % 2 ^ 32)
    × (q.wakeups ≡ (if ltb (waiting q.head q.tail) 256 then 0 + 1 else 0))
    × IsValid lists q
start_tx-sends_example = start_tx-sends lists port-IsValid refl refl (omega arith)

calls-drain_example : virt_uart_tx_empty lists (calls lists 1 port) ≡ true
calls-drain_example =
    calls-drain lists 1
      (record { valid = port-IsValid; no_x_char = refl; running = refl; fifo = refl }) (omega arith)
