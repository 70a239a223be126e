-- ===== src/Serial/Drain.antt =====
-- The transmit buffer runs empty.
use linux_driver_kb.Prelude.{ℕ, zero, suc, ◌-◌, ◌*◌, min, dec_lt, ◌≤◌, ◌<◌, ◌≡◌, true, false, arith}
use linux_driver_kb.Serial.{SerialCore, Port, int_count, virt_uart_start_tx, virt_uart_tx_empty}
use linux_driver_kb.Serial.Send.{IsValid, waiting, batch, send_loop-Sent, start_tx-sends}

module _ (core : SerialCore) where
  -- `k` calls, with nothing written in between.
  unfoldable pub calls : ℕ → Port core → Port core
  calls zero p = p
  calls (suc k) p = calls k (virt_uart_start_tx core p)

  -- A port as virt_uart_probe sets it up, free to send.
  pub record IsReady (p : Port core) : Type 0 where
    pub valid : IsValid core p
    pub no_x_char : p.x_char ≡ 0
    pub running : p.tx_stopped ≡ false
    pub fifo : p.fifosize ≡ 32

  start_tx-idle :
      {p : Port core} → IsReady p → waiting p.head p.tail ≡ 0 → virt_uart_start_tx core p ≡ p
  unfolding virt_uart_start_tx
  start_tx-idle {p} r none_left =
      let same : p.head ≡ p.tail = omega (arith, r.valid) in
      rw (r.no_x_char, (core.circ_empty_iff p.head p.tail).1 same)

  start_tx-keeps :
      {p : Port core}
      → IsReady p
      → 0 < waiting p.head p.tail
      → let q = virt_uart_start_tx core p in
        (q.x_char ≡ 0) × (q.tx_stopped ≡ false) × (q.fifosize ≡ 32)
  unfolding virt_uart_start_tx
  start_tx-keeps {p} r left =
      ground (arith, r, send_loop-Sent core (int_count p.fifosize) r.valid left)

  start_tx-IsReady :
      {p : Port core}
      → IsReady p
      → let q = virt_uart_start_tx core p in
        IsReady q × (waiting q.head q.tail ≡ waiting p.head p.tail - 32)
  start_tx-IsReady {p} r = elim (dec_lt 0 (waiting p.head p.tail)) [
    | yes left ↦
        let sent = start_tx-sends core r.valid r.no_x_char r.running left in
        let (x, stop, fifo) = start_tx-keeps r left in
        let size : batch (int_count p.fifosize) (waiting p.head p.tail)
            ≡ min 32 (waiting p.head p.tail) =
          rw r.fifo in
        (
          record { valid = sent.4; no_x_char = x; running = stop; fifo = fifo },
          omega (arith, sent.1, size),
        )
    | no done ↦
        let idle : waiting p.head p.tail ≡ 0 = omega arith in
        rw (start_tx-idle r idle) (r, omega arith)
  ]

  -- A valid port with a fifo of 32 characters, no XON/XOFF character pending and transmission not
  -- stopped has sent all that waited after as many calls as it takes
  -- fifos to hold it; tx_empty then says so.
  pub calls-drain :
      (k : ℕ) {p : Port core}
      → IsReady p
      → waiting p.head p.tail ≤ k * 32
      → virt_uart_tx_empty core (calls k p) ≡ true
  unfolding calls virt_uart_tx_empty
  calls-drain zero {p} r few = ground (arith, core.circ_empty_iff p.head p.tail, r.valid)
  calls-drain (suc k) {p} r few =
      let (ready, fewer) = start_tx-IsReady r in calls-drain k ready (omega (arith, fewer))
