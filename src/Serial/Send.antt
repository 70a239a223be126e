-- ===== src/Serial/Send.antt =====
-- What one call of virt_uart_start_tx sends.
use linux_driver_kb.Prelude.{
  ℕ, ap, length, zero, suc, ◌+◌, ◌-◌, ◌%◌, ◌^◌, ◌≤◌, ◌<◌, ◌≡◌, ◌≢◌, refl, false, ltb, if◌then◌else◌,
  List, [], ◌∷◌, get_or, arith, min, Bool-cases, ◌∙◌, inl, inr,
}
use mathlib.Core.Path.{ap₂}
use mathlib.Core.List.{foldl}
use linux_driver_kb.Serial.{
  SerialCore, Port, xmit_size, send_char, int_count, send_loop, virt_uart_start_tx,
}
use linux_driver_kb.Serial.Mask.{bit_and-mask}

-- The `n` characters from index `t` on, round the buffer.
unfoldable pub window : List ℕ → ℕ → ℕ → List ℕ
window buf t zero = []
window buf t (suc n) = get_or buf t 0 ∷ window buf ((t + 1) % xmit_size) n

-- How many characters lie between the indices.
abbrev pub waiting : ℕ → ℕ → ℕ
waiting head tail = (head + xmit_size - tail) % xmit_size

-- How many of them one call takes: a fifo's worth, and one if the fifo has no size.
abbrev pub batch : ℕ → ℕ → ℕ
batch zero n = min 1 n
batch (suc count) n = min (suc count) n

batch-le : (count n : ℕ) → batch count n ≤ n
batch-le zero n = omega arith
batch-le (suc count) n = omega arith

module _ (core : SerialCore) where
  pub record IsValid (p : Port core) : Type 0 where
    pub size : length p.buf ≡ xmit_size
    pub head_in : p.head < xmit_size
    pub tail_in : p.tail < xmit_size

  -- `n` characters have gone from `p` to `q`, and nothing else has changed.
  pub record Sent (p q : Port core) (n : ℕ) : Type 0 where
    pub received : q.rx ≡ foldl core.insert_char p.rx (window p.buf p.tail n)
    pub moved : q.tail ≡ (p.tail + n) % xmit_size
    pub counted : q.icount_tx ≡ (p.icount_tx + n) % 2 ^ 32
    pub buf_kept : q.buf ≡ p.buf
    pub head_kept : q.head ≡ p.head
    pub fifo_kept : q.fifosize ≡ p.fifosize
    pub x_kept : q.x_char ≡ p.x_char
    pub stop_kept : q.tx_stopped ≡ p.tx_stopped
    pub wakeups_kept : q.wakeups ≡ p.wakeups

  send_char-Sent : {p : Port core} → IsValid p → Sent p (send_char core p) 1
  unfolding send_char window
  send_char-Sent {p} v = record {
    received = refl;
    moved = bit_and-mask p.tail v.tail_in;
    counted = refl;
    buf_kept = refl;
    head_kept = refl;
    fifo_kept = refl;
    x_kept = refl;
    stop_kept = refl;
    wakeups_kept = refl;
  }

  Sent-trans : {p q r : Port core} (n : ℕ) → IsValid p → Sent p q 1 → Sent q r n → Sent p r (suc n)
  unfolding window
  Sent-trans {p} {q} {r} n v a b = record {
    received =
        b.received
        ∙ ap₂ (foldl core.insert_char) a.received (λ i. window (a.buf_kept i) (a.moved i) n);
    moved = omega (arith, a.moved, b.moved);
    counted = omega (arith, a.counted, b.counted);
    buf_kept = b.buf_kept ∙ a.buf_kept;
    head_kept = b.head_kept ∙ a.head_kept;
    fifo_kept = b.fifo_kept ∙ a.fifo_kept;
    x_kept = b.x_kept ∙ a.x_kept;
    stop_kept = b.stop_kept ∙ a.stop_kept;
    wakeups_kept = b.wakeups_kept ∙ a.wakeups_kept;
  }

  pub Sent-IsValid : {p q : Port core} (n : ℕ) → IsValid p → Sent p q n → IsValid q
  Sent-IsValid n v a = omega (arith, a.moved, a.head_kept, ap length a.buf_kept)

  -- The loop sends a batch, if there is anything to send.
  pub send_loop-Sent :
      (count : ℕ) {p : Port core}
      → IsValid p
      → 0 < waiting p.head p.tail
      → Sent p (send_loop core count p) (batch count (waiting p.head p.tail))
  unfolding send_loop
  send_loop-Sent zero {p} v some_left =
      let one : min 1 (waiting p.head p.tail) ≡ 1 = omega arith in rw one (send_char-Sent v)
  send_loop-Sent (suc zero) {p} v some_left =
      let one : min 1 (waiting p.head p.tail) ≡ 1 = omega arith in rw one (send_char-Sent v)
  send_loop-Sent (suc (suc c)) {p} v some_left =
      let sent = send_char core p in
      let a = send_char-Sent v in
      let v' = Sent-IsValid 1 v a in
      let split = core.circ_empty_iff sent.head sent.tail in
      elim (Bool-cases (core.circ_empty sent.head sent.tail)) [
        | inl empty ↦
            let last : min (suc (suc c)) (waiting p.head p.tail) ≡ 1 =
              omega (arith, split.0 empty, a.moved, a.head_kept) in
            rw (empty, last) a
        | inr more ↦
            let differ : sent.head ≢ sent.tail = λ e. cc (split.1 e) in
            let left : 0 < waiting sent.head sent.tail = omega arith in
            let fewer : min (suc (suc c)) (waiting p.head p.tail)
                ≡ suc (min (suc c) (waiting sent.head sent.tail)) =
              omega (arith, a.moved, a.head_kept, differ) in
            rw (more, fewer)
              (Sent-trans (min (suc c) (waiting sent.head sent.tail)) v a
                (send_loop-Sent (suc c) v' left))
      ]

  -- On a port whose indices lie in the buffer, with something waiting, no XON/XOFF character pending
  -- and transmission not stopped, a call keeps the indices in the buffer and sends the oldest
  -- characters, at most a fifo's worth (its size read as an int, and one where that is not positive), in
  -- their order; the receive side gets exactly these and is pushed, the count grows by their number, and
  -- writers are woken when fewer than 256 are left.
  pub start_tx-sends :
      {p : Port core}
      → IsValid p
      → p.x_char ≡ 0
      → p.tx_stopped ≡ false
      → 0 < waiting p.head p.tail
      → let n = batch (int_count p.fifosize) (waiting p.head p.tail) in
        let q = virt_uart_start_tx core p in
        (q.rx ≡ core.flip_push (foldl core.insert_char p.rx (window p.buf p.tail n)))
        × (waiting q.head q.tail + n ≡ waiting p.head p.tail)
        × (q.icount_tx ≡ (p.icount_tx + n) % 2 ^ 32)
        × (q.wakeups ≡ (if ltb (waiting q.head q.tail) 256 then p.wakeups + 1 else p.wakeups))
        × IsValid q
  unfolding virt_uart_start_tx
  start_tx-sends {p} v x st left =
      let n = batch (int_count p.fifosize) (waiting p.head p.tail) in
      let sent = send_loop core (int_count p.fifosize) p in
      let a = send_loop-Sent (int_count p.fifosize) v left in
      let v' = Sent-IsValid n v a in
      let busy : core.circ_empty p.head p.tail ≡ false =
        ground (arith, core.circ_empty_iff p.head p.tail) in
      ground (
        arith,
        a,
        v',
        busy,
        batch-le (int_count p.fifosize) (waiting p.head p.tail),
        core.chars_pending_eq sent.head sent.tail,
      )
