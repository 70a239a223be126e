-- ===== src/Net/Loop.antt =====
-- The operations of vnet.c: frames that the kernel sends through the device come back from it.
use linux_driver_kb.Prelude.{
  ℕ, ◌≡◌, sym, ◌∙◌, Bool, true, false, if◌then◌else◌, List, [], ◌∷◌, ◌++◌, append-nil, append_assoc,
}
use linux_driver_kb.Prelude.Int.{ℤ, pos}

abbrev pub Frame : Type 0
Frame = List ℕ

-- Whether the queue is started, and the frames that were handed to netif_rx, the oldest first.
pub record Device : Type 0 where
  pub queue : Bool
  pub received : List Frame

unfoldable pub vnet_open : Device → ℤ × Device
vnet_open s = (pos 0, record s { queue = true })

unfoldable pub vnet_release : Device → ℤ × Device
vnet_release s = (pos 0, record s { queue = false })

-- NETDEV_TX_OK is 0.
unfoldable pub vnet_start_xmit : Frame → Device → ℤ × Device
vnet_start_xmit skb s = (pos 0, record s { received = s.received ++ skb ∷ [] })

-- What the network core does with the device.
pub data Event : Type 0 where
  up down : Event
  send : Frame → Event

-- The core sends only while the queue is started.
unfoldable pub step : Device → Event → Device
unfolding vnet_open vnet_release vnet_start_xmit
step s up = (vnet_open s).1
step s down = (vnet_release s).1
step s (send skb) = if s.queue then (vnet_start_xmit skb s).1 else s

unfoldable pub run : Device → List Event → Device
unfolding step
run s [] = s
run s (e ∷ es) = run (step s e) es

-- The frames that are sent while the device is open; `is_open`: it is open at first.
abbrev pub sent_while_open : Bool → List Event → List Frame
sent_while_open is_open [] = []
sent_while_open is_open (up ∷ es) = sent_while_open true es
sent_while_open is_open (down ∷ es) = sent_while_open false es
sent_while_open true (send skb ∷ es) = skb ∷ sent_while_open true es
sent_while_open false (send skb ∷ es) = sent_while_open false es

run-received :
    (is_open : Bool) (old : List Frame) (es : List Event)
    → (run (record { queue = is_open; received = old }) es).received
      ≡ old ++ sent_while_open is_open es
unfolding run step vnet_open vnet_release vnet_start_xmit
run-received is_open old [] = sym (append-nil old)
run-received is_open old (up ∷ es) = run-received true old es
run-received is_open old (down ∷ es) = run-received false old es
run-received true old (send skb ∷ es) =
    run-received true (old ++ skb ∷ []) es ∙ append_assoc old (skb ∷ []) (sent_while_open true es)
run-received false old (send skb ∷ es) = run-received false old es

-- Whatever is opened, stopped and sent: the kernel gets back exactly the frames that it sent while the
-- device was open, unchanged and in their order.
pub run-sent_while_open :
    (es : List Event)
    → (run (record { queue = false; received = [] }) es).received ≡ sent_while_open false es
run-sent_while_open es = run-received false [] es
