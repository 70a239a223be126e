-- ===== src/KeyIo/Value.antt =====
-- What a read of a key driver delivers.
use linux_driver_kb.Prelude.{ℕ, ◌≤◌, ◌≡◌, ◌≢◌, Bool, some, List, [], ◌∷◌, arith}
use linux_driver_kb.Prelude.Int.{ℤ, pos}
use linux_driver_kb.KeyIo.{
  Keys, idle, taking, took, back, Event, enter, proceed, signal, edge, tick, expire, notified,
  listen, fresh, debounce_timer_handler, set_key_value, notify_readers, char_dev_poll, step, run,
}

-- Reader 0 and the flag, where nobody else reads.
pub record IsSingle (s : Keys) : Type 0 where
  pub flag : s.key_value ≤ 1
  pub taking_one : s.readers 0 ≡ taking → s.key_value ≡ 1
  pub took_one : (v : ℕ) → s.readers 0 ≡ took v → v ≡ 1
  pub back_one : (r : ℤ) (v : ℕ) → s.readers 0 ≡ back r (some v) → (v ≡ 1) × (r ≡ pos 0)

-- The event concerns no other reader.
abbrev pub Alone : Event → Type 0
Alone (enter i nb) = i ≡ 0
Alone (proceed i left) = i ≡ 0
Alone (signal i) = i ≡ 0
Alone _ = Unit

abbrev pub AllAlone : List Event → Type 0
AllAlone [] = Unit
AllAlone (e ∷ es) = Alone e × AllAlone es

step-IsSingle :
    (fifty_ms : ℕ) (s : Keys) (e : Event)
    → Alone e
    → IsSingle s
    → IsSingle (step fifty_ms debounce_timer_handler s e)
unfolding step set_key_value notify_readers
step-IsSingle t s (enter i nb) a h = grind arith
step-IsSingle t s (proceed i left) a h = grind arith
step-IsSingle t s (signal i) a h = grind arith
step-IsSingle t s edge a h = grind arith
step-IsSingle t s tick a h = grind arith
step-IsSingle t s (expire level) a h = grind arith
step-IsSingle t s notified a h = grind arith
step-IsSingle t s (listen on) a h = grind arith

run-IsSingle :
    (fifty_ms : ℕ) (es : List Event) (s : Keys)
    → AllAlone es
    → IsSingle s
    → IsSingle (run fifty_ms debounce_timer_handler s es)
unfolding run
run-IsSingle t [] s a h = h
run-IsSingle t (e ∷ es) s (a, as') h =
    run-IsSingle t es (step t debounce_timer_handler s e) as' (step-IsSingle t s e a h)

fresh-IsSingle : IsSingle fresh
unfolding fresh
fresh-IsSingle = grind arith

-- With one reader, and whatever the key, the timer and signals do: a value that a read delivers is
-- 1, and then the call returns 0.
pub read-one :
    (fifty_ms : ℕ) (es : List Event) (r : ℤ) (v : ℕ)
    → AllAlone es
    → (run fifty_ms debounce_timer_handler fresh es).readers 0 ≡ back r (some v)
    → (v ≡ 1) × (r ≡ pos 0)
read-one t es r v a e = (run-IsSingle t es fresh a fresh-IsSingle).back_one r v e

-- Of two readers that have both seen the flag set, the second delivers 0.
pub second_taker-zero :
    (fifty_ms : ℕ) (s : Keys) (i j : ℕ)
    → i ≢ j
    → s.readers i ≡ taking
    → s.readers j ≡ taking
    → (run fifty_ms debounce_timer_handler s
          (proceed i 0 ∷ proceed i 0 ∷ proceed j 0 ∷ proceed j 0 ∷ [])).readers
        j
      ≡ back (pos 0) (some 0)
unfolding run step
second_taker-zero t s i j ne p q = ground arith

-- After poll has reported input, a read that nothing interrupts delivers the flag and clears it,
-- with O_NONBLOCK or without.
pub read-poll :
    (fifty_ms : ℕ) (s : Keys) (i : ℕ) (nonblock : Bool)
    → char_dev_poll s ≡ 1
    → s.readers i ≡ idle
    → let s' =
        run fifty_ms debounce_timer_handler s
          (enter i nonblock ∷ proceed i 0 ∷ proceed i 0 ∷ proceed i 0 ∷ []) in
      (s'.readers i ≡ back (pos 0) (some s.key_value)) × (s'.key_value ≡ 0)
unfolding run step char_dev_poll
read-poll t s i nonblock h p = ground arith
