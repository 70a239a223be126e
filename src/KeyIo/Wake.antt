-- ===== src/KeyIo/Wake.antt =====
-- No wake-up is lost in block_io.c and nonblock_io.c.
use linux_driver_kb.Prelude.{
  ℕ, zero, suc, ◌+◌, ◌≡◌, ◌≢◌, ◌⊎◌, refl, ap, ◌∙◌, true, false, some, List, [], ◌∷◌, ◌++◌,
  replicate, arith,
}
use linux_driver_kb.Prelude.Int.{pos}
use linux_driver_kb.KeyIo.{
  Keys, sleeping, back, Event, enter, proceed, signal, edge, tick, expire, notified, listen,
  gpio_interrupt_handler, set_key_value, notify_readers, debounce_timer_handler, step, run,
}

-- Nobody sleeps while there is a value to take, but for the moment between the setting of the flag and the
-- wake-up that follows it.
abbrev pub Awake : Keys → Type 0
Awake s = (i : ℕ) → s.readers i ≡ sleeping → (s.key_value ≡ 0) ⊎ (s.notifying ≡ true)

step-Awake :
    (fifty_ms : ℕ) (s : Keys) (e : Event)
    → Awake s
    → Awake (step fifty_ms debounce_timer_handler s e)
unfolding step set_key_value notify_readers
step-Awake t s (enter j nb) h i e = ground (arith, h i)
step-Awake t s (proceed j left) h i e = ground (arith, h i)
step-Awake t s (signal j) h i e = ground (arith, h i)
step-Awake t s edge h i e = h i e
step-Awake t s tick h i e = h i e
step-Awake t s (expire level) h i e = ground (arith, h i)
step-Awake t s notified h i e = ground (arith, h i)
step-Awake t s (listen on) h i e = h i e

all-Awake :
    (fifty_ms : ℕ) (es : List Event) (s : Keys)
    → Awake s
    → Awake (run fifty_ms debounce_timer_handler s es)
unfolding run
all-Awake t [] s h = h
all-Awake t (e ∷ es) s h = all-Awake t es (step t debounce_timer_handler s e) (step-Awake t s e h)

-- Whatever happens in whatever order, with any number of readers, and with readers that run between the two
-- steps of the handler: while `key_value` is set, a reader sleeps only if the handler has still to wake the
-- queue, and once it has, no reader sleeps on a flag that is set.
pub run-Awake :
    (fifty_ms : ℕ) (es : List Event) (s : Keys)
    → Awake s
    → let end = run fifty_ms debounce_timer_handler s es in
      let after = step fifty_ms debounce_timer_handler end notified in
      Awake end × ((i : ℕ) → after.readers i ≡ sleeping → after.key_value ≡ 0)
unfolding step notify_readers
run-Awake t es s h = let awake = all-Awake t es s h in (awake, λ i e. ground (arith, awake i))

-- Events before a press: the key's line bounces, time passes, others read and get signals. No handler runs.
abbrev pub Before : ℕ → Event → Type 0
Before i (signal j) = j ≢ i
Before i (expire level) = ⊥
Before i notified = ⊥
Before i _ = Unit

abbrev pub AllBefore : ℕ → List Event → Type 0
AllBefore i [] = Unit
AllBefore i (e ∷ es) = Before i e × AllBefore i es

abbrev Asleep : ℕ → Keys → Type 0
Asleep i s = (s.readers i ≡ sleeping) × (s.notifying ≡ false)

step-Asleep :
    (fifty_ms i : ℕ) (s : Keys) (e : Event)
    → Before i e
    → Asleep i s
    → Asleep i (step fifty_ms debounce_timer_handler s e)
unfolding step
step-Asleep t i s (enter j nb) b a = ground arith
step-Asleep t i s (proceed j left) b a = ground arith
step-Asleep t i s (signal j) b a = ground arith
step-Asleep t i s edge b a = a
step-Asleep t i s tick b a = a
step-Asleep t i s (expire level) b a = absurd b
step-Asleep t i s notified b a = absurd b
step-Asleep t i s (listen on) b a = a

run-append :
    (fifty_ms : ℕ) (es fs : List Event) (s : Keys)
    → run fifty_ms debounce_timer_handler s (es ++ fs)
      ≡ run fifty_ms debounce_timer_handler (run fifty_ms debounce_timer_handler s es) fs
unfolding run
run-append t [] fs s = refl
run-append t (e ∷ es) fs s = run-append t es fs (step t debounce_timer_handler s e)

run-Asleep :
    (fifty_ms i : ℕ) (es : List Event) (s : Keys)
    → AllBefore i es
    → Asleep i s
    → Asleep i (run fifty_ms debounce_timer_handler s es)
unfolding run
run-Asleep t i [] s b a = a
run-Asleep t i (e ∷ es) s (b, bs) a =
    run-Asleep t i es (step t debounce_timer_handler s e) bs (step-Asleep t i s e b a)

ticked :
    (fifty_ms n : ℕ) (s : Keys)
    → run fifty_ms debounce_timer_handler s (replicate n tick)
      ≡ record s { jiffies = s.jiffies + n }
unfolding run step
ticked t zero s = ap (λ k. record s { jiffies = k }) (omega arith)
ticked t (suc n) s =
    ticked t n (record s { jiffies = s.jiffies + 1 })
    ∙ ap (λ k. record s { jiffies = k }) (omega arith)

-- The timer's expiry, its handler and the reader's next steps.
abbrev pub delivery : ℕ → List Event
delivery i = expire 0 ∷ notified ∷ proceed i 0 ∷ proceed i 0 ∷ proceed i 0 ∷ []

press_path :
    (fifty_ms : ℕ) (s : Keys) (es : List Event)
    → run fifty_ms debounce_timer_handler s (edge ∷ (replicate fifty_ms tick ++ es))
      ≡ run fifty_ms debounce_timer_handler
          (record s { due = some (s.jiffies + fifty_ms); jiffies = s.jiffies + fifty_ms })
          es
unfolding run step gpio_interrupt_handler
press_path t s es =
    let pressed = record s { due = some (s.jiffies + t) } in
    run-append t (replicate t tick) es pressed
    ∙ ap (λ w. run t debounce_timer_handler w es) (ticked t t pressed)

delivered :
    (fifty_ms i : ℕ) (s : Keys)
    → Asleep i s
    → s.due ≡ some s.jiffies
    → let s' = run fifty_ms debounce_timer_handler s (delivery i) in
      (s'.readers i ≡ back (pos 0) (some 1)) × (s'.key_value ≡ 0)
unfolding run step set_key_value notify_readers
delivered t i s (z, free) due = ground (arith, z, free, due)

after_press :
    (fifty_ms i : ℕ) (s : Keys)
    → Asleep i s
    → let s' =
        run fifty_ms debounce_timer_handler s (edge ∷ (replicate fifty_ms tick ++ delivery i)) in
      (s'.readers i ≡ back (pos 0) (some 1)) × (s'.key_value ≡ 0)
after_press t i s a =
    let pressed = record s { due = some (s.jiffies + t) } in
    let late = record pressed { jiffies = s.jiffies + t } in
    let path : run t debounce_timer_handler s (edge ∷ (replicate t tick ++ delivery i))
        ≡ run t debounce_timer_handler late (delivery i) =
      press_path t s (delivery i) in
    rw path (delivered t i late a refl)

-- A press reaches a sleeper. However the line bounces before, and whatever other readers do: after the last
-- edge and 50 ms in which nothing else happens, the timer is due; if it finds the key down, the handler wakes
-- the reader, whose next steps deliver 1 and clear the flag.
pub press-read :
    (fifty_ms i : ℕ) (es : List Event) (s : Keys)
    → AllBefore i es
    → s.readers i ≡ sleeping
    → s.notifying ≡ false
    → let s' =
        run fifty_ms debounce_timer_handler s
          (es ++ (edge ∷ (replicate fifty_ms tick ++ delivery i))) in
      (s'.readers i ≡ back (pos 0) (some 1)) × (s'.key_value ≡ 0)
press-read t i es s b z free =
    rw (run-append t es (edge ∷ (replicate t tick ++ delivery i)) s)
      (after_press t i (run t debounce_timer_handler s es) (run-Asleep t i es s b (z, free)))
