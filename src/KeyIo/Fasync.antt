-- ===== src/KeyIo/Fasync.antt =====
-- The timer handler of fasync_io.c and fasync_io_misc.c: a listener gets SIGIO, and then sleeping
-- readers are not woken.
use linux_driver_kb.Prelude.{
  ℕ, ◌+◌, ◌≡◌, ◌≢◌, ◌⊎◌, inl, inr, refl, true, false, List, [], ◌∷◌, arith, if◌then◌else◌,
  Bool-cases,
}
use linux_driver_kb.KeyIo.{
  Keys, Reader, idle, waiting, sleeping, taking, entered, took, back, woken, Event, enter, proceed,
  signal, edge, tick, expire, notified, listen, wake_up, Handler, set_key_value, step, run, is_due,
}

-- atomic_set, and then the test of p->fasync with its two branches.
unfoldable pub notify_one : Keys → Keys
notify_one s =
    let now = record s { notifying = false } in
    if s.notifying
    then (if s.fasync then record now { sigio = s.sigio + 1 } else wake_up now)
    else s

abbrev pub debounce_timer_handler : Handler
debounce_timer_handler = record { set_value = set_key_value; notify = notify_one }

-- The same function of fasync_io_misc.c.
abbrev misc_timer_handler : Handler
misc_timer_handler = debounce_timer_handler

-- The listener stays registered, and reader `i` gets no signal.
abbrev pub Quiet : ℕ → Event → Type 0
Quiet i (signal j) = j ≢ i
Quiet i (listen on) = on ≡ true
Quiet i _ = Unit

abbrev pub AllQuiet : ℕ → List Event → Type 0
AllQuiet i [] = Unit
AllQuiet i (e ∷ es) = Quiet i e × AllQuiet i es

step_asleep :
    (fifty_ms : ℕ) (i : ℕ) (s : Keys) (e : Event)
    → Quiet i e
    → s.fasync ≡ true
    → s.readers i ≡ sleeping
    → let s' = step fifty_ms debounce_timer_handler s e in
      (s'.fasync ≡ true) × (s'.readers i ≡ sleeping)
unfolding step set_key_value notify_one
step_asleep t i s (enter j nb) q f z = ground arith
step_asleep t i s (proceed j left) q f z = ground arith
step_asleep t i s (signal j) q f z = ground arith
step_asleep t i s edge q f z = ground arith
step_asleep t i s tick q f z = ground arith
step_asleep t i s (expire level) q f z = ground arith
step_asleep t i s notified q f z = ground arith
step_asleep t i s (listen on) q f z = ground arith

-- While a listener is registered, a reader that sleeps goes on sleeping, however often the key is
-- pressed, unless a signal reaches it.
pub run_asleep :
    (fifty_ms : ℕ) (i : ℕ) (es : List Event) (s : Keys)
    → AllQuiet i es
    → s.fasync ≡ true
    → s.readers i ≡ sleeping
    → (run fifty_ms debounce_timer_handler s es).readers i ≡ sleeping
unfolding run
run_asleep t i [] s q f z = z
run_asleep t i (e ∷ es) s (q, qs) f z =
    let (f', z') = step_asleep t i s e q f z in
    run_asleep t i es (step t debounce_timer_handler s e) qs f' z'

pub woken-ne-sleeping : (r : Reader) → woken r ≢ sleeping
woken-ne-sleeping idle e = cc
woken-ne-sleeping waiting e = cc
woken-ne-sleeping sleeping e = cc
woken-ne-sleeping taking e = cc
woken-ne-sleeping (entered nb) e = cc
woken-ne-sleeping (took v) e = cc
woken-ne-sleeping (back r v) e = cc

-- When the timer is due and the key is down, the handler sets the flag, and then either a listener gets one
-- more SIGIO or no reader is left asleep.
pub expire_notifies :
    (fifty_ms : ℕ) (s : Keys)
    → is_due s ≡ true
    → s.notifying ≡ false
    → let s' = run fifty_ms debounce_timer_handler s (expire 0 ∷ notified ∷ []) in
      (s'.key_value ≡ 1)
      × (((s.fasync ≡ true) × (s'.sigio ≡ s.sigio + 1))
          ⊎ ((s'.sigio ≡ s.sigio) × ((i : ℕ) → s'.readers i ≢ sleeping)))
unfolding run step set_key_value notify_one
expire_notifies t s due free = elim (Bool-cases s.fasync) [
  | inl on ↦ rw (due, free, on) (refl, inl (refl, refl))
  | inr off ↦ rw (due, free, off) (refl, inr (refl, λ i. woken-ne-sleeping (s.readers i)))
]
