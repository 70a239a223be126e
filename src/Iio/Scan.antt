-- ===== src/Iio/Scan.antt =====
-- The mutex of fake_iiodev.c: lux_auto_change and fake_iiodev_trigger_handler cut into steps that can come in
-- any order.
use linux_driver_kb.Prelude.{
  ℕ, ◌+◌, ◌/◌, ◌%◌, ◌≡◌, refl, ◌∙◌, Option, none, some, List, [], ◌∷◌, arith,
}

-- The two handlers, each of which runs again and again.
pub data Who : Type 0 where
  timer trigger : Who

-- Where lux_auto_change is: before mutex_lock, before the increment, before the halving, before mutex_unlock.
pub data TimerAt : Type 0 where
  timer_idle timer_locked timer_counted timer_halved : TimerAt

-- Where fake_iiodev_trigger_handler is: before mutex_lock, before the copy of channel 0 and of channel 1,
-- before mutex_unlock, before the push.
pub data TriggerAt : Type 0 where
  trigger_idle trigger_locked trigger_first trigger_second trigger_unlocked : TriggerAt

-- The light, the mutex, the two handlers with the trigger's `data`, and the scans that were pushed.
pub record Scan : Type 0 where
  pub lux0 : ℕ
  pub lux1 : ℕ
  pub lock : Option Who
  pub timer_at : TimerAt
  pub trigger_at : TriggerAt
  pub data0 : ℕ
  pub data1 : ℕ
  pub scans : List (ℕ × ℕ)

unfoldable pub dark : Scan
dark = record {
  lux0 = 0;
  lux1 = 0;
  lock = none;
  timer_at = timer_idle;
  trigger_at = trigger_idle;
  data0 = 0;
  data1 = 0;
  scans = [];
}

-- mutex_lock: a handler that finds the mutex taken waits.
abbrev lock_or_wait : Option Who → Scan → Scan → Scan
lock_or_wait none locked s = locked
lock_or_wait (some _) locked s = s

-- The timer's events are pushed inside its lock and change
-- neither the light nor a scan.
unfoldable pub timer_step : TimerAt → Scan → Scan
timer_step timer_idle s =
    lock_or_wait s.lock (record s { lock = some timer; timer_at = timer_locked }) s
timer_step timer_locked s = record s { lux0 = (s.lux0 + 1) % 256; timer_at = timer_counted }
timer_step timer_counted s = record s { lux1 = s.lux0 / 2; timer_at = timer_halved }
timer_step timer_halved s = record s { lock = none; timer_at = timer_idle }

unfoldable pub trigger_step : TriggerAt → Scan → Scan
trigger_step trigger_idle s =
    lock_or_wait s.lock (record s { lock = some trigger; trigger_at = trigger_locked }) s
trigger_step trigger_locked s = record s { data0 = s.lux0; trigger_at = trigger_first }
trigger_step trigger_first s = record s { data1 = s.lux1; trigger_at = trigger_second }
trigger_step trigger_second s = record s { lock = none; trigger_at = trigger_unlocked }
trigger_step trigger_unlocked s = record s {
  scans = (s.data0, s.data1) ∷ s.scans;
  trigger_at = trigger_idle;
}

unfoldable pub step : Scan → Who → Scan
step s timer = timer_step s.timer_at s
step s trigger = trigger_step s.trigger_at s

unfoldable pub run : Scan → List Who → Scan
run s [] = s
run s (w ∷ ws) = run (step s w) ws

-- Every scan is a light and the half of it.
abbrev pub AllHalved : List (ℕ × ℕ) → Type 0
AllHalved [] = Unit
AllHalved ((a, b) ∷ ps) = (b ≡ a / 2) × AllHalved ps

-- What holds of the timer at each place, of the light and the mutex.
abbrev TimerHolds : TimerAt → Scan → Type 0
TimerHolds timer_idle s = s.lux1 ≡ s.lux0 / 2
TimerHolds timer_locked s = (s.lock ≡ some timer) × (s.lux1 ≡ s.lux0 / 2)
TimerHolds timer_counted s = s.lock ≡ some timer
TimerHolds timer_halved s = (s.lock ≡ some timer) × (s.lux1 ≡ s.lux0 / 2)

abbrev TriggerHolds : TriggerAt → Scan → Type 0
TriggerHolds trigger_idle s = Unit
TriggerHolds trigger_locked s = s.lock ≡ some trigger
TriggerHolds trigger_first s = (s.lock ≡ some trigger) × (s.data0 ≡ s.lux0)
TriggerHolds trigger_second s = (s.lock ≡ some trigger) × (s.data1 ≡ s.data0 / 2)
TriggerHolds trigger_unlocked s = s.data1 ≡ s.data0 / 2

record IsGuarded (s : Scan) : Type 0 where
  by_timer : TimerHolds s.timer_at s
  by_trigger : TriggerHolds s.trigger_at s
  halved : AllHalved s.scans

not_both : (o : Option Who) → o ≡ some timer → o ≡ some trigger → ⊥
not_both o h k = cc (h, k)

-- Whoever holds the mutex, the other is at a place where only its own data counts.
trigger_alone :
    (at : TriggerAt) (s s' : Scan)
    → (s.lock ≡ some trigger → ⊥)
    → s'.data0 ≡ s.data0
    → s'.data1 ≡ s.data1
    → TriggerHolds at s
    → TriggerHolds at s'
trigger_alone trigger_idle s s' free d e h = tt
trigger_alone trigger_locked s s' free d e h = absurd (free h)
trigger_alone trigger_first s s' free d e (h, k) = absurd (free h)
trigger_alone trigger_second s s' free d e (h, k) = absurd (free h)
trigger_alone trigger_unlocked s s' free d e h = omega (arith, d, e, h)

timer_alone :
    (at : TimerAt) (s s' : Scan)
    → (s.lock ≡ some timer → ⊥)
    → s'.lux0 ≡ s.lux0
    → s'.lux1 ≡ s.lux1
    → TimerHolds at s
    → TimerHolds at s'
timer_alone timer_idle s s' free d e h = omega (arith, d, e, h)
timer_alone timer_locked s s' free d e (h, k) = absurd (free h)
timer_alone timer_counted s s' free d e h = absurd (free h)
timer_alone timer_halved s s' free d e (h, k) = absurd (free h)

timer_frame :
    (at : TimerAt) (s s' : Scan)
    → s'.lock ≡ s.lock
    → s'.lux0 ≡ s.lux0
    → s'.lux1 ≡ s.lux1
    → TimerHolds at s
    → TimerHolds at s'
timer_frame timer_idle s s' l d e h = omega (arith, d, e, h)
timer_frame timer_locked s s' l d e (h, k) = (l ∙ h, omega (arith, d, e, k))
timer_frame timer_counted s s' l d e h = l ∙ h
timer_frame timer_halved s s' l d e (h, k) = (l ∙ h, omega (arith, d, e, k))

lock-Guarded :
    (o : Option Who) (locked s : Scan)
    → (o ≡ none → IsGuarded locked)
    → IsGuarded s
    → IsGuarded (lock_or_wait o locked s)
lock-Guarded none locked s h g = h refl
lock-Guarded (some w) locked s h g = g

timer-Guarded :
    (at : TimerAt) (s : Scan)
    → s.timer_at ≡ at
    → TimerHolds at s
    → TriggerHolds s.trigger_at s
    → AllHalved s.scans
    → IsGuarded (timer_step at s)
unfolding timer_step
timer-Guarded timer_idle s e h g a =
    let s' = record s { lock = some timer; timer_at = timer_locked } in
    lock-Guarded s.lock s' s
      (λ free. record {
        by_timer = (refl, h);
        by_trigger = trigger_alone s.trigger_at s s' (λ k. cc (free, k)) refl refl g;
        halved = a;
      })
      (record { by_timer = rw e h; by_trigger = g; halved = a })
timer-Guarded timer_locked s e (h, k) g a =
    let s' = record s { lux0 = (s.lux0 + 1) % 256; timer_at = timer_counted } in
    record {
      by_timer = h;
      by_trigger = trigger_alone s.trigger_at s s' (not_both s.lock h) refl refl g;
      halved = a;
    }
timer-Guarded timer_counted s e h g a =
    let s' = record s { lux1 = s.lux0 / 2; timer_at = timer_halved } in
    record {
      by_timer = (h, refl);
      by_trigger = trigger_alone s.trigger_at s s' (not_both s.lock h) refl refl g;
      halved = a;
    }
timer-Guarded timer_halved s e (h, k) g a =
    let s' = record s { lock = none; timer_at = timer_idle } in
    record {
      by_timer = k;
      by_trigger = trigger_alone s.trigger_at s s' (not_both s.lock h) refl refl g;
      halved = a;
    }

-- While the trigger holds the mutex, the light is a light and its half.
light_halved :
    (at : TimerAt) (s : Scan) → s.lock ≡ some trigger → TimerHolds at s → s.lux1 ≡ s.lux0 / 2
light_halved timer_idle s held h = h
light_halved timer_locked s held (h, k) = k
light_halved timer_counted s held h = absurd (not_both s.lock h held)
light_halved timer_halved s held (h, k) = k

trigger-Guarded :
    (at : TriggerAt) (s : Scan)
    → s.trigger_at ≡ at
    → TriggerHolds at s
    → TimerHolds s.timer_at s
    → AllHalved s.scans
    → IsGuarded (trigger_step at s)
unfolding trigger_step
trigger-Guarded trigger_idle s e h t a =
    let s' = record s { lock = some trigger; trigger_at = trigger_locked } in
    lock-Guarded s.lock s' s
      (λ free. record {
        by_timer = timer_alone s.timer_at s s' (λ k. cc (free, k)) refl refl t;
        by_trigger = refl;
        halved = a;
      })
      (record { by_timer = t; by_trigger = rw e tt; halved = a })
trigger-Guarded trigger_locked s e h t a =
    let s' = record s { data0 = s.lux0; trigger_at = trigger_first } in
    record {
      by_timer = timer_frame s.timer_at s s' refl refl refl t;
      by_trigger = (h, refl);
      halved = a;
    }
trigger-Guarded trigger_first s e (h, k) t a =
    let s' = record s { data1 = s.lux1; trigger_at = trigger_second } in
    let half = light_halved s.timer_at s h t in
    record {
      by_timer = timer_frame s.timer_at s s' refl refl refl t;
      by_trigger = (h, omega (arith, half, k));
      halved = a;
    }
trigger-Guarded trigger_second s e (h, k) t a =
    let s' = record s { lock = none; trigger_at = trigger_unlocked } in
    record {
      by_timer = timer_alone s.timer_at s s' (λ m. not_both s.lock m h) refl refl t;
      by_trigger = k;
      halved = a;
    }
trigger-Guarded trigger_unlocked s e h t a =
    let s' = record s { scans = (s.data0, s.data1) ∷ s.scans; trigger_at = trigger_idle } in
    record {
      by_timer = timer_frame s.timer_at s s' refl refl refl t;
      by_trigger = tt;
      halved = (h, a);
    }

step-Guarded : (s : Scan) (w : Who) → IsGuarded s → IsGuarded (step s w)
unfolding step
step-Guarded s timer g = timer-Guarded s.timer_at s refl g.by_timer g.by_trigger g.halved
step-Guarded s trigger g = trigger-Guarded s.trigger_at s refl g.by_trigger g.by_timer g.halved

run-Guarded : (ws : List Who) (s : Scan) → IsGuarded s → IsGuarded (run s ws)
unfolding run
run-Guarded [] s g = g
run-Guarded (w ∷ ws) s g = run-Guarded ws (step s w) (step-Guarded s w g)

dark-Guarded : IsGuarded dark
unfolding dark
dark-Guarded = record { by_timer = refl; by_trigger = tt; halved = tt }

-- However the steps of the timer's handler and of the trigger's are mixed: no scan that is pushed has the light
-- of one moment and the half of another.
pub run-halved : (ws : List Who) → AllHalved (run dark ws).scans
run-halved ws = (run-Guarded ws dark dark-Guarded).halved

-- Whenever the mutex is free, the light is one and its half; a run of the timer's handler takes it from a light
-- to the next as lux_auto_change does in one step.
timer_round :
    (s : Scan)
    → s.lock ≡ none
    → s.timer_at ≡ timer_idle
    → let s' = run s (timer ∷ timer ∷ timer ∷ timer ∷ []) in
      (s'.lux0 ≡ (s.lux0 + 1) % 256) × (s'.lux1 ≡ (s.lux0 + 1) % 256 / 2) × (s'.lock ≡ none)
unfolding run step timer_step
timer_round s free idle = rw (idle, free) (refl, refl, refl)
