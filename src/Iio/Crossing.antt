-- ===== src/Iio/Crossing.antt =====
-- How often the thresholds are met while the timer runs.
use linux_driver_kb.Prelude.{
  ℕ, zero, suc, ◌+◌, ◌-◌, ◌*◌, ◌/◌, ◌%◌, ◌≤◌, ◌<◌, ◌≡◌, refl, ap, ◌∙◌, Bool, true, false, List, [],
  ◌∷◌, arith, length, ltb, ◌==◌, if◌then◌else◌,
}
use linux_driver_kb.Iio.{
  Channel, ch0, ch1, Direction, rising, falling, either, IioEvent, Priv, push_events,
  lux_auto_change, at,
}

-- The timer runs once at each of the times.
unfoldable pub elapse : ℕ → List ℕ → Priv → Priv
elapse hz [] s = s
elapse hz (now ∷ times) s = elapse hz times (lux_auto_change hz now s)

abbrev matches : IioEvent → IioEvent → Bool
matches (ch0, rising) (ch0, rising) = true
matches (ch0, falling) (ch0, falling) = true
matches (ch1, rising) (ch1, rising) = true
matches (ch1, falling) (ch1, falling) = true
matches _ _ = false

unfoldable pub count : IioEvent → List IioEvent → ℕ
count e [] = 0
count e (x ∷ xs) = (if matches e x then 1 else 0) + count e xs

-- What a channel shows of the light, and the threshold of an event.
abbrev shown : Channel → ℕ → ℕ
shown ch0 lux = lux
shown ch1 lux = lux / 2

abbrev pub level : Priv → Channel → Direction → ℕ
level s c rising = at s.high_thresh c
level s c falling = at s.low_thresh c
level s c either = 256

-- How often a channel shows `h` in the next `n` changes after the light `x`.
hits : Channel → ℕ → ℕ → ℕ → ℕ
hits c h x zero = 0
hits c h x (suc n) = (if shown c ((x + 1) % 256) == h then 1 else 0) + hits c h ((x + 1) % 256) n

hits-ch0 :
    (h x n : ℕ)
    → x < 256
    → h < 256
    → n ≤ 256
    → hits ch0 h x n ≡ (if ltb ((h + 255 - x) % 256) n then 1 else 0)
unfolding hits
hits-ch0 h x zero hx hh hn = ground arith
hits-ch0 h x (suc n) hx hh hn = ground (arith, hits-ch0 h ((x + 1) % 256) n)

hits-ch0_none : (h x n : ℕ) → x < 256 → 256 ≤ h → hits ch0 h x n ≡ 0
unfolding hits
hits-ch0_none h x zero hx hh = refl
hits-ch0_none h x (suc n) hx hh = ground (arith, hits-ch0_none h ((x + 1) % 256) n)

hits-ch1 : (h x n : ℕ) → hits ch1 h x n ≡ hits ch0 (2 * h) x n + hits ch0 (2 * h + 1) x n
unfolding hits
hits-ch1 h x zero = refl
hits-ch1 h x (suc n) = ground (arith, hits-ch1 h ((x + 1) % 256) n)

-- One run of the timer pushes one event more where the channel comes to show the threshold.
tick_counts :
    (hz now : ℕ) (c : Channel) (dir : Direction) (s : Priv)
    → at s.event c ≡ true
    → level s c dir < 256
    → let s' = lux_auto_change hz now s in
      (count (c, dir) s'.events
        ≡ (if shown c ((s.current_lux.0 + 1) % 256) == level s c dir then 1 else 0)
          + count (c, dir) s.events)
      × (s'.current_lux.0 ≡ (s.current_lux.0 + 1) % 256)
      × (s'.event ≡ s.event)
      × (s'.high_thresh ≡ s.high_thresh)
      × (s'.low_thresh ≡ s.low_thresh)
unfolding lux_auto_change push_events count
tick_counts hz now ch0 rising s on small = ground arith
tick_counts hz now ch0 falling s on small = ground arith
tick_counts hz now ch1 rising s on small = ground arith
tick_counts hz now ch1 falling s on small = ground arith
tick_counts hz now c either s on small = absurd (omega arith)

same_level :
    (s t : Priv) (c : Channel) (dir : Direction)
    → t.high_thresh ≡ s.high_thresh
    → t.low_thresh ≡ s.low_thresh
    → level t c dir ≡ level s c dir
same_level s t c rising high low = ap (λ p. at p c) high
same_level s t c falling high low = ap (λ p. at p c) low
same_level s t c either high low = refl

-- What is expected while the light goes once through all its values.
abbrev per_circle : Channel → ℕ → ℕ
per_circle ch0 h = 1
per_circle ch1 h = if ltb h 128 then 2 else 0

-- Once round all values of the light.
circle : (c : Channel) (h x : ℕ) → x < 256 → h < 256 → hits c h x 256 ≡ per_circle c h
circle ch0 h x hx hh = ground (arith, hits-ch0 h x 256 hx hh)
circle ch1 h x hx hh = ground (
  arith,
  hits-ch1 h x 256,
  hits-ch0 (2 * h) x 256,
  hits-ch0 (2 * h + 1) x 256,
  hits-ch0_none (2 * h) x 256,
  hits-ch0_none (2 * h + 1) x 256,
)

elapse_counts :
    (hz : ℕ) (c : Channel) (dir : Direction) (times : List ℕ) (s : Priv)
    → at s.event c ≡ true
    → level s c dir < 256
    → count (c, dir) (elapse hz times s).events
      ≡ hits c (level s c dir) s.current_lux.0 (length times) + count (c, dir) s.events
unfolding elapse hits
elapse_counts hz c dir [] s on small = omega arith
elapse_counts hz c dir (now ∷ times) s on small =
    let s' = lux_auto_change hz now s in
    let (counted, lux, ev, high, low) = tick_counts hz now c dir s on small in
    let same : level s' c dir ≡ level s c dir = same_level s s' c dir high low in
    let rest = elapse_counts hz c dir times s' (ap (λ e. at e c) ev ∙ on) (rw same small) in
    omega (
      arith,
      rest,
      counted,
      ap (λ h. hits c h s'.current_lux.0 (length times)) same,
      ap (λ x. hits c (level s c dir) x (length times)) lux,
    )

-- While the light goes once through its 256 values, an enabled threshold of channel 0 is reported
-- exactly once. On channel 1, which shows half the light, it is reported twice if it is below 128,
-- and never if it is not.
pub full_circle :
    (hz : ℕ) (c : Channel) (dir : Direction) (times : List ℕ) (s : Priv)
    → length times ≡ 256
    → s.current_lux.0 < 256
    → at s.event c ≡ true
    → level s c dir < 256
    → count (c, dir) (elapse hz times s).events
      ≡ per_circle c (level s c dir) + count (c, dir) s.events
full_circle hz c dir times s day lit on small =
    elapse_counts hz c dir times s on small
    ∙ ap (λ n. n + count (c, dir) s.events)
        (ap (hits c (level s c dir) s.current_lux.0) day
          ∙ circle c (level s c dir) s.current_lux.0 lit small)
